-- ===== src/Store/Handles.antt =====
-- Pending handles and the recent events that they refer to: the handle transitions and
-- `retainRecentEvents` of apps/bridge/src/state-store/session-transitions.ts, and
-- `appendRecentEventTransition` of event-transitions.ts. `localeCompare` of two ids, which the
-- platform's collation decides, is the parameter `compare_ids`.
pub mod Retained
pub mod References
use Prim.Native.Nat.{compare, Ordering}
use Prim.Native.String.{◌++◌ as append}
use ariava.Prelude.{
  ℕ, ◌-◌, String, Bool, true, false, not, ◌&&◌, ◌||◌, Option, none, some, List, [], ◌∷◌, ◌++◌, map,
  ◌==◌, ◌!=◌, ltb, if◌then◌else◌, find, any, keep_if, take, length, Result, ok, throw, string_eq,
  nat_eq,
}
use ariava.Prelude.Dict.{Dict, lookup, insert, remove, values, contains}
use ariava.Prelude.Sorting.{sort_by}
use ariava.Store.State.{
  Timestamp, CanonicalEvent, PendingHandle, BridgeState, StateTransition, unchanged, replaced,
  StoreError, handle_requires_event, handle_time_mismatch, handle_is_older,
}

abbrev pub max_recent_events : ℕ
max_recent_events = 200

-- `${hostId}:${sessionId}`
abbrev pub session_handle_key : String → String → String
session_handle_key host_id session_id = append host_id (append ":" session_id)

abbrev or_handled_at : Option Timestamp → Timestamp → Timestamp
or_handled_at none handled_at = handled_at
or_handled_at (some created_at) handled_at = created_at

-- A comparison's result, and the next comparison where it finds no difference.
abbrev or_next : Ordering → Ordering → Ordering
or_next Ordering.eq next = next
or_next decided next = decided

pub compare_pending_handles :
    (String → String → Ordering) → PendingHandle → PendingHandle → Ordering
compare_pending_handles compare_ids left right =
    or_next
      (compare (or_handled_at left.handled_through_event_created_at left.handled_at)
        (or_handled_at right.handled_through_event_created_at right.handled_at))
      (or_next (compare_ids left.handled_through_event_id right.handled_through_event_id)
        (compare left.updated_at right.updated_at))

abbrev pub has_id : String → CanonicalEvent → Bool
has_id id event = event.event_id == id

-- `events.filter((event, index) => events.findIndex(...) === index)`, given the events before.
pub first_of_each : List CanonicalEvent → List CanonicalEvent → List CanonicalEvent
first_of_each before [] = []
first_of_each before (e ∷ es) =
    let rest = first_of_each (e ∷ before) es in
    if any (has_id e.event_id) before then rest else e ∷ rest

abbrev pub protected_ids : Dict PendingHandle → List String
protected_ids handles = map (λ handle. handle.handled_through_event_id) (values handles)

abbrev pub is_protected : List String → CanonicalEvent → Bool
is_protected ids event = contains ids event.event_id

-- `right.createdAt.localeCompare(left.createdAt) > 0` on canonical timestamps
abbrev pub is_older : CanonicalEvent → CanonicalEvent → Bool
is_older left right = ltb left.created_at right.created_at

-- The protected events, and the first others up to what is available, before they are sorted.
pub kept_events : List String → List CanonicalEvent → List CanonicalEvent
kept_events ids unique =
    let retained = keep_if (is_protected ids) unique in
    retained
    ++ take (max_recent_events - length retained) (keep_if (λ e. not (is_protected ids e)) unique)

pub retain_recent_events : List CanonicalEvent → Dict PendingHandle → List CanonicalEvent
unfolding first_of_each kept_events
retain_recent_events events handles =
    sort_by is_older (kept_events (protected_ids handles) (first_of_each [] events))

pub append_recent_event : BridgeState → CanonicalEvent → StateTransition (Unit {0})
append_recent_event state event = record {
  state = replaced (record state {
    recent_events = retain_recent_events (event ∷ state.recent_events) state.pending_handles;
  });
  result = tt;
}

-- `handledThroughEventId && current.handledThroughEventId !== handledThroughEventId`
abbrev is_different : Option String → String → Bool
is_different none current = false
is_different (some through) current = through != "" && current != through

pub remove_pending_handle :
    BridgeState → String → String → Option String → StateTransition (Unit {0})
remove_pending_handle state host_id session_id through =
    elim (lookup state.pending_handles (session_handle_key host_id session_id)) [
      | none ↦ record { state = unchanged; result = tt }
      | some current ↦
          if is_different through current.handled_through_event_id
          then record { state = unchanged; result = tt }
          else record {
            state = replaced (record state {
              pending_handles =
                  remove state.pending_handles (session_handle_key host_id session_id);
            });
            result = tt;
          }
    ]

module _ (compare_ids : String → String → Ordering) where
  abbrev is_before : PendingHandle → Option PendingHandle → Bool
  is_before handle none = false
  is_before handle (some current) = elim (compare_pending_handles compare_ids handle current) [
    | Ordering.lt ↦ true
    | _ ↦ false
  ]

  abbrev is_other_time : Option Timestamp → Timestamp → Bool
  is_other_time none created_at = false
  is_other_time (some time) created_at = time != created_at

  -- `queuePendingSessionHandleTransition` once its event is found.
  pub queue_handle_of :
      BridgeState → PendingHandle → CanonicalEvent → Result StoreError (StateTransition (Unit {0}))
  queue_handle_of state handle event =
      let bound = record handle { handled_through_event_created_at = some event.created_at } in
      let key = session_handle_key handle.host_id handle.session_id in
      let handles = insert state.pending_handles key bound in
      if event.host_id != handle.host_id || event.session_id != handle.session_id
      then throw handle_requires_event
      else if is_other_time handle.handled_through_event_created_at event.created_at
      then throw handle_time_mismatch
      else if is_before bound (lookup state.pending_handles key)
      then throw handle_is_older
      else ok (record {
        state = replaced (record state {
          pending_handles = handles;
          recent_events = retain_recent_events state.recent_events handles;
        });
        result = tt;
      })

  pub queue_pending_handle :
      BridgeState → PendingHandle → Result StoreError (StateTransition (Unit {0}))
  unfolding queue_handle_of
  queue_pending_handle state handle =
      elim (find (has_id handle.handled_through_event_id) state.recent_events) [
        | none ↦ throw handle_requires_event
        | some event ↦ queue_handle_of state handle event
      ]
