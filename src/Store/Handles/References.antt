-- ===== src/Store/Handles/References.antt =====
-- A pending handle refers to a recent event of its session: the loop over `pendingHandles` in
-- `assertCurrentStateRelationships`, apps/bridge/src/state-store/state-codec.ts.
use Prim.Native.Nat.{Ordering}
use mathlib.Core.Path.{subst}
use ariava.Prelude.{
  String, ◌≡◌, refl, sym, ◌∙◌, true, false, ◌||◌, Option, some, List, [], ◌∷◌, map, ◌==◌, ◌!=◌,
  find, any, Result, ok, throw, string_eq, arith, eq_iff, Bool-cases, Option-cases, inl, inr,
}
use ariava.Prelude.Dict.{
  Dict, lookup, insert, values, any-values, contains, Every, lookup-insert-some, lookup-remove-some,
}
use ariava.Store.State.{
  CanonicalEvent, PendingHandle, BridgeState, StateTransition, StoreError, after,
}
use ariava.Store.Handles.{
  has_id, protected_ids, retain_recent_events, append_recent_event, remove_pending_handle,
  session_handle_key, is_different, is_other_time, is_before, queue_handle_of, queue_pending_handle,
}
use ariava.Store.Handles.Retained.{retain-find}

contains-map :
    (f : PendingHandle → String) (hs : List PendingHandle) (id : String)
    → contains (map f hs) id ≡ any (λ h. f h == id) hs
contains-map f [] id = refl
contains-map f (h ∷ hs) id = ground (arith, contains-map f hs id)

-- The event of a stored handle is protected.
protects :
    (handles : Dict PendingHandle) (k : String) (h : PendingHandle)
    → lookup handles k ≡ some h
    → contains (protected_ids handles) h.handled_through_event_id ≡ true
protects handles k h has = ground (
  arith,
  contains-map (λ h. h.handled_through_event_id) (values handles) h.handled_through_event_id,
  any-values handles (λ x. x.handled_through_event_id == h.handled_through_event_id) k h,
  eq_iff h.handled_through_event_id h.handled_through_event_id,
)

-- The handle stands under its key, and its event is there and belongs to its Host and session.
abbrev pub Refers : List CanonicalEvent → String → PendingHandle → Type 0
Refers events k h =
    (k ≡ session_handle_key h.host_id h.session_id)
    × ((e : CanonicalEvent) × (find (has_id h.handled_through_event_id) events ≡ some e)
        × (e.host_id ≡ h.host_id)
        × (e.session_id ≡ h.session_id))

abbrev pub HandleReferences : BridgeState → Type 0
HandleReferences s = Every s.pending_handles (Refers s.recent_events)

retained-Refers :
    (events : List CanonicalEvent) (handles : Dict PendingHandle)
    → Every handles (Refers events)
    → Every handles (Refers (retain_recent_events events handles))
retained-Refers events handles every k h has =
    let (key, (e, found, host, session)) = every k h has in
    (key, (e, retain-find events handles _ (protects handles k h has) ∙ found, host, session))

pub data Operation : Type 0 where
  appends : CanonicalEvent → Operation
  queues : PendingHandle → Operation
  removes : String → String → Option String → Operation

abbrev or_kept : BridgeState → Result StoreError (StateTransition (Unit {0})) → BridgeState
or_kept s (ok t) = after s t
or_kept s (throw e) = s

abbrev pub attempt : (String → String → Ordering) → BridgeState → Operation → BridgeState
attempt compare_ids s (appends event) = after s (append_recent_event s event)
attempt compare_ids s (queues handle) = or_kept s (queue_pending_handle compare_ids s handle)
attempt compare_ids s (removes host session through) =
    after s (remove_pending_handle s host session through)

-- An appended event whose id is already there belongs to the same Host and session.
abbrev pub Fits : BridgeState → Operation → Type 0
Fits s (appends event) =
    (e : CanonicalEvent)
    → find (has_id event.event_id) s.recent_events ≡ some e
    → (event.host_id ≡ e.host_id) × (event.session_id ≡ e.session_id)
Fits s _ = Unit

appended-Refers :
    (s : BridgeState) (event : CanonicalEvent) (k : String) (h : PendingHandle)
    → Fits s (appends event)
    → Refers s.recent_events k h
    → Refers (event ∷ s.recent_events) k h
appended-Refers s event k h fits (key, (e, found, host, session)) =
    elim (Bool-cases (has_id h.handled_through_event_id event)) [
      | inl taken ↦
          let named = (eq_iff event.event_id h.handled_through_event_id).0 taken in
          let (same_host, same_session) =
            fits e (subst (λ id. find (has_id id) s.recent_events ≡ some e) (sym named) found) in
          (key, (event, rw (find, taken) refl, same_host ∙ host, same_session ∙ session))
      | inr other ↦ (key, (e, rw (find, other) found, host, session))
    ]

inserted :
    (s : BridgeState) (handle bound : PendingHandle) (e : CanonicalEvent)
    → find (has_id handle.handled_through_event_id) s.recent_events ≡ some e
    → (e.host_id != handle.host_id || e.session_id != handle.session_id) ≡ false
    → bound ≡ record handle { handled_through_event_created_at = some e.created_at }
    → HandleReferences s
    → Every
        (insert s.pending_handles (session_handle_key handle.host_id handle.session_id) bound)
        (Refers s.recent_events)
inserted s handle bound e found own is_bound every k h has =
    elim (lookup-insert-some s.pending_handles (session_handle_key handle.host_id handle.session_id)
      k bound has) [
        | inl (named, same) ↦
            rw (same, is_bound)
              (
                sym named,
                (
                  e,
                  found,
                  ground (arith, eq_iff e.host_id handle.host_id),
                  ground (arith, eq_iff e.session_id handle.session_id),
                ),
              )
        | inr (_, was) ↦ every k h was
      ]

queued :
    (compare_ids : String → String → Ordering) (s : BridgeState) (handle : PendingHandle)
    (e : CanonicalEvent)
    → find (has_id handle.handled_through_event_id) s.recent_events ≡ some e
    → HandleReferences s
    → HandleReferences (or_kept s (queue_handle_of compare_ids s handle e))
unfolding queue_handle_of
queued compare_ids s handle e found every =
    let bound = record handle { handled_through_event_created_at = some e.created_at } in
    let key = session_handle_key handle.host_id handle.session_id in
    elim (Bool-cases (e.host_id != handle.host_id || e.session_id != handle.session_id)) [
      | inl foreign ↦ rw foreign every
      | inr own ↦
          elim (Bool-cases
            (is_other_time compare_ids handle.handled_through_event_created_at e.created_at)) [
              | inl mismatch ↦ rw (own, mismatch) every
              | inr timely ↦
                  elim (Bool-cases (is_before compare_ids bound (lookup s.pending_handles key))) [
                    | inl older ↦ rw (own, timely, older) every
                    | inr later ↦
                        rw (own, timely, later)
                          (retained-Refers s.recent_events (insert s.pending_handles key bound)
                            (inserted s handle bound e found own refl every))
                  ]
            ]
    ]

-- Each pending handle stands under its key and refers to a recent event of its Host and session
-- after an append, a queueing or a removal, from a state where this holds; an appended event whose
-- id is already there must belong to the same Host and session.
pub attempt-HandleReferences :
    (compare_ids : String → String → Ordering) (s : BridgeState) (op : Operation)
    → Fits s op
    → HandleReferences s
    → HandleReferences (attempt compare_ids s op)
unfolding append_recent_event queue_pending_handle remove_pending_handle
attempt-HandleReferences compare_ids s (appends event) fits every =
    retained-Refers (event ∷ s.recent_events) s.pending_handles
      (λ k h has. appended-Refers s event k h fits (every k h has))
attempt-HandleReferences compare_ids s (queues handle) fits every =
    elim (Option-cases (find (has_id handle.handled_through_event_id) s.recent_events)) [
      | inl missing ↦ rw (queue_pending_handle, missing) every
      | inr (e, found) ↦
          rw (queue_pending_handle, found) (queued compare_ids s handle e found every)
    ]
attempt-HandleReferences compare_ids s (removes host session through) fits every =
    let key = session_handle_key host session in
    elim (Option-cases (lookup s.pending_handles key)) [
      | inl missing ↦ rw (remove_pending_handle, missing) every
      | inr (h, has) ↦ elim (Bool-cases (is_different through h.handled_through_event_id)) [
        | inl other ↦ rw (remove_pending_handle, has, other) every
        | inr same ↦
            rw (remove_pending_handle, has, same)
              (λ k v still. every k v (lookup-remove-some s.pending_handles key k still).1)
      ]
    ]
