-- ===== src/Store/Events.antt =====
-- Evidence of events: apps/bridge/src/state-store/event-transitions.ts.
pub mod Reservations
use Prim.Native.String.{◌++◌ as append}
use ariava.Prelude.{
  ℕ, ◌-◌, String, Bool, true, false, not, ◌&&◌, ◌||◌, Option, none, some, List, [], ◌∷◌, ◌==◌, ◌!=◌,
  leb, drop, length, if◌then◌else◌, Result, ok, throw, ◌>>=◌, ◌>>◌, throw_if, string_eq, nat_eq,
  option_eq,
}
use ariava.Prelude.Dict.{Dict, lookup, insert}
use ariava.Store.State.{
  Timestamp, CanonicalSession, Reservation, Checkpoint, UploadCompletion, BridgeState,
  StateTransition, unchanged, replaced, StoreError, reservation_conflict,
  checkpoint_session_mismatch,
}

pub same_event_completion : UploadCompletion → UploadCompletion → Bool
same_event_completion left right =
    left.version == right.version
    && left.event_id == right.event_id
    && left.session_id == right.session_id
    && left.revision == right.revision
    && left.event_content_id == right.event_content_id
    && left.session_content_id == right.session_content_id

-- Whether an optional text is missing or empty, as `!value` takes it.
abbrev is_blank : Option String → Bool
is_blank none = true
is_blank (some text) = text == ""

pub is_newer_terminal_session : CanonicalSession → CanonicalSession → Bool
is_newer_terminal_session current pending =
    if is_blank current.last_event_id || current.last_event_id == pending.last_event_id
    then false
    else leb pending.updated_at current.updated_at

abbrev pub producer_reservation_key : String → String → String
producer_reservation_key session_id fingerprint = append session_id (append "\n" fingerprint)

abbrev pub key_of : Reservation → String
key_of r = producer_reservation_key r.session_id r.fingerprint

abbrev pub max_reservations : ℕ
max_reservations = 200

-- `Object.entries(map).slice(-200)`
abbrev pub last_entries {ℓ} : {V : Type ℓ} → Dict V → Dict V
last_entries d = drop (length d - max_reservations) d

abbrev pub with_reservation : BridgeState → Reservation → Dict Reservation
with_reservation s r = last_entries (insert s.producer_event_reservations (key_of r) r)

abbrev pub is_conflict : Reservation → Reservation → Bool
is_conflict existing r = existing.event_id != r.event_id || existing.created_at != r.created_at

unfoldable pub reserve_producer_event :
    BridgeState → Reservation → Result StoreError (StateTransition (Unit {0}))
reserve_producer_event state r = elim (lookup state.producer_event_reservations (key_of r)) [
  | some existing ↦
      if is_conflict existing r
      then throw reservation_conflict
      else ok (record { state = unchanged; result = tt })
  | none ↦ ok (record {
    state = replaced (record state { producer_event_reservations = with_reservation state r });
    result = tt;
  })
]

abbrev checkpointed : BridgeState → Dict Reservation → Checkpoint → StateTransition (Unit {0})
checkpointed state reservations checkpoint = record {
  state = replaced (record state {
    producer_event_reservations = reservations;
    producer_event_checkpoints =
        insert state.producer_event_checkpoints checkpoint.session_id checkpoint;
  });
  result = tt;
}

unfoldable pub reserve_producer_event_with_checkpoint :
    BridgeState → Reservation → Checkpoint → Result StoreError (StateTransition (Unit {0}))
reserve_producer_event_with_checkpoint state r checkpoint =
    if checkpoint.session_id != r.session_id
    then throw checkpoint_session_mismatch
    else elim (lookup state.producer_event_reservations (key_of r)) [
      | some existing ↦
          if is_conflict existing r
          then throw reservation_conflict
          else ok (checkpointed state state.producer_event_reservations checkpoint)
      | none ↦ ok (checkpointed state (with_reservation state r) checkpoint)
    ]
