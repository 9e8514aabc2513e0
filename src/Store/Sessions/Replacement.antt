-- ===== src/Store/Sessions/Replacement.antt =====
-- What a full-driver replacement leaves in the state.
use ariava.Prelude.{
  String, ◌≡◌, refl, ◌&&◌, none, some, List, ◌==◌, if◌then◌else◌, arith, option_eq, string_eq,
  Option-cases, inl, inr,
}
use ariava.Prelude.Dict.{Dict, lookup, keys, contains, contains-keys}
use ariava.Store.State.{CanonicalSession, BridgeState, after}
use ariava.Store.Sessions.{
  bindings, drop_stale, session_ids, replace_bindings, replace_driver_sessions,
}
use ariava.Store.Sessions.Lookup.{
  last_with, contains-last_with, or_else, is_stale, drivers-bind_all, sessions-bind_all,
  drivers-drop_stale, sessions-drop_stale,
}

-- A stale session has an entry, so the loop over the entries meets it.
stale_is_key :
    (drivers : Dict String) (driver : String) (ids : List String) (k : String)
    → (contains (keys drivers) k && is_stale drivers driver ids k) ≡ is_stale drivers driver ids k
stale_is_key drivers driver ids k = elim (Option-cases (lookup drivers k)) [
  | inl missing ↦ rw missing (ground arith)
  | inr (v, found) ↦ rw (contains-keys drivers k v found) refl
]

-- After the sessions of a driver are replaced, exactly the new sessions are bound to it: a new
-- session is, a session that was bound to it and is not new has no binding, and every other binding
-- stays.
pub driver-replace :
    (state : BridgeState) (driver : String) (ss : List CanonicalSession) (k : String)
    → lookup (after state (replace_driver_sessions state driver ss)).session_drivers k ≡ (
        if contains (session_ids ss) k
        then some driver
        else if lookup state.session_drivers k == some driver
        then none
        else lookup state.session_drivers k)
unfolding replace_driver_sessions replace_bindings
driver-replace state driver ss k = ground (
  arith,
  drivers-bind_all driver ss
      (drop_stale state.session_drivers driver (session_ids ss) (keys state.session_drivers)
        (bindings state))
      k,
  drivers-drop_stale state.session_drivers driver (session_ids ss) (keys state.session_drivers)
      (bindings state) k,
  stale_is_key state.session_drivers driver (session_ids ss) k,
)

-- The stored sessions change with the bindings: the last of the new sessions with an id is stored
-- under it, a session that was bound to the driver and is not new is gone, and every other session
-- stays.
pub session-replace :
    (state : BridgeState) (driver : String) (ss : List CanonicalSession) (k : String)
    → lookup (after state (replace_driver_sessions state driver ss)).sessions k
      ≡ or_else
          (last_with ss k)
          (if lookup state.session_drivers k == some driver then none else lookup state.sessions k)
unfolding replace_driver_sessions replace_bindings
session-replace state driver ss k = ground (
  arith,
  sessions-bind_all driver ss
      (drop_stale state.session_drivers driver (session_ids ss) (keys state.session_drivers)
        (bindings state))
      k,
  sessions-drop_stale state.session_drivers driver (session_ids ss) (keys state.session_drivers)
      (bindings state) k,
  stale_is_key state.session_drivers driver (session_ids ss) k,
  contains-last_with ss k,
)

-- Nothing else of the state changes but the driver's mark; in particular a producer checkpoint stays
-- when its session is dropped.
pub checkpoints-replace :
    (state : BridgeState) (driver : String) (ss : List CanonicalSession)
    → (after state (replace_driver_sessions state driver ss)).producer_event_checkpoints
      ≡ state.producer_event_checkpoints
unfolding replace_driver_sessions
checkpoints-replace state driver ss = refl
