-- ===== src/Store/Sessions.antt =====
-- Sessions, their drivers and their revisions: apps/bridge/src/state-store/session-transitions.ts.
pub mod Lookup
pub mod Relations
pub mod Replacement
pub mod Setting
pub mod Revisions
use ariava.Prelude.{
  ℕ, ◌+◌, String, ◌≡◌, Bool, true, false, not, ◌&&◌, ◌||◌, Option, none, some, List, [], ◌∷◌, map,
  ◌==◌, ◌!=◌, if◌then◌else◌, Result, ok, throw, option_eq, string_eq, nat_eq,
}
use ariava.Prelude.Dict.{Dict, lookup, insert, remove, has_key, keys, contains}
use ariava.Store.State.{
  CanonicalSession, BridgeState, StateTransition, unchanged, replaced, Timestamp, StoreError,
  driver_requires_session, revision_must_advance, SessionStatus,
}

-- The sessions and their drivers, which the transitions of this file change together.
pub record Bindings : Type 0 where
  pub sessions : Dict CanonicalSession
  pub drivers : Dict String

abbrev bindings : BridgeState → Bindings
bindings s = record { sessions = s.sessions; drivers = s.session_drivers }

-- One round of the first loop of `replaceDriverSessionsTransition`, over the entries of `drivers`.
pub drop_stale_one : Dict String → String → List String → String → Bindings → Bindings
drop_stale_one drivers driver ids k b =
    if lookup drivers k == some driver && not (contains ids k)
    then record { sessions = remove b.sessions k; drivers = remove b.drivers k }
    else b

pub drop_stale : Dict String → String → List String → List String → Bindings → Bindings
drop_stale drivers driver ids [] b = b
drop_stale drivers driver ids (k ∷ ks) b =
    drop_stale drivers driver ids ks (drop_stale_one drivers driver ids k b)

-- Its second loop, over the new sessions.
pub bind_all : String → List CanonicalSession → Bindings → Bindings
bind_all driver [] b = b
bind_all driver (s ∷ ss) b = bind_all driver ss (record {
  sessions = insert b.sessions s.session_id s;
  drivers = insert b.drivers s.session_id driver;
})

abbrev pub session_ids : List CanonicalSession → List String
session_ids = map (λ s. s.session_id)

pub replace_bindings : String → List CanonicalSession → Bindings → Bindings
replace_bindings driver sessions b =
    bind_all driver sessions (drop_stale b.drivers driver (session_ids sessions) (keys b.drivers) b)

pub replace_driver_sessions :
    BridgeState → String → List CanonicalSession → StateTransition (Unit {0})
replace_driver_sessions state driver sessions =
    let b = replace_bindings driver sessions (bindings state) in
    record {
      state = replaced (record state {
        sessions = b.sessions;
        session_drivers = b.drivers;
        reconciled_drivers = insert state.reconciled_drivers driver tt;
      });
      result = tt;
    }

abbrev or_stored : Option CanonicalSession → Option CanonicalSession → Option CanonicalSession
or_stored none stored = stored
or_stored (some session) stored = some session

bind_session :
    BridgeState
    → String
    → String
    → Option CanonicalSession
    → Result StoreError (StateTransition (Unit {0}))
bind_session state session_id driver none = throw driver_requires_session
bind_session state session_id driver (some bound) =
    if bound.session_id != session_id || bound.provider != driver && driver != "agent-adapter"
    then throw driver_requires_session
    else ok (record {
      state = replaced (record state {
        sessions = insert state.sessions session_id bound;
        session_drivers = insert state.session_drivers session_id driver;
      });
      result = tt;
    })

unfoldable pub set_session_driver :
    BridgeState
    → String
    → String
    → Option CanonicalSession
    → Result StoreError (StateTransition (Unit {0}))
unfolding bind_session
set_session_driver state session_id driver session =
    bind_session state session_id driver (or_stored session (lookup state.sessions session_id))

abbrev expects_other : Option String → Option String → Bool
expects_other none driver = false
expects_other (some expected) driver = driver != some expected

pub remove_session : BridgeState → String → Option String → StateTransition Bool
remove_session state session_id expected =
    let driver = lookup state.session_drivers session_id in
    if expects_other expected driver
    then record { state = unchanged; result = false }
    else if not (has_key state.sessions session_id || driver != none)
    then record { state = unchanged; result = false }
    else record {
      state = replaced (record state {
        sessions = remove state.sessions session_id;
        session_drivers = remove state.session_drivers session_id;
        producer_event_checkpoints = remove state.producer_event_checkpoints session_id;
      });
      result = true;
    }

pub remove_session_driver : BridgeState → String → StateTransition (Unit {0})
remove_session_driver state session_id =
    if not (has_key state.session_drivers session_id)
    then record { state = unchanged; result = tt }
    else record {
      state = replaced (record state { session_drivers = remove state.session_drivers session_id });
      result = tt;
    }

-- `updateSessionTransition` with the patch as the function that spreads it over a session.
pub update_session :
    BridgeState
    → String
    → (CanonicalSession → CanonicalSession)
    → StateTransition (Option CanonicalSession)
update_session state session_id patch = elim (lookup state.sessions session_id) [
  | none ↦ record { state = unchanged; result = none }
  | some current ↦ record {
    state = replaced (record state { sessions = insert state.sessions session_id (patch current) });
    result = some (patch current);
  }
]

abbrev or_zero : Option ℕ → ℕ
or_zero none = 0
or_zero (some n) = n

pub read_current_session_revision : BridgeState → String → ℕ
read_current_session_revision state session_id = or_zero (lookup state.session_revisions session_id)

pub read_next_session_revision : BridgeState → String → ℕ
unfolding read_current_session_revision
read_next_session_revision state session_id = read_current_session_revision state session_id + 1

pub commit_session_revision :
    BridgeState → String → ℕ → Result StoreError (StateTransition (Unit {0}))
unfolding read_current_session_revision
commit_session_revision state session_id revision =
    if revision == read_current_session_revision state session_id
    then ok (record { state = unchanged; result = tt })
    else if revision != read_current_session_revision state session_id + 1
    then throw revision_must_advance
    else ok (record {
      state =
          replaced (record state {
            session_revisions = insert state.session_revisions session_id revision;
          });
      result = tt;
    })
