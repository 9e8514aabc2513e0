-- ===== src/Store/Sessions/Relations.antt =====
-- The relations of sessions that the codec asserts of a stored state: the loops over sessions,
-- drivers, events and checkpoints in `assertCurrentStateRelationships` of
-- apps/bridge/src/state-store/state-codec.ts, and the transitions that keep or break them.
use ariava.Prelude.{
  String, ◌≡◌, ◌≢◌, sym, ◌∙◌, ◌⊎◌, inl, inr, false, not, ◌||◌, Option, none, some, List, ◌==◌, ◌!=◌,
  if◌then◌else◌, arith, eq_iff, Bool-cases, option_eq, string_eq,
}
use ariava.Prelude.Dict.{
  Dict, lookup, remove, Every, has_key, contains, lookup-remove_ne, lookup-remove-some,
}
use ariava.Store.State.{CanonicalSession, Checkpoint, BridgeState, after}
use ariava.Store.Sessions.{session_ids, replace_driver_sessions, remove_session, expects_other}
use ariava.Store.Sessions.Lookup.{last_with, or_else, contains-last_with}
use ariava.Store.Sessions.Replacement.{session-replace, checkpoints-replace}

-- Each session stands under its own id and belongs to the Host.
abbrev pub SessionBinding : String → String → CanonicalSession → Type 0
SessionBinding host id s = (s.session_id ≡ id) × (s.host_id ≡ host)

-- Each driver entry has its session, and the driver is the adapter or the session's provider.
abbrev pub DriverBinding : Dict CanonicalSession → String → String → Type 0
DriverBinding sessions id driver =
    (s : CanonicalSession) × (lookup sessions id ≡ some s)
    × (s.session_id ≡ id)
    × ((driver ≡ "agent-adapter") ⊎ (driver ≡ s.provider))

-- A checkpoint stands under the id of its session, which is stored.
abbrev pub CheckpointBinding : Dict CanonicalSession → String → Checkpoint → Type 0
CheckpointBinding sessions id c = (id ≡ c.session_id) × (lookup sessions id ≢ none)

pub record SessionRelations (host : String) (state : BridgeState) : Type 0 where
  pub sessions : Every state.sessions (SessionBinding host)
  pub drivers : Every state.session_drivers (DriverBinding state.sessions)
  pub checkpoints : Every state.producer_event_checkpoints (CheckpointBinding state.sessions)

dropped_lookup :
    (state : BridgeState) (driver : String) (ss : List CanonicalSession) (k : String)
    → lookup state.session_drivers k ≡ some driver
    → contains (session_ids ss) k ≡ false
    → or_else
        (last_with ss k)
        (if lookup state.session_drivers k == some driver then none else lookup state.sessions k)
      ≡ none
dropped_lookup state driver ss k bound dropped =
    ground (arith, contains-last_with ss k, eq_iff driver driver)

abbrev without : BridgeState → String → BridgeState
without state id = record state {
  sessions = remove state.sessions id;
  session_drivers = remove state.session_drivers id;
  producer_event_checkpoints = remove state.producer_event_checkpoints id;
}

removed :
    (host : String) (state : BridgeState) (id : String)
    → SessionRelations host state
    → SessionRelations host (without state id)
removed host state id r = record {
  sessions = λ k s h. let (_, was) = lookup-remove-some state.sessions id k h in r.sessions k s was;
  drivers = λ k d h.
      let (other, was) = lookup-remove-some state.session_drivers id k h in
      let (s, found, named, provides) = r.drivers k d was in
      (s, lookup-remove_ne state.sessions id k other ∙ found, named, provides);
  checkpoints = λ k c h.
      let (other, was) = lookup-remove-some state.producer_event_checkpoints id k h in
      let (named, present) = r.checkpoints k c was in
      (named, λ gone. present (sym (lookup-remove_ne state.sessions id k other) ∙ gone));
}

-- A replacement that drops a session with a checkpoint leaves a state that the codec refuses.
pub replace_breaks_checkpoints :
    (state : BridgeState) (driver : String) (ss : List CanonicalSession) (k : String)
    (c : Checkpoint)
    → lookup state.producer_event_checkpoints k ≡ some c
    → lookup state.session_drivers k ≡ some driver
    → contains (session_ids ss) k ≡ false
    → ¬ Every
        (after state (replace_driver_sessions state driver ss)).producer_event_checkpoints
        (CheckpointBinding (after state (replace_driver_sessions state driver ss)).sessions)
replace_breaks_checkpoints state driver ss k c has bound dropped every =
    let stays : lookup
          (after state (replace_driver_sessions state driver ss)).producer_event_checkpoints k
        ≡ some c =
      rw (checkpoints-replace state driver ss) has in
    let (_, present) = every k c stays in
    present (session-replace state driver ss k ∙ dropped_lookup state driver ss k bound dropped)

-- Removing a session keeps the relations: its driver entry and its checkpoint go with it.
pub remove-SessionRelations :
    (host : String) (state : BridgeState) (id : String) (expected : Option String)
    → SessionRelations host state
    → SessionRelations host (after state (remove_session state id expected))
unfolding remove_session
remove-SessionRelations host state id expected r =
    elim (Bool-cases (expects_other expected (lookup state.session_drivers id))) [
      | inl other ↦ rw other r
      | inr fine ↦
          elim (Bool-cases
            (not (has_key state.sessions id || lookup state.session_drivers id != none))) [
              | inl missing ↦ rw (fine, missing) r
              | inr there ↦ rw (fine, there) (removed host state id r)
            ]
    ]
