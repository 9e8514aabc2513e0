-- ===== src/Store/SessionTests.antt =====
-- The session transitions on a concrete state:
-- apps/bridge/src/state-store/session-transitions.ts.
use mathlib.Core.Path.{subst}
use ariava.Prelude.{
  String, ◌≡◌, ◌≢◌, refl, sym, ap, ◌∙◌, inr, eq_iff, Option, none, some, [], ◌∷◌, arith,
  if◌then◌else◌, ◌==◌, string_eq, option_eq,
}
use ariava.Prelude.Dict.{lookup, contains, Every}
use ariava.Store.State.{CanonicalSession, idle, Checkpoint, BridgeState, after}
use ariava.Store.Empty.{empty_state}
use ariava.Store.Sessions.{replace_driver_sessions, remove_session, session_ids}
use ariava.Store.Sessions.{set_session_driver, read_current_session_revision}
use ariava.Store.Sessions.Revisions.{commit_all, commit_all-advances}
use ariava.Store.State.{StateTransition, replaced}
use ariava.Prelude.{◌≤◌, ◌+◌, ok}
use ariava.Prelude.Dict.{insert}
use ariava.Store.Sessions.Lookup.{last_with, or_else}
use ariava.Store.Sessions.Relations.{
  SessionRelations, CheckpointBinding, replace_breaks_checkpoints, remove-SessionRelations,
}
use ariava.Store.Sessions.Replacement.{driver-replace, session-replace}

abbrev bridge : BridgeState
bridge = empty_state "epoch"

abbrev first_checkpoint : Checkpoint
first_checkpoint = record {
  session_id = "s1";
  producer_event_id = "p1";
  producer_event_order = "1";
  event_id = "e1";
  fingerprint = "f1";
  created_at = 1000;
}

abbrev pi_session : CanonicalSession
pi_session = record {
  session_id = "s1";
  host_id = "host_1";
  provider = "pi";
  project_name = "ariava";
  name_text = "work";
  opening_text = none;
  latest_activity_text = none;
  working_directory = none;
  harness_provider = none;
  status = idle;
  updated_at = 1000;
  last_event_id = none;
  snoozed_until = none;
}

abbrev with_session : BridgeState
with_session = record bridge {
  sessions = ("s1", pi_session) ∷ [];
  session_drivers = ("s1", "pi") ∷ [];
  producer_event_checkpoints = ("s1", first_checkpoint) ∷ [];
}

driver-replace_example :
    lookup (after with_session (replace_driver_sessions with_session "pi" [])).session_drivers "s1"
    ≡ (if contains (session_ids []) "s1"
        then some "pi"
        else if lookup with_session.session_drivers "s1" == some "pi"
        then none
        else lookup with_session.session_drivers "s1")
driver-replace_example = driver-replace with_session "pi" [] "s1"

session-replace_example :
    lookup (after with_session (replace_driver_sessions with_session "pi" [])).sessions "s1"
    ≡ or_else (last_with [] "s1") (
        if lookup with_session.session_drivers "s1" == some "pi"
        then none
        else lookup with_session.sessions "s1")
session-replace_example = session-replace with_session "pi" [] "s1"

has_checkpoint : lookup with_session.producer_event_checkpoints "s1" ≡ some first_checkpoint
unfolding lookup
has_checkpoint = refl

has_driver : lookup with_session.session_drivers "s1" ≡ some "pi"
unfolding lookup
has_driver = refl

replace_breaks_checkpoints_example :
    ¬ Every
      (after with_session (replace_driver_sessions with_session "pi" [])).producer_event_checkpoints
      (CheckpointBinding
        (after with_session (replace_driver_sessions with_session "pi" [])).sessions)
replace_breaks_checkpoints_example =
    replace_breaks_checkpoints with_session "pi" [] "s1" first_checkpoint has_checkpoint has_driver
      refl

is_there : ◌≢◌ {A = Option CanonicalSession} (some pi_session) none
is_there h = cc

only_entry :
    {V : Type 0} (v w : V) (k : String)
    → lookup (("s1", v) ∷ []) k ≡ some w
    → (◌≡◌ {A = String} "s1" k) × (w ≡ v)
unfolding lookup
only_entry v w k h = ground (arith, eq_iff "s1" k)

session_at :
    (k : String) → ◌≡◌ {A = String} "s1" k → lookup with_session.sessions k ≡ some pi_session
unfolding lookup
session_at k key = subst (λ j. lookup with_session.sessions j ≡ some pi_session) key refl

with_session-SessionRelations : SessionRelations "host_1" with_session
with_session-SessionRelations = record {
  sessions = λ k s h.
      let (key, same) = only_entry pi_session s k h in
      (ap (λ x. x.session_id) same ∙ key, ap (λ x. x.host_id) same);
  drivers = λ k d h.
      let (key, same) = only_entry "pi" d k h in (pi_session, session_at k key, key, inr same);
  checkpoints = λ k c h.
      let (key, same) = only_entry first_checkpoint c k h in
      (
        sym key ∙ sym (ap (λ x. x.session_id) same),
        λ gone. is_there (sym (session_at k key) ∙ gone),
      );
}

remove-SessionRelations_example :
    SessionRelations "host_1" (after with_session (remove_session with_session "s1" none))
remove-SessionRelations_example =
    remove-SessionRelations "host_1" with_session "s1" none with_session-SessionRelations

abbrev adapted : StateTransition (Unit {0})
adapted = record {
  state = replaced (record with_session { session_drivers = ("s1", "agent-adapter") ∷ [] });
  result = tt;
}

adapted_ok : set_session_driver with_session "s1" "agent-adapter" none ≡ ok adapted
unfolding set_session_driver lookup insert
adapted_ok = refl

none_given : (s : CanonicalSession) → none ≡ some s → s.host_id ≡ "host_1"
none_given s h = cc

commit_all-advances_example :
    (read_current_session_revision with_session "s1"
      ≤ read_current_session_revision
          (commit_all with_session (("s1", 1) ∷ ("s1", 3) ∷ ("s1", 2) ∷ []))
          "s1")
    × (read_current_session_revision
          (commit_all with_session (("s1", 1) ∷ ("s1", 3) ∷ ("s1", 2) ∷ []))
          "s1"
        ≤ read_current_session_revision with_session "s1" + 3)
commit_all-advances_example =
    commit_all-advances with_session (("s1", 1) ∷ ("s1", 3) ∷ ("s1", 2) ∷ []) "s1"
