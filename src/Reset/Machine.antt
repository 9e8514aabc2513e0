-- ===== src/Reset/Machine.antt =====
-- The reset state machine, apps/bridge/src/cli/operations/host-domain-reset-machine.ts.
pub mod Selection
use ariava.Prelude.{
  ◌≡◌, Bool, true, false, ◌&&◌, ◌||◌, Option, none, some, ◌==◌, ◌!=◌, if◌then◌else◌, Result, ok,
  throw, ◌>>=◌, ◌>>◌, throw_if, require,
}
use ariava.Reset.Journal.{
  Phase, quarantine_pending, quarantined, prepared, revoke_pending, old_identity_revoked,
  signing_replacement_pending, signing_identity_replaced, encryption_identity_replaced,
  runtime_artifacts_cleared, config_saved, enrolled, service_metadata_synchronized,
  service_restore_pending, RevokeState, not_attempted, pending, complete, skipped, RevokeOutcome,
  revoked, identity_already_revoked, old_identity_unreadable, Revoke, Journal, revoke_state_eq,
  outcome_eq, phase_eq,
}
use ariava.Prelude.{option_eq}

pub data Action : Type 0 where
  stop_quarantine_and_acquire_runtime inspect_and_bind_old_domain persist_revoke_intent : Action
  revoke_old_identity persist_signing_replacement_intent replace_signing_identity : Action
  finalize_signing_and_replace_encryption_identity : Action
  finalize_encryption_and_clear_runtime_artifacts persist_config enroll_new_identity : Action
  sync_service_metadata persist_service_restore_intent : Action
  restore_service_and_remove_journal : Action

pub data MachineError : Type 0 where
  invalid_machine_journal : MachineError

unfoldable pub is_legal_revoke_combination : RevokeState → Option RevokeOutcome → Bool
is_legal_revoke_combination state outcome =
    if state == not_attempted || state == pending
    then outcome == none
    else if state == complete
    then outcome == some revoked || outcome == some identity_already_revoked
    else state == skipped && outcome == some old_identity_unreadable

-- The checks that `assertLegalJournal` makes by phase.
unfoldable pub is_legal_at : Phase → RevokeState → Option RevokeOutcome → Bool
is_legal_at phase state outcome =
    if phase == quarantine_pending || phase == quarantined
    then state == not_attempted && outcome == none
    else if phase == revoke_pending
    then state == pending && outcome == none
    else if phase == old_identity_revoked
    then state == complete && (outcome == some revoked || outcome == some identity_already_revoked)
    else if phase == prepared
    then state == not_attempted || state == skipped
    else state == complete || state == skipped

pub assert_legal_journal :
    Phase → RevokeState → Option RevokeOutcome → Result MachineError (Unit {0})
unfolding is_legal_at is_legal_revoke_combination
assert_legal_journal phase state outcome = do
  require (is_legal_revoke_combination state outcome) invalid_machine_journal
  require (is_legal_at phase state outcome) invalid_machine_journal

-- The case `prepared` of `nextHostResetAction`.
prepared_action : RevokeState → Option RevokeOutcome → Result MachineError Action
prepared_action state outcome =
    if state == skipped
    then if outcome != some old_identity_unreadable
      then throw invalid_machine_journal
      else ok persist_signing_replacement_intent
    else if state != not_attempted
    then throw invalid_machine_journal
    else if outcome != none
    then throw invalid_machine_journal
    else ok persist_revoke_intent

action_at : Phase → RevokeState → Option RevokeOutcome → Result MachineError Action
unfolding prepared_action
action_at quarantine_pending _ _ = ok stop_quarantine_and_acquire_runtime
action_at quarantined _ _ = ok inspect_and_bind_old_domain
action_at prepared state outcome = prepared_action state outcome
action_at revoke_pending _ _ = ok revoke_old_identity
action_at old_identity_revoked _ _ = ok persist_signing_replacement_intent
action_at signing_replacement_pending _ _ = ok replace_signing_identity
action_at signing_identity_replaced _ _ = ok finalize_signing_and_replace_encryption_identity
action_at encryption_identity_replaced _ _ = ok finalize_encryption_and_clear_runtime_artifacts
action_at runtime_artifacts_cleared _ _ = ok persist_config
action_at config_saved _ _ = ok enroll_new_identity
action_at enrolled _ _ = ok sync_service_metadata
action_at service_metadata_synchronized _ _ = ok persist_service_restore_intent
action_at service_restore_pending _ _ = ok restore_service_and_remove_journal

-- `nextHostResetAction` over the fields that it reads.
select : Phase → RevokeState → Option RevokeOutcome → Result MachineError Action
unfolding assert_legal_journal action_at
select phase state outcome = do
  assert_legal_journal phase state outcome
  action_at phase state outcome

unfoldable pub next_host_reset_action : Journal → Result MachineError Action
unfolding select
next_host_reset_action journal = select journal.phase journal.revoke.state journal.revoke.outcome
