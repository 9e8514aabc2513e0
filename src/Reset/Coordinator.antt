-- ===== src/Reset/Coordinator.antt =====
-- The journal store's two writes (host-domain-reset-journal-store.ts) and the loop that drives the
-- reset (host-domain-reset.ts, both in apps/bridge/src/cli/operations). The executors' effects on
-- identities, the Relay and the service come in as a function; locks and file writes are left out.
pub mod Termination
use ariava.Prelude.{
  ℕ, zero, suc, ◌≡◌, String, Bool, true, false, Option, none, some, ◌==◌, ◌!=◌, Result, ok, throw,
  ◌>>=◌, ◌>>◌, require,
}
use ariava.Reset.Journal.{Timestamp, Phase, phase_eq, not_attempted, Service, ProfileId, Journal}
use ariava.Reset.Machine.{
  Action, stop_quarantine_and_acquire_runtime, inspect_and_bind_old_domain, persist_revoke_intent,
  revoke_old_identity, persist_signing_replacement_intent, replace_signing_identity,
  finalize_signing_and_replace_encryption_identity, finalize_encryption_and_clear_runtime_artifacts,
  persist_config, enroll_new_identity, sync_service_metadata, persist_service_restore_intent,
  restore_service_and_remove_journal, next_host_reset_action,
}
use ariava.Reset.Policy.{apply_transition, validate_transition}
use ariava.Reset.Policy.Edges.{Transition}
use ariava.Reset.Policy.Fields.{same_value}
use ariava.Reset.Schema.{
  Resources, JournalError, invalid_journal, changed_before_advancement, transition_refused,
  no_action, parse_journal,
}

-- buildInitialJournal
unfoldable pub initial_journal : Resources → String → Service → Timestamp → Journal
initial_journal r operation_id service now = record {
  version = 1;
  operation_id = operation_id;
  profile = r.identity_profile;
  phase = Phase.quarantine_pending;
  old_host_id = none;
  old_key_id = none;
  new_host_id = none;
  new_key_id = none;
  old_encryption_key_id = none;
  signing_cleanup = none;
  signing_replacement_attempted_at = none;
  encryption_identity_replaced_at = none;
  runtime_artifacts_cleared_at = none;
  config_saved_at = none;
  enrolled_at = none;
  service_metadata_synchronized_at = none;
  resource_digest = r.host_domain_digest;
  created_at = now;
  updated_at = now;
  revoke = record { state = not_attempted; outcome = none };
  service = service;
}

-- createHostDomainResetJournal
pub create_journal : Journal → Resources → Result JournalError Journal
create_journal initial r = do
  require (initial.phase == Phase.quarantine_pending) invalid_journal
  parse_journal initial r

-- Any violation is thrown with its message.
abbrev pub or_refused {ℓ} : {E : Type ℓ} → Result E Journal → Result JournalError Journal
or_refused (ok j) = ok j
or_refused (throw violation) = throw transition_refused

-- advanceHostDomainResetJournal: `stored` is the journal that the file holds.
unfoldable pub advance_journal :
    Resources → Option Journal → Journal → Transition → Timestamp → Result JournalError Journal
advance_journal r none current transition now = throw changed_before_advancement
advance_journal r (some stored) current transition now = do
  require (same_value stored current) changed_before_advancement
  candidate ← parse_journal (apply_transition stored transition now) r
  or_refused (validate_transition stored candidate)

-- What an executor returns.
pub data Execution : Type 0 where
  advance_by : Transition → Execution
  restore : Execution

-- The phase that the executor of an action asks for when it asks for a transition, as
-- executeHostResetAction dispatches (host-domain-reset-executor.ts); the last one restores.
abbrev pub executor_phase : Action → Option Phase
executor_phase stop_quarantine_and_acquire_runtime = some Phase.quarantined
executor_phase inspect_and_bind_old_domain = some Phase.prepared
executor_phase persist_revoke_intent = some Phase.revoke_pending
executor_phase revoke_old_identity = some Phase.old_identity_revoked
executor_phase persist_signing_replacement_intent = some Phase.signing_replacement_pending
executor_phase replace_signing_identity = some Phase.signing_identity_replaced
executor_phase finalize_signing_and_replace_encryption_identity =
    some Phase.encryption_identity_replaced
executor_phase finalize_encryption_and_clear_runtime_artifacts =
    some Phase.runtime_artifacts_cleared
executor_phase persist_config = some Phase.config_saved
executor_phase enroll_new_identity = some Phase.enrolled
executor_phase sync_service_metadata = some Phase.service_metadata_synchronized
executor_phase persist_service_restore_intent = some Phase.service_restore_pending
executor_phase restore_service_and_remove_journal = none

-- How the loop ends: it restores the service with the journal at hand, it throws with the journal
-- that the file holds, or the fuel is used up.
pub data Outcome : Type 0 where
  restoring : Journal → Outcome
  stopped : Journal → Outcome
  out_of_fuel : Outcome

module _ {ℓ} {E : Type ℓ} (r : Resources) (execute : Action → Journal → Result E Execution)
    (clock : ℕ → Timestamp) where
  abbrev pub continue : (Journal → Outcome) → Journal → Result JournalError Journal → Outcome
  continue rest journal (ok next) = rest next
  continue rest journal (throw e) = stopped journal

  -- What the loop does with what the executor returned.
  pub executed : (Journal → Outcome) → ℕ → Journal → Result E Execution → Outcome
  executed rest n journal (throw e) = stopped journal
  executed rest n journal (ok restore) = restoring journal
  executed rest n journal (ok (advance_by transition)) =
      continue rest journal (advance_journal r (some journal) journal transition (clock n))

  pub perform : (Journal → Outcome) → ℕ → Journal → Action → Outcome
  perform rest n journal restore_service_and_remove_journal = restoring journal
  perform rest n journal action = executed rest n journal (execute action journal)

  -- One round of the loop, `rest` being the rounds after it.
  pub round : (Journal → Outcome) → ℕ → Journal → Outcome
  round rest n journal = elim (next_host_reset_action journal) [
    | throw e ↦ stopped journal
    | ok action ↦ perform rest n journal action
  ]

  -- The `while (true)` of `resetHostDomainUnlocked`.
  pub run : ℕ → Journal → Outcome
  run zero journal = out_of_fuel
  run (suc n) journal = round (λ next. run n next) n journal
