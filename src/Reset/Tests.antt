-- ===== src/Reset/Tests.antt =====
-- The reset on concrete journals: apps/bridge/src/cli/operations/host-domain-reset*.ts.
use ariava.Prelude.{
  ℕ, String, ◌≡◌, ◌≢◌, ◌+◌, ◌-◌, ◌<◌, ◌↔◌, refl, none, some, Result, ok, throw, arith, true, false,
  ◌⊎◌, [],
}
use ariava.Prelude.Codes.{is_prefixed_key}
use ariava.Reset.Journal.{
  revoked, quarantine_pending, quarantined, prepared, revoke_pending, RevokeState, linux_json,
  signing_replacement_pending, skipped, old_identity_unreadable, Service, launchd, ProfileId,
  Journal, Timestamp, phase_index, phase_eq,
}
use ariava.Reset.Machine.{
  Action, stop_quarantine_and_acquire_runtime, next_host_reset_action, invalid_machine_journal,
}
use ariava.Reset.Machine.Selection.{Selects, next_host_reset_action_iff}
use ariava.Reset.Policy.{apply_transition, validate_transition, find_edge}
use ariava.Reset.Policy.Applied.{IsReady, validate-apply}
use ariava.Reset.Policy.Edges.{
  to_quarantined, to_prepared, to_revoke_pending, to_old_identity_revoked,
  to_signing_replacement_pending, to_signing_identity_replaced, to_encryption_identity_replaced,
  to_runtime_artifacts_cleared, to_config_saved, to_enrolled, to_service_metadata_synchronized,
  to_service_restore_pending, adjacent,
}
use ariava.Reset.Policy.Fields.{same_value, operation_id, Agrees, is_null_field}
use ariava.Reset.Policy.Lasting.{here, next, Run-keeps}
use ariava.Reset.Policy.Progress.{validate_progress}
use ariava.Reset.Schema.{Resources, parse_journal}
use ariava.Reset.Schema.Invariants.{skipping, skipped_passes}
use ariava.Reset.Coordinator.{
  initial_journal, advance_journal, Execution, advance_by, restore, run, out_of_fuel,
}
use ariava.Reset.Coordinator.Termination.{AsksFor, run_ends}

abbrev hex_digest : String
hex_digest = "0123456789abcdef0123456789abcdef0123456789abcdef0123456789abcdef"

abbrev profile_resources : Resources
profile_resources = record {
  identity_profile = ProfileId.default;
  host_domain_digest = hex_digest;
  identity_digest = hex_digest;
}

abbrev running_service : Service
running_service = record {
  managed = true;
  installed = true;
  enabled = true;
  was_running = true;
  backend = launchd;
}

abbrev begun : Journal
begun = initial_journal profile_resources "operation-1" running_service 1000

abbrev stopped_service : Journal
stopped_service = record begun { phase = quarantined; updated_at = 2000 }

begun-IsReady : IsReady begun to_quarantined
unfolding initial_journal find_edge
begun-IsReady = record {
  edge = adjacent quarantine_pending quarantined [] [];
  found = refl;
  met = refl;
  empty = λ f. refl;
}

abbrev quarantined_journal : Journal
quarantined_journal = apply_transition begun to_quarantined 2000

validate-apply_example : validate_transition begun quarantined_journal ≡ ok quarantined_journal
unfolding initial_journal
validate-apply_example = validate-apply begun to_quarantined 2000 begun-IsReady (omega arith)

begun_parsed : parse_journal quarantined_journal profile_resources ≡ ok quarantined_journal
unfolding parse_journal initial_journal apply_transition
begun_parsed = refl

same_begun : same_value begun begun ≡ true
unfolding same_value initial_journal
same_begun = refl

begun_advances :
    advance_journal profile_resources (some begun) begun to_quarantined 2000
    ≡ ok quarantined_journal
unfolding advance_journal
begun_advances = rw (advance_journal, same_begun, begun_parsed, validate-apply_example) refl

validate_progress_example :
    (begun ≡ quarantined_journal)
    ⊎ (phase_index quarantined_journal.phase ≡ phase_index begun.phase + 1)
    ⊎ ((begun.phase ≡ prepared)
        × (quarantined_journal.phase ≡ signing_replacement_pending)
        × (begun.revoke ≡ record { state = skipped; outcome = some old_identity_unreadable }))
validate_progress_example = validate_progress begun quarantined_journal validate-apply_example

begun_phase : begun.phase ≢ quarantined_journal.phase
unfolding initial_journal apply_transition
begun_phase p = cc

begun_has_id : is_null_field operation_id begun ≡ false
unfolding is_null_field
begun_has_id = refl

Run-keeps_example : Agrees operation_id begun quarantined_journal
Run-keeps_example = Run-keeps operation_id (next here validate-apply_example) refl (begun_has_id)

next_host_reset_action_iff_example :
    (next_host_reset_action begun ≡ ok stop_quarantine_and_acquire_runtime)
    ↔ Selects begun.phase begun.revoke.state begun.revoke.outcome
        stop_quarantine_and_acquire_runtime
next_host_reset_action_iff_example =
    next_host_reset_action_iff begun stop_quarantine_and_acquire_runtime

-- The old identity was readable, and its revoke is pending.
abbrev revoking : Journal
revoking = record quarantined_journal {
  phase = revoke_pending;
  old_host_id = some "host_0123456789012345678901234567890123456789012";
  old_key_id = some "key_0123456789012345678901234567890123456789012";
  signing_cleanup = some (record {
    kind = linux_json;
    resource_digest = hex_digest;
    profile = ProfileId.default;
    previous_account = none;
    previous_pending_account = none;
    interrupted_creation_account = none;
  });
  revoke = record { state = RevokeState.pending; outcome = none };
}

revoking_parsed : parse_journal revoking profile_resources ≡ ok revoking
unfolding parse_journal initial_journal apply_transition is_prefixed_key
revoking_parsed = refl

skipped_passes_example :
    (parse_journal (skipping revoking) profile_resources ≡ ok (skipping revoking))
    × (next_host_reset_action (skipping revoking) ≡ throw invalid_machine_journal)
skipped_passes_example = skipped_passes revoking profile_resources revoking_parsed refl refl

-- Executors that ask for what the program's ask for, the old identity being unreadable, in whichever
-- phase the journal stands.
abbrev executors : Action → Journal → Result (Unit {0}) Execution
executors Action.stop_quarantine_and_acquire_runtime j = ok (advance_by to_quarantined)
executors Action.inspect_and_bind_old_domain j = ok (
    advance_by (
      to_prepared none none none none
        (record { state = skipped; outcome = some old_identity_unreadable })))
executors Action.persist_revoke_intent j = ok (advance_by to_revoke_pending)
executors Action.revoke_old_identity j = ok (advance_by (to_old_identity_revoked revoked))
executors Action.persist_signing_replacement_intent j =
    ok (advance_by (to_signing_replacement_pending j.updated_at))
executors Action.replace_signing_identity j =
    ok (advance_by (to_signing_identity_replaced "host_new" "key_new"))
executors Action.finalize_signing_and_replace_encryption_identity j =
    ok (advance_by (to_encryption_identity_replaced j.updated_at))
executors Action.finalize_encryption_and_clear_runtime_artifacts j =
    ok (advance_by (to_runtime_artifacts_cleared j.updated_at))
executors Action.persist_config j = ok (advance_by (to_config_saved j.updated_at))
executors Action.enroll_new_identity j = ok (advance_by (to_enrolled j.updated_at))
executors Action.sync_service_metadata j =
    ok (advance_by (to_service_metadata_synchronized j.updated_at))
executors Action.persist_service_restore_intent j = ok (advance_by to_service_restore_pending)
executors Action.restore_service_and_remove_journal j = ok restore

executors_ask : AsksFor executors
executors_ask Action.stop_quarantine_and_acquire_runtime j t h = ground arith
executors_ask Action.restore_service_and_remove_journal j t h = cc
executors_ask _ j t h = ground arith

abbrev each_second : ℕ → Timestamp
each_second n = 100000 - n

begun_early : 12 < 13 + phase_index begun.phase
unfolding initial_journal
begun_early = omega arith

run_ends_example : run profile_resources executors each_second 13 begun ≢ out_of_fuel
run_ends_example =
    run_ends profile_resources executors each_second executors_ask 13 begun begun_early
