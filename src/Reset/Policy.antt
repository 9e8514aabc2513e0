-- ===== src/Reset/Policy.antt =====
-- The transition policy, apps/bridge/src/cli/operations/host-domain-reset-journal-policy.ts.
pub mod Fields
pub mod Edges
pub mod Steps
pub mod Progress
pub mod Lasting
pub mod Applied
use ariava.Prelude.{
  ℕ, ◌≡◌, Bool, true, false, not, ◌&&◌, ◌||◌, Option, none, some, List, [], ◌∷◌, Eq, ◌==◌, ltb,
  find, any, all, if◌then◌else◌, Result, ok, throw, ◌>>=◌, ◌>>◌, throw_if, option_eq, string_eq,
  nat_eq, String, eq_by_index,
}
use ariava.Reset.Journal.{
  Timestamp, Phase, phase_index, phase_eq, RevokeState, not_attempted, pending, skipped, complete,
  RevokeOutcome, old_identity_unreadable, outcome_eq, revoke_state_eq, Revoke, Journal,
  SigningCleanup,
}
use ariava.Reset.Policy.Fields.{
  JournalField, field_eq, same_field, is_null_field, same_value, revoke, old_host_id, old_key_id,
  new_host_id, new_key_id, old_encryption_key_id, signing_cleanup, service, version, operation_id,
  profile, resource_digest, created_at, updated_at, signing_replacement_attempted_at,
  encryption_identity_replaced_at, runtime_artifacts_cleared_at, config_saved_at, enrolled_at,
  service_metadata_synchronized_at,
}
use ariava.Reset.Policy.Edges.{
  transition_fields, immutable_fields, Violation, same_phase_modification, phase_rollback,
  non_adjacent_transition, unreadable_skip_without_evidence, revoke_precondition_mismatch,
  immutable_field_changed, field_change_not_allowed, one_way_fill_violation, timestamp_rollback,
  Transition, to_quarantined, to_prepared, to_revoke_pending, to_old_identity_revoked,
  to_signing_replacement_pending, to_signing_identity_replaced, to_encryption_identity_replaced,
  to_runtime_artifacts_cleared, to_config_saved, to_enrolled, to_service_metadata_synchronized,
  to_service_restore_pending, TransitionEdge, adjacent, is_readable, is_unreadable, is_pending,
  fill_one, transition_edges,
}

-- applyHostDomainResetTransition
unfoldable pub apply_transition : Journal → Transition → Timestamp → Journal
apply_transition j to_quarantined now = record j { phase = Phase.quarantined; updated_at = now }
apply_transition j (to_prepared host key encryption_key cleanup decision) now = record j {
  phase = Phase.prepared;
  old_host_id = host;
  old_key_id = key;
  old_encryption_key_id = encryption_key;
  signing_cleanup = cleanup;
  revoke = decision;
  updated_at = now;
}
apply_transition j to_revoke_pending now = record j {
  phase = Phase.revoke_pending;
  revoke = record { state = pending; outcome = none };
  updated_at = now;
}
apply_transition j (to_old_identity_revoked outcome) now = record j {
  phase = Phase.old_identity_revoked;
  revoke = record { state = complete; outcome = some outcome };
  updated_at = now;
}
apply_transition j (to_signing_replacement_pending at) now = record j {
  phase = Phase.signing_replacement_pending;
  signing_replacement_attempted_at = some at;
  updated_at = now;
}
apply_transition j (to_signing_identity_replaced host key) now = record j {
  phase = Phase.signing_identity_replaced;
  new_host_id = some host;
  new_key_id = some key;
  updated_at = now;
}
apply_transition j (to_encryption_identity_replaced at) now = record j {
  phase = Phase.encryption_identity_replaced;
  encryption_identity_replaced_at = some at;
  updated_at = now;
}
apply_transition j (to_runtime_artifacts_cleared at) now = record j {
  phase = Phase.runtime_artifacts_cleared;
  runtime_artifacts_cleared_at = some at;
  updated_at = now;
}
apply_transition j (to_config_saved at) now = record j {
  phase = Phase.config_saved;
  config_saved_at = some at;
  updated_at = now;
}
apply_transition j (to_enrolled at) now = record j {
  phase = Phase.enrolled;
  enrolled_at = some at;
  updated_at = now;
}
apply_transition j (to_service_metadata_synchronized at) now = record j {
  phase = Phase.service_metadata_synchronized;
  service_metadata_synchronized_at = some at;
  updated_at = now;
}
apply_transition j to_service_restore_pending now = record j {
  phase = Phase.service_restore_pending;
  updated_at = now;
}

abbrev pub joins : Phase → Phase → TransitionEdge → Bool
joins p q e = e.from == p && e.to == q

unfoldable pub find_edge : Phase → Phase → Option TransitionEdge
find_edge p q = find (joins p q) transition_edges

pub first_differing_field : List JournalField → Journal → Journal → Option JournalField
first_differing_field [] c d = none
first_differing_field (f ∷ fs) c d =
    if not (same_field f c d) then some f else first_differing_field fs c d

-- `edge.require && !edge.require(current)`
abbrev fails : Option (Journal → Bool) → Journal → Bool
fails none c = false
fails (some p) c = not (p c)

abbrev has : List JournalField → JournalField → Bool
has fs f = any (λ g. g == f) fs

-- The loop over IMMUTABLE_FIELDS.
pub check_immutable : List JournalField → Journal → Journal → Result Violation (Unit {0})
check_immutable [] c d = ok tt
check_immutable (f ∷ fs) c d = do
  throw_if (not (same_field f c d)) (immutable_field_changed f)
  check_immutable fs c d

-- One round of the loop over TRANSITION_FIELDS.
pub check_field : TransitionEdge → JournalField → Journal → Journal → Result Violation (Unit {0})
check_field e f c d =
    if has immutable_fields f || same_field f c d
    then ok tt
    else if not (has e.writable f)
    then throw (field_change_not_allowed f c.phase d.phase)
    else if has e.fill_only f && not (is_null_field f c)
    then throw (one_way_fill_violation f)
    else ok tt

pub check_fields :
    TransitionEdge → List JournalField → Journal → Journal → Result Violation (Unit {0})
check_fields e [] c d = ok tt
check_fields e (f ∷ fs) c d = do check_field e f c d; check_fields e fs c d

-- What `validateHostDomainResetTransition` does once the edge is found.
pub check_edge : TransitionEdge → Journal → Journal → Result Violation Journal
check_edge e current candidate = do
  throw_if (fails e.precondition current) e.precondition_violation
  throw_if (ltb candidate.updated_at current.updated_at) timestamp_rollback
  check_immutable immutable_fields current candidate
  check_fields e transition_fields current candidate
  ok candidate

abbrev or_updated_at : Option JournalField → JournalField
or_updated_at none = updated_at
or_updated_at (some f) = f

pub validate_transition : Journal → Journal → Result Violation Journal
validate_transition current candidate =
    if candidate.phase == current.phase
    then if same_value current candidate
      then ok candidate
      else throw (
          same_phase_modification
            (or_updated_at (first_differing_field transition_fields current candidate)))
    else if ltb (phase_index candidate.phase) (phase_index current.phase)
    then throw (phase_rollback current.phase candidate.phase)
    else elim (find_edge current.phase candidate.phase) [
      | none ↦ throw (non_adjacent_transition current.phase candidate.phase)
      | some e ↦ check_edge e current candidate
    ]
