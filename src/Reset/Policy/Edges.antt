-- ===== src/Reset/Policy/Edges.antt =====
-- The table of the policy: fields, violations, transitions and edges, as host-domain-reset-journal-
-- policy.ts (apps/bridge/src/cli/operations) lists them.
use ariava.Prelude.{
  Bool, ◌&&◌, Option, none, some, List, [], ◌∷◌, ◌==◌, option_eq, string_eq, nat_eq, String,
}
use ariava.Reset.Journal.{
  Timestamp, Phase, phase_eq, not_attempted, pending, skipped, RevokeOutcome,
  old_identity_unreadable, outcome_eq, revoke_state_eq, Revoke, Journal, SigningCleanup,
}
use ariava.Reset.Policy.Fields.{
  JournalField, field_eq, revoke, old_host_id, old_key_id, new_host_id, new_key_id,
  old_encryption_key_id, signing_cleanup, service, version, operation_id, profile, resource_digest,
  created_at, signing_replacement_attempted_at, encryption_identity_replaced_at,
  runtime_artifacts_cleared_at, config_saved_at, enrolled_at, service_metadata_synchronized_at,
}

-- TRANSITION_FIELDS and IMMUTABLE_FIELDS
abbrev pub transition_fields : List JournalField
transition_fields =
    service ∷ revoke ∷ old_host_id ∷ old_key_id ∷ new_host_id ∷ new_key_id ∷ old_encryption_key_id
    ∷ signing_cleanup ∷ signing_replacement_attempted_at ∷ encryption_identity_replaced_at
    ∷ runtime_artifacts_cleared_at ∷ config_saved_at ∷ enrolled_at
    ∷ service_metadata_synchronized_at ∷ []

abbrev pub immutable_fields : List JournalField
immutable_fields = version ∷ operation_id ∷ profile ∷ resource_digest ∷ created_at ∷ service ∷ []

pub data Violation : Type 0 where
  same_phase_modification : JournalField → Violation
  phase_rollback non_adjacent_transition : Phase → Phase → Violation
  unreadable_skip_without_evidence revoke_precondition_mismatch : Phase → Phase → Violation
  immutable_field_changed : JournalField → Violation
  field_change_not_allowed : JournalField → Phase → Phase → Violation
  one_way_fill_violation : JournalField → Violation
  timestamp_rollback : Violation

-- HostDomainResetTransition: a phase with the fields that may be written on its edge.
pub data Transition : Type 0 where
  to_quarantined : Transition
  to_prepared :
      (old_host old_key old_encryption_key : Option String)
      → Option SigningCleanup
      → Revoke
      → Transition
  to_revoke_pending : Transition
  to_old_identity_revoked : RevokeOutcome → Transition
  to_signing_replacement_pending : Timestamp → Transition
  to_signing_identity_replaced : (new_host new_key : String) → Transition
  to_encryption_identity_replaced : Timestamp → Transition
  to_runtime_artifacts_cleared : Timestamp → Transition
  to_config_saved : Timestamp → Transition
  to_enrolled : Timestamp → Transition
  to_service_metadata_synchronized : Timestamp → Transition
  to_service_restore_pending : Transition

pub record TransitionEdge : Type 0 where
  pub from : Phase
  pub to : Phase
  pub writable : List JournalField
  pub fill_only : List JournalField
  pub precondition : Option (Journal → Bool)
  pub precondition_violation : Violation

-- An edge with no precondition: only its adjacency is at stake.
abbrev pub adjacent : Phase → Phase → List JournalField → List JournalField → TransitionEdge
adjacent p q writable fill_only = record {
  from = p;
  to = q;
  writable = writable;
  fill_only = fill_only;
  precondition = none;
  precondition_violation = non_adjacent_transition p q;
}

-- The four preconditions on the revoke decision that edges have.
abbrev pub is_readable : Journal → Bool
is_readable c = c.revoke.state == not_attempted && c.revoke.outcome == none

abbrev pub is_unreadable : Journal → Bool
is_unreadable c = c.revoke.state == skipped && c.revoke.outcome == some old_identity_unreadable

abbrev pub is_pending : Journal → Bool
is_pending c = c.revoke.state == pending

abbrev pub fill_one : Phase → Phase → JournalField → TransitionEdge
fill_one p q field = adjacent p q (field ∷ []) (field ∷ [])

-- TRANSITION_EDGES
abbrev pub transition_edges : List TransitionEdge
transition_edges =
    adjacent Phase.quarantine_pending Phase.quarantined [] []
    ∷ adjacent Phase.quarantined Phase.prepared
        (old_host_id ∷ old_key_id ∷ old_encryption_key_id ∷ signing_cleanup ∷ revoke ∷ [])
        (old_host_id ∷ old_key_id ∷ old_encryption_key_id ∷ signing_cleanup ∷ [])
    ∷ record {
      from = Phase.prepared;
      to = Phase.revoke_pending;
      writable = revoke ∷ [];
      fill_only = [];
      precondition = some is_readable;
      precondition_violation = revoke_precondition_mismatch Phase.prepared Phase.revoke_pending;
    }
    ∷ record {
      from = Phase.prepared;
      to = Phase.signing_replacement_pending;
      writable = signing_replacement_attempted_at ∷ [];
      fill_only = signing_replacement_attempted_at ∷ [];
      precondition = some is_unreadable;
      precondition_violation =
          unreadable_skip_without_evidence Phase.prepared Phase.signing_replacement_pending;
    }
    ∷ record {
      from = Phase.revoke_pending;
      to = Phase.old_identity_revoked;
      writable = revoke ∷ [];
      fill_only = [];
      precondition = some is_pending;
      precondition_violation =
          revoke_precondition_mismatch Phase.revoke_pending Phase.old_identity_revoked;
    }
    ∷ fill_one Phase.old_identity_revoked Phase.signing_replacement_pending
        signing_replacement_attempted_at
    ∷ adjacent Phase.signing_replacement_pending Phase.signing_identity_replaced
        (new_host_id ∷ new_key_id ∷ []) (new_host_id ∷ new_key_id ∷ [])
    ∷ fill_one Phase.signing_identity_replaced Phase.encryption_identity_replaced
        encryption_identity_replaced_at
    ∷ fill_one Phase.encryption_identity_replaced Phase.runtime_artifacts_cleared
        runtime_artifacts_cleared_at
    ∷ fill_one Phase.runtime_artifacts_cleared Phase.config_saved config_saved_at
    ∷ fill_one Phase.config_saved Phase.enrolled enrolled_at
    ∷ fill_one Phase.enrolled Phase.service_metadata_synchronized service_metadata_synchronized_at
    ∷ adjacent Phase.service_metadata_synchronized Phase.service_restore_pending [] []
    ∷ []
