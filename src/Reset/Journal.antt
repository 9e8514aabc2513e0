-- ===== src/Reset/Journal.antt =====
-- The reset journal, apps/bridge/src/cli/operations/host-domain-reset-journal-schema.ts: its phases
-- and fields. Timestamps are the canonical ISO texts that the codec admits, by their milliseconds.
use ariava.Prelude.{ℕ, suc, zero, String, ◌≡◌, refl, Bool, Option, List, [], ◌∷◌, Eq, eq_by_index}

abbrev pub Timestamp : Type 0
Timestamp = ℕ

pub data Phase : Type 0 where
  quarantine_pending quarantined prepared revoke_pending old_identity_revoked : Phase
  signing_replacement_pending signing_identity_replaced encryption_identity_replaced : Phase
  runtime_artifacts_cleared config_saved enrolled service_metadata_synchronized : Phase
  service_restore_pending : Phase

abbrev pub phase_order : List Phase
phase_order =
    quarantine_pending ∷ quarantined ∷ prepared ∷ revoke_pending ∷ old_identity_revoked
    ∷ signing_replacement_pending ∷ signing_identity_replaced ∷ encryption_identity_replaced
    ∷ runtime_artifacts_cleared ∷ config_saved ∷ enrolled ∷ service_metadata_synchronized
    ∷ service_restore_pending ∷ []

-- The place of a phase in `phase_order`.
abbrev pub phase_index : Phase → ℕ
phase_index quarantine_pending = 0
phase_index quarantined = 1
phase_index prepared = 2
phase_index revoke_pending = 3
phase_index old_identity_revoked = 4
phase_index signing_replacement_pending = 5
phase_index signing_identity_replaced = 6
phase_index encryption_identity_replaced = 7
phase_index runtime_artifacts_cleared = 8
phase_index config_saved = 9
phase_index enrolled = 10
phase_index service_metadata_synchronized = 11
phase_index service_restore_pending = 12

abbrev pub at_index : List Phase → ℕ → Phase
at_index [] n = service_restore_pending
at_index (p ∷ ps) zero = p
at_index (p ∷ ps) (suc n) = at_index ps n

pub at_index-phase_index : (p : Phase) → at_index phase_order (phase_index p) ≡ p
at_index-phase_index quarantine_pending = refl
at_index-phase_index _ = refl

instance abbrev pub phase_eq : Eq Phase
phase_eq = eq_by_index phase_index (at_index phase_order) at_index-phase_index

pub data RevokeState : Type 0 where
  not_attempted pending complete skipped : RevokeState

abbrev pub revoke_state_index : RevokeState → ℕ
revoke_state_index not_attempted = 0
revoke_state_index pending = 1
revoke_state_index complete = 2
revoke_state_index skipped = 3

abbrev pub revoke_state_at : ℕ → RevokeState
revoke_state_at zero = not_attempted
revoke_state_at (suc zero) = pending
revoke_state_at (suc (suc zero)) = complete
revoke_state_at n = skipped

pub revoke_state_at-index : (s : RevokeState) → revoke_state_at (revoke_state_index s) ≡ s
revoke_state_at-index not_attempted = refl
revoke_state_at-index _ = refl

instance abbrev pub revoke_state_eq : Eq RevokeState
revoke_state_eq = eq_by_index revoke_state_index revoke_state_at revoke_state_at-index

-- `null` is `none`.
pub data RevokeOutcome : Type 0 where
  revoked identity_already_revoked old_identity_unreadable : RevokeOutcome

abbrev pub outcome_index : RevokeOutcome → ℕ
outcome_index revoked = 0
outcome_index identity_already_revoked = 1
outcome_index old_identity_unreadable = 2

abbrev pub outcome_at : ℕ → RevokeOutcome
outcome_at zero = revoked
outcome_at (suc zero) = identity_already_revoked
outcome_at n = old_identity_unreadable

pub outcome_at-index : (o : RevokeOutcome) → outcome_at (outcome_index o) ≡ o
outcome_at-index revoked = refl
outcome_at-index _ = refl

instance abbrev pub outcome_eq : Eq RevokeOutcome
outcome_eq = eq_by_index outcome_index outcome_at outcome_at-index

pub record Revoke : Type 0 where
  pub state : RevokeState
  pub outcome : Option RevokeOutcome

pub data Backend : Type 0 where
  launchd systemd_user no_backend : Backend

abbrev pub backend_index : Backend → ℕ
backend_index launchd = 0
backend_index systemd_user = 1
backend_index no_backend = 2

abbrev pub backend_at : ℕ → Backend
backend_at zero = launchd
backend_at (suc zero) = systemd_user
backend_at n = no_backend

pub backend_at-index : (b : Backend) → backend_at (backend_index b) ≡ b
backend_at-index launchd = refl
backend_at-index _ = refl

instance abbrev pub backend_eq : Eq Backend
backend_eq = eq_by_index backend_index backend_at backend_at-index

pub record Service : Type 0 where
  pub managed : Bool
  pub installed : Bool
  pub enabled : Bool
  pub was_running : Bool
  pub backend : Backend

pub data ProfileId : Type 0 where
  default dev : ProfileId

abbrev pub profile_index : ProfileId → ℕ
profile_index default = 0
profile_index dev = 1

abbrev pub profile_at : ℕ → ProfileId
profile_at zero = default
profile_at n = dev

pub profile_at-index : (p : ProfileId) → profile_at (profile_index p) ≡ p
profile_at-index default = refl
profile_at-index _ = refl

instance abbrev pub profile_eq : Eq ProfileId
profile_eq = eq_by_index profile_index profile_at profile_at-index

pub data CleanupKind : Type 0 where
  linux_json macos_keychain : CleanupKind

abbrev pub kind_index : CleanupKind → ℕ
kind_index linux_json = 0
kind_index macos_keychain = 1

abbrev pub kind_at : ℕ → CleanupKind
kind_at zero = linux_json
kind_at n = macos_keychain

pub kind_at-index : (k : CleanupKind) → kind_at (kind_index k) ≡ k
kind_at-index linux_json = refl
kind_at-index _ = refl

instance abbrev pub kind_eq : Eq CleanupKind
kind_eq = eq_by_index kind_index kind_at kind_at-index

pub record SigningCleanup : Type 0 where
  pub kind : CleanupKind
  pub resource_digest : String
  pub profile : ProfileId
  pub previous_account : Option String
  pub previous_pending_account : Option String
  pub interrupted_creation_account : Option String

pub record Journal : Type 0 where
  pub version : ℕ
  pub operation_id : String
  pub profile : ProfileId
  pub phase : Phase
  pub old_host_id : Option String
  pub old_key_id : Option String
  pub new_host_id : Option String
  pub new_key_id : Option String
  pub old_encryption_key_id : Option String
  pub signing_cleanup : Option SigningCleanup
  pub signing_replacement_attempted_at : Option Timestamp
  pub encryption_identity_replaced_at : Option Timestamp
  pub runtime_artifacts_cleared_at : Option Timestamp
  pub config_saved_at : Option Timestamp
  pub enrolled_at : Option Timestamp
  pub service_metadata_synchronized_at : Option Timestamp
  pub resource_digest : String
  pub created_at : Timestamp
  pub updated_at : Timestamp
  pub revoke : Revoke
  pub service : Service
