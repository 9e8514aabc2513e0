-- ===== src/Reset/Policy/Fields.antt =====
-- The fields of the journal by name, `current[field]`, and their comparison by `sameValue`.
use ariava.Prelude.{
  ℕ, zero, suc, ◌≡◌, refl, ◌↔◌, Bool, true, false, ◌&&◌, none, List, [], ◌∷◌, Eq, ◌==◌, eq_by_index,
  nat_eq, string_eq, bool_eq, option_eq, option_beq_iff, all, arith,
}
use ariava.Reset.Journal.{
  Journal, phase_eq, profile_eq, SigningCleanup, kind_eq, Revoke, revoke_state_eq, outcome_eq,
  Service, backend_eq,
}

pub data JournalField : Type 0 where
  version operation_id profile phase : JournalField
  old_host_id old_key_id new_host_id new_key_id : JournalField
  old_encryption_key_id signing_cleanup signing_replacement_attempted_at
        encryption_identity_replaced_at :
      JournalField
  runtime_artifacts_cleared_at config_saved_at enrolled_at service_metadata_synchronized_at :
      JournalField
  resource_digest created_at updated_at revoke : JournalField
  service : JournalField

abbrev pub journal_keys : List JournalField
journal_keys =
    version ∷ operation_id ∷ profile ∷ phase ∷ old_host_id ∷ old_key_id ∷ new_host_id ∷ new_key_id
    ∷ old_encryption_key_id ∷ signing_cleanup ∷ signing_replacement_attempted_at
    ∷ encryption_identity_replaced_at ∷ runtime_artifacts_cleared_at ∷ config_saved_at ∷ enrolled_at
    ∷ service_metadata_synchronized_at ∷ resource_digest ∷ created_at ∷ updated_at ∷ revoke
    ∷ service ∷ []

abbrev pub field_index : JournalField → ℕ
field_index version = 0
field_index operation_id = 1
field_index profile = 2
field_index phase = 3
field_index old_host_id = 4
field_index old_key_id = 5
field_index new_host_id = 6
field_index new_key_id = 7
field_index old_encryption_key_id = 8
field_index signing_cleanup = 9
field_index signing_replacement_attempted_at = 10
field_index encryption_identity_replaced_at = 11
field_index runtime_artifacts_cleared_at = 12
field_index config_saved_at = 13
field_index enrolled_at = 14
field_index service_metadata_synchronized_at = 15
field_index resource_digest = 16
field_index created_at = 17
field_index updated_at = 18
field_index revoke = 19
field_index service = 20

abbrev pub field_at : List JournalField → ℕ → JournalField
field_at [] n = service
field_at (f ∷ fs) zero = f
field_at (f ∷ fs) (suc n) = field_at fs n

pub field_at-index : (f : JournalField) → field_at journal_keys (field_index f) ≡ f
field_at-index version = refl
field_at-index _ = refl

instance abbrev pub field_eq : Eq JournalField
field_eq = eq_by_index field_index (field_at journal_keys) field_at-index

-- `JSON.stringify(left) === JSON.stringify(right)` on the three record types, whose keys stand in
-- the order in which the codec wrote them.
abbrev pub same_revoke : Revoke → Revoke → Bool
same_revoke a b = a.state == b.state && a.outcome == b.outcome

abbrev pub same_service : Service → Service → Bool
same_service a b =
    a.managed == b.managed
    && a.installed == b.installed
    && a.enabled == b.enabled
    && a.was_running == b.was_running
    && a.backend == b.backend

abbrev pub same_cleanup : SigningCleanup → SigningCleanup → Bool
same_cleanup a b =
    a.kind == b.kind
    && a.resource_digest == b.resource_digest
    && a.profile == b.profile
    && a.previous_account == b.previous_account
    && a.previous_pending_account == b.previous_pending_account
    && a.interrupted_creation_account == b.interrupted_creation_account

pub same_revoke_iff : (a b : Revoke) → (same_revoke a b ≡ true) ↔ (a ≡ b)
same_revoke_iff a b =
    ground (arith, revoke_state_eq.same_as_iff a.state b.state, option_beq_iff a.outcome b.outcome)

pub same_service_iff : (a b : Service) → (same_service a b ≡ true) ↔ (a ≡ b)
same_service_iff a b = ground (
  arith,
  bool_eq.same_as_iff a.managed b.managed,
  bool_eq.same_as_iff a.installed b.installed,
  bool_eq.same_as_iff a.enabled b.enabled,
  bool_eq.same_as_iff a.was_running b.was_running,
  backend_eq.same_as_iff a.backend b.backend,
)

pub same_cleanup_iff : (a b : SigningCleanup) → (same_cleanup a b ≡ true) ↔ (a ≡ b)
same_cleanup_iff a b = ground (
  arith,
  kind_eq.same_as_iff a.kind b.kind,
  string_eq.same_as_iff a.resource_digest b.resource_digest,
  profile_eq.same_as_iff a.profile b.profile,
  option_beq_iff a.previous_account b.previous_account,
  option_beq_iff a.previous_pending_account b.previous_pending_account,
  option_beq_iff a.interrupted_creation_account b.interrupted_creation_account,
)

instance abbrev pub revoke_eq : Eq Revoke
revoke_eq = record { same_as = same_revoke; same_as_iff = same_revoke_iff }

instance abbrev pub service_eq : Eq Service
service_eq = record { same_as = same_service; same_as_iff = same_service_iff }

instance abbrev pub cleanup_eq : Eq SigningCleanup
cleanup_eq = record { same_as = same_cleanup; same_as_iff = same_cleanup_iff }

-- `sameValue(current[field], candidate[field])`
unfoldable pub same_field : JournalField → Journal → Journal → Bool
same_field version c d = c.version == d.version
same_field operation_id c d = c.operation_id == d.operation_id
same_field profile c d = c.profile == d.profile
same_field phase c d = c.phase == d.phase
same_field old_host_id c d = c.old_host_id == d.old_host_id
same_field old_key_id c d = c.old_key_id == d.old_key_id
same_field new_host_id c d = c.new_host_id == d.new_host_id
same_field new_key_id c d = c.new_key_id == d.new_key_id
same_field old_encryption_key_id c d = c.old_encryption_key_id == d.old_encryption_key_id
same_field signing_cleanup c d = c.signing_cleanup == d.signing_cleanup
same_field signing_replacement_attempted_at c d =
    c.signing_replacement_attempted_at == d.signing_replacement_attempted_at
same_field encryption_identity_replaced_at c d =
    c.encryption_identity_replaced_at == d.encryption_identity_replaced_at
same_field runtime_artifacts_cleared_at c d =
    c.runtime_artifacts_cleared_at == d.runtime_artifacts_cleared_at
same_field config_saved_at c d = c.config_saved_at == d.config_saved_at
same_field enrolled_at c d = c.enrolled_at == d.enrolled_at
same_field service_metadata_synchronized_at c d =
    c.service_metadata_synchronized_at == d.service_metadata_synchronized_at
same_field resource_digest c d = c.resource_digest == d.resource_digest
same_field created_at c d = c.created_at == d.created_at
same_field updated_at c d = c.updated_at == d.updated_at
same_field revoke c d = c.revoke == d.revoke
same_field service c d = c.service == d.service

-- `current[field] === null`
unfoldable pub is_null_field : JournalField → Journal → Bool
is_null_field old_host_id c = c.old_host_id == none
is_null_field old_key_id c = c.old_key_id == none
is_null_field new_host_id c = c.new_host_id == none
is_null_field new_key_id c = c.new_key_id == none
is_null_field old_encryption_key_id c = c.old_encryption_key_id == none
is_null_field signing_cleanup c = c.signing_cleanup == none
is_null_field signing_replacement_attempted_at c = c.signing_replacement_attempted_at == none
is_null_field encryption_identity_replaced_at c = c.encryption_identity_replaced_at == none
is_null_field runtime_artifacts_cleared_at c = c.runtime_artifacts_cleared_at == none
is_null_field config_saved_at c = c.config_saved_at == none
is_null_field enrolled_at c = c.enrolled_at == none
is_null_field service_metadata_synchronized_at c = c.service_metadata_synchronized_at == none
is_null_field _ c = false

-- `sameValue(current, candidate)`
unfoldable pub same_value : Journal → Journal → Bool
unfolding same_field
same_value c d = all (λ f. same_field f c d) journal_keys

-- The two journals agree in a field.
abbrev pub Agrees : JournalField → Journal → Journal → Type 0
Agrees version c d = c.version ≡ d.version
Agrees operation_id c d = c.operation_id ≡ d.operation_id
Agrees profile c d = c.profile ≡ d.profile
Agrees phase c d = c.phase ≡ d.phase
Agrees old_host_id c d = c.old_host_id ≡ d.old_host_id
Agrees old_key_id c d = c.old_key_id ≡ d.old_key_id
Agrees new_host_id c d = c.new_host_id ≡ d.new_host_id
Agrees new_key_id c d = c.new_key_id ≡ d.new_key_id
Agrees old_encryption_key_id c d = c.old_encryption_key_id ≡ d.old_encryption_key_id
Agrees signing_cleanup c d = c.signing_cleanup ≡ d.signing_cleanup
Agrees signing_replacement_attempted_at c d =
    c.signing_replacement_attempted_at ≡ d.signing_replacement_attempted_at
Agrees encryption_identity_replaced_at c d =
    c.encryption_identity_replaced_at ≡ d.encryption_identity_replaced_at
Agrees runtime_artifacts_cleared_at c d =
    c.runtime_artifacts_cleared_at ≡ d.runtime_artifacts_cleared_at
Agrees config_saved_at c d = c.config_saved_at ≡ d.config_saved_at
Agrees enrolled_at c d = c.enrolled_at ≡ d.enrolled_at
Agrees service_metadata_synchronized_at c d =
    c.service_metadata_synchronized_at ≡ d.service_metadata_synchronized_at
Agrees resource_digest c d = c.resource_digest ≡ d.resource_digest
Agrees created_at c d = c.created_at ≡ d.created_at
Agrees updated_at c d = c.updated_at ≡ d.updated_at
Agrees revoke c d = c.revoke ≡ d.revoke
Agrees service c d = c.service ≡ d.service

pub same_field_iff : (f : JournalField) (c d : Journal) → (same_field f c d ≡ true) ↔ Agrees f c d
unfolding same_field
same_field_iff version c d = nat_eq.same_as_iff c.version d.version
same_field_iff operation_id c d = string_eq.same_as_iff c.operation_id d.operation_id
same_field_iff profile c d = profile_eq.same_as_iff c.profile d.profile
same_field_iff phase c d = phase_eq.same_as_iff c.phase d.phase
same_field_iff old_host_id c d = option_eq.same_as_iff c.old_host_id d.old_host_id
same_field_iff old_key_id c d = option_eq.same_as_iff c.old_key_id d.old_key_id
same_field_iff new_host_id c d = option_eq.same_as_iff c.new_host_id d.new_host_id
same_field_iff new_key_id c d = option_eq.same_as_iff c.new_key_id d.new_key_id
same_field_iff old_encryption_key_id c d =
    option_eq.same_as_iff c.old_encryption_key_id d.old_encryption_key_id
same_field_iff signing_cleanup c d = option_eq.same_as_iff c.signing_cleanup d.signing_cleanup
same_field_iff signing_replacement_attempted_at c d =
    option_eq.same_as_iff c.signing_replacement_attempted_at d.signing_replacement_attempted_at
same_field_iff encryption_identity_replaced_at c d =
    option_eq.same_as_iff c.encryption_identity_replaced_at d.encryption_identity_replaced_at
same_field_iff runtime_artifacts_cleared_at c d =
    option_eq.same_as_iff c.runtime_artifacts_cleared_at d.runtime_artifacts_cleared_at
same_field_iff config_saved_at c d = option_eq.same_as_iff c.config_saved_at d.config_saved_at
same_field_iff enrolled_at c d = option_eq.same_as_iff c.enrolled_at d.enrolled_at
same_field_iff service_metadata_synchronized_at c d =
    option_eq.same_as_iff c.service_metadata_synchronized_at d.service_metadata_synchronized_at
same_field_iff resource_digest c d = string_eq.same_as_iff c.resource_digest d.resource_digest
same_field_iff created_at c d = nat_eq.same_as_iff c.created_at d.created_at
same_field_iff updated_at c d = nat_eq.same_as_iff c.updated_at d.updated_at
same_field_iff revoke c d = revoke_eq.same_as_iff c.revoke d.revoke
same_field_iff service c d = service_eq.same_as_iff c.service d.service
