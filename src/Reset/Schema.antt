-- ===== src/Reset/Schema.antt =====
-- The checks of `parseHostDomainResetJournal`, apps/bridge/src/cli/operations/host-domain-reset-
-- journal-schema.ts, on a value that has the journal's keys. The SHA-256 digests of the profile's
-- paths come in as values.
pub mod Invariants
use Prim.Native.String.{◌++◌ as append}
use ariava.Prelude.{
  ℕ, suc, ◌≡◌, String, Bool, true, false, not, ◌&&◌, ◌||◌, Option, none, some, List, [], ◌∷◌, ◌++◌,
  ◌==◌, ◌!=◌, ltb, leb, length, all, any, drop, if◌then◌else◌, Result, ok, throw, ◌>>=◌, ◌>>◌,
  require, option_eq, string_eq, nat_eq, bool_eq,
}
use ariava.Prelude.Codes.{
  codes, is_alnum, is_base64url, is_hex, strip, is_key_body, is_prefixed_key,
}
use ariava.Reset.Journal.{
  Timestamp, Phase, phase_index, phase_eq, RevokeState, not_attempted, pending, complete, skipped,
  revoke_state_eq, RevokeOutcome, revoked, identity_already_revoked, old_identity_unreadable,
  outcome_eq, Revoke, Backend, no_backend, backend_eq, Service, ProfileId, dev, profile_eq,
  CleanupKind, linux_json, kind_eq, SigningCleanup, Journal,
}

-- What the codec knows of the profile's resources: the profile, and two digests of its paths.
pub record Resources : Type 0 where
  pub identity_profile : ProfileId
  pub host_domain_digest : String
  pub identity_digest : String

pub data JournalError : Type 0 where
  invalid_journal changed_before_advancement transition_refused no_action : JournalError

-- /^[A-Za-z0-9][A-Za-z0-9_-]{7,127}$/u
abbrev is_operation_code : List ℕ → Bool
is_operation_code [] = false
is_operation_code (c ∷ cs) =
    is_alnum c && leb 7 (length cs) && leb (length cs) 127 && all is_base64url cs

is_operation_id : String → Bool
is_operation_id s = is_operation_code (codes s)

-- A prefix and 43 characters of [A-Za-z0-9_-], or null.
is_nullable_id : String → Option String → Bool
is_nullable_id prefix none = true
is_nullable_id prefix (some s) = is_prefixed_key prefix s

-- /^[a-f0-9]{64}$/u
is_digest : String → Bool
is_digest s = length (codes s) == 64 && all is_hex (codes s)

-- `${previous}.pending`, where `previous` may be null.
abbrev pending_account : Option String → String
pending_account none = "null.pending"
pending_account (some p) = append p ".pending"

-- The checks of `isSigningCleanup` on the accounts of a Keychain record.
are_accounts : Option String → Option String → Option String → Bool
unfolding is_nullable_id
are_accounts previous awaiting interrupted =
    is_nullable_id "host_" previous
    && (awaiting == none || awaiting == some (pending_account previous))
    && is_nullable_id "host_" interrupted
    && (interrupted == none || previous == none || interrupted == previous)

is_signing_cleanup : Option SigningCleanup → Resources → Bool
unfolding are_accounts
is_signing_cleanup none r = true
is_signing_cleanup (some c) r =
    c.resource_digest == r.identity_digest
    && c.profile == r.identity_profile
    && (if c.kind == linux_json
        then c.previous_account == none
          && c.previous_pending_account == none
          && c.interrupted_creation_account == none
        else are_accounts c.previous_account c.previous_pending_account
            c.interrupted_creation_account)

pub is_revoke : Revoke → Bool
is_revoke r =
    if r.state == not_attempted || r.state == pending
    then r.outcome == none
    else if r.state == complete
    then r.outcome == some revoked || r.outcome == some identity_already_revoked
    else r.state == skipped && r.outcome == some old_identity_unreadable

is_service : Service → Bool
is_service v =
    if not v.managed
    then v.backend == no_backend && not v.installed && not v.enabled && not v.was_running
    else if v.backend == no_backend
    then false
    else if not v.installed && (v.enabled || v.was_running)
    then false
    else true

is_unmanaged_service : Service → Bool
is_unmanaged_service v =
    not v.managed
    && not v.installed
    && not v.enabled
    && not v.was_running
    && v.backend == no_backend

abbrev pub is_null {ℓ} : {A : Type ℓ} → Option A → Bool
is_null none = true
is_null (some a) = false

is_nullable_timestamp : Option Timestamp → Timestamp → Timestamp → Bool
is_nullable_timestamp none created updated = true
is_nullable_timestamp (some t) created updated = leb created t && leb t updated

abbrev at_least : Phase → Phase → Bool
at_least p q = leb (phase_index q) (phase_index p)

-- `exactEvidence`: the evidence is there exactly from its phase on.
abbrev exact_evidence : Phase → Phase → Bool → Bool
exact_evidence p q present = at_least p q == present

abbrev pre_inspection : Phase → Bool
pre_inspection p = p == Phase.quarantine_pending || p == Phase.quarantined

abbrev revoke_skipped : Revoke → Bool
revoke_skipped r = r.state == skipped && r.outcome == some old_identity_unreadable

expected_revoke_state : Phase → Bool → Revoke → RevokeState
expected_revoke_state p old_known r =
    if pre_inspection p
    then not_attempted
    else if revoke_skipped r
    then skipped
    else if not old_known
    then skipped
    else if p == Phase.prepared
    then not_attempted
    else if p == Phase.revoke_pending
    then pending
    else complete

-- The part of `hasValidPhaseInvariants` about the old identity and the revoke decision.
pub has_valid_revoke : Journal → Bool
unfolding expected_revoke_state
has_valid_revoke j =
    let old_known = not (is_null j.old_host_id) in
    not (old_known && j.new_host_id == j.old_host_id)
    && not (
        (j.phase == Phase.revoke_pending || j.phase == Phase.old_identity_revoked) && not old_known)
    && j.revoke.state == expected_revoke_state j.phase old_known j.revoke
    && (if pre_inspection j.phase
        then not (
            old_known
            || not (is_null j.old_encryption_key_id)
            || j.revoke.outcome != none
            || not (is_null j.signing_cleanup))
        else not (not old_known && not (revoke_skipped j.revoke)))
    && not (revoke_skipped j.revoke && is_null j.signing_cleanup)

-- The part about the evidence of the effects.
pub has_exact_evidence : Journal → Bool
has_exact_evidence j =
    exact_evidence j.phase Phase.signing_replacement_pending
      (not (is_null j.signing_replacement_attempted_at))
    && exact_evidence j.phase Phase.signing_identity_replaced
        (not (is_null j.new_host_id) && not (is_null j.new_key_id))
    && exact_evidence j.phase Phase.encryption_identity_replaced
        (not (is_null j.encryption_identity_replaced_at))
    && exact_evidence j.phase Phase.runtime_artifacts_cleared
        (not (is_null j.runtime_artifacts_cleared_at))
    && exact_evidence j.phase Phase.config_saved (not (is_null j.config_saved_at))
    && exact_evidence j.phase Phase.enrolled (not (is_null j.enrolled_at))
    && exact_evidence j.phase Phase.service_metadata_synchronized
        (not (is_null j.service_metadata_synchronized_at))

pub has_valid_phase_invariants : Journal → Bool
unfolding has_valid_revoke has_exact_evidence
has_valid_phase_invariants j = has_valid_revoke j && has_exact_evidence j

-- The six effect times lie between creation and the last update.
pub are_effect_times : Journal → Bool
unfolding is_nullable_timestamp
are_effect_times j =
    is_nullable_timestamp j.signing_replacement_attempted_at j.created_at j.updated_at
    && is_nullable_timestamp j.encryption_identity_replaced_at j.created_at j.updated_at
    && is_nullable_timestamp j.runtime_artifacts_cleared_at j.created_at j.updated_at
    && is_nullable_timestamp j.config_saved_at j.created_at j.updated_at
    && is_nullable_timestamp j.enrolled_at j.created_at j.updated_at
    && is_nullable_timestamp j.service_metadata_synchronized_at j.created_at j.updated_at

-- The checks of the fields one by one.
pub are_fields : Journal → Resources → Bool
unfolding is_operation_id is_nullable_id is_signing_cleanup is_digest is_service
    is_unmanaged_service
are_fields j r =
    j.version == 1
    && is_operation_id j.operation_id
    && j.profile == r.identity_profile
    && is_nullable_id "host_" j.old_host_id
    && is_nullable_id "key_" j.old_key_id
    && is_nullable_id "host_" j.new_host_id
    && is_nullable_id "key_" j.new_key_id
    && is_nullable_id "ekey_" j.old_encryption_key_id
    && is_signing_cleanup j.signing_cleanup r
    && is_digest j.resource_digest
    && j.resource_digest == r.host_domain_digest
    && leb j.created_at j.updated_at
    && is_service j.service
    && not (r.identity_profile == dev && not (is_unmanaged_service j.service))
    && is_null j.old_host_id == is_null j.old_key_id
    && is_null j.new_host_id == is_null j.new_key_id

unfoldable pub parse_journal : Journal → Resources → Result JournalError Journal
unfolding are_fields is_revoke are_effect_times has_valid_phase_invariants
parse_journal j r = do
  require (are_fields j r) invalid_journal
  require (is_revoke j.revoke) invalid_journal
  require (are_effect_times j) invalid_journal
  require (has_valid_phase_invariants j) invalid_journal
  ok j
