-- ===== src/Reset/Schema/Invariants.antt =====
-- What the codec's checks mean for the machine and for the transitions.
use ariava.Prelude.{
  ◌≡◌, Bool, true, false, not, ◌&&◌, ◌||◌, Option, none, some, ◌==◌, ok, ◌>>◌, require, >>-eq-ok,
  require-eq-ok, arith, refl, ap, ◌∙◌, throw, ◌⊎◌, inl, inr, Bool-cases, not-eq-true,
}
use mathlib.Core.Bool.{and-eq-true_iff}
use ariava.Reset.Journal.{
  Phase, RevokeState, not_attempted, skipped, RevokeOutcome, old_identity_unreadable, Journal,
  phase_eq, revoke_state_eq,
}
use ariava.Reset.Machine.{
  Action, next_host_reset_action, invalid_machine_journal, is_legal_revoke_combination, is_legal_at,
}
use ariava.Reset.Machine.Selection.{legal_selects, illegal_throws}
use ariava.Reset.Schema.{
  invalid_journal, Resources, parse_journal, is_null, is_revoke, has_valid_revoke,
  has_valid_phase_invariants, has_exact_evidence, are_fields, are_effect_times,
  expected_revoke_state,
}

-- A skipped revoke in a phase that only a readable old identity leads to.
abbrev pub is_skipped_midway : Phase → RevokeState → Bool
is_skipped_midway p s =
    (p == Phase.revoke_pending || p == Phase.old_identity_revoked) && s == skipped

-- What `has_valid_revoke` says of the phase and the decision; `k` tells whether the old identity is
-- known.
legal_unless :
    (p : Phase) (s : RevokeState) (o : Option RevokeOutcome) (k : Bool)
    → is_revoke (record { state = s; outcome = o }) ≡ true
    → (s == expected_revoke_state p k (record { state = s; outcome = o })) ≡ true
    → ((p == Phase.revoke_pending || p == Phase.old_identity_revoked) && not k) ≡ false
    → is_legal_at p s o ≡ not (is_skipped_midway p s)
unfolding is_revoke expected_revoke_state is_legal_at
legal_unless Phase.quarantine_pending not_attempted none true r e m = refl
legal_unless _ _ _ _ r e m = ground arith

valid_is_legal :
    (j : Journal)
    → is_revoke j.revoke ≡ true
    → has_valid_revoke j ≡ true
    → is_legal_at j.phase j.revoke.state j.revoke.outcome
      ≡ not (is_skipped_midway j.phase j.revoke.state)
unfolding has_valid_revoke
valid_is_legal j r v =
    let (v₁, _) = (and-eq-true_iff _ _).0 v in
    let (v₂, _) = (and-eq-true_iff _ _).0 v₁ in
    let (v₃, expected) = (and-eq-true_iff _ _).0 v₂ in
    let (_, known) = (and-eq-true_iff _ _).0 v₃ in
    legal_unless j.phase j.revoke.state j.revoke.outcome (not (is_null j.old_host_id)) r expected
      (not-eq-true _ known)

is_revoke_combination :
    (j : Journal)
    → is_revoke j.revoke ≡ true
    → is_legal_revoke_combination j.revoke.state j.revoke.outcome ≡ true
unfolding is_revoke is_legal_revoke_combination
is_revoke_combination j r = r

-- The checks that a journal which the codec accepts has passed.
pub record IsParsed (j : Journal) (r : Resources) : Type 0 where
  pub fields : are_fields j r ≡ true
  pub revoke : is_revoke j.revoke ≡ true
  pub times : are_effect_times j ≡ true
  pub decided : has_valid_revoke j ≡ true
  pub evidence : has_exact_evidence j ≡ true

parse-IsParsed :
    (j : Journal) (r : Resources) {k : Journal} → parse_journal j r ≡ ok k → IsParsed j r
unfolding parse_journal
parse-IsParsed j r h =
    let (fields, h₁) = >>-eq-ok _ _ h in
    let (revoke, h₂) = >>-eq-ok _ _ h₁ in
    let (times, h₃) = >>-eq-ok _ _ h₂ in
    let (invariants, _) = >>-eq-ok _ _ h₃ in
    record {
      fields = require-eq-ok _ _ fields;
      revoke = require-eq-ok _ _ revoke;
      times = require-eq-ok _ _ times;
      decided = ((and-eq-true_iff _ _).0 (require-eq-ok _ _ invariants)).0;
      evidence = ((and-eq-true_iff _ _).0 (require-eq-ok _ _ invariants)).1;
    }

-- The machine on a journal that the codec accepts: it has an action, or the journal has a skipped
-- revoke in `revoke-pending` or `old-identity-revoked` and the machine throws.
pub parse-selects :
    (j : Journal) (r : Resources) {k : Journal}
    → parse_journal j r ≡ ok k
    → ((is_skipped_midway j.phase j.revoke.state ≡ false)
        × ((a : Action) × (next_host_reset_action j ≡ ok a)))
      ⊎ ((is_skipped_midway j.phase j.revoke.state ≡ true)
          × (next_host_reset_action j ≡ throw invalid_machine_journal))
parse-selects j r h =
    let parsed = parse-IsParsed j r h in
    let combination = is_revoke_combination j parsed.revoke in
    let legal = valid_is_legal j parsed.revoke parsed.decided in
    elim (Bool-cases (is_skipped_midway j.phase j.revoke.state)) [
      | inl stuck ↦ inr (stuck, illegal_throws j combination (legal ∙ ap not stuck))
      | inr fine ↦ inl (fine, legal_selects j combination (legal ∙ ap not fine))
    ]

checks-eq :
    (a b c d : Bool) (j : Journal) {k : Journal}
    → (require a invalid_journal
        >> (require b invalid_journal
            >> (require c invalid_journal >> (require d invalid_journal >> ok j))))
      ≡ ok k
    → k ≡ j
checks-eq a b c d j h = ground arith

-- The codec changes nothing.
pub parse-eq : (j : Journal) (r : Resources) {k : Journal} → parse_journal j r ≡ ok k → k ≡ j
unfolding parse_journal
parse-eq j r h =
    checks-eq (are_fields j r) (is_revoke j.revoke) (are_effect_times j)
      (has_valid_phase_invariants j) j h

-- The same journal with a skipped revoke.
abbrev pub skipping : Journal → Journal
skipping j = record j {
  revoke = record { state = skipped; outcome = some old_identity_unreadable };
}

skip_valid :
    (j : Journal)
    → (j.phase == Phase.revoke_pending || j.phase == Phase.old_identity_revoked) ≡ true
    → is_null j.signing_cleanup ≡ false
    → has_valid_revoke j ≡ true
    → has_valid_revoke (skipping j) ≡ true
unfolding has_valid_revoke expected_revoke_state
skip_valid j midway cleanup valid = ground arith

-- The other checks do not read the decision.
skip-fields : (j : Journal) (r : Resources) → are_fields (skipping j) r ≡ are_fields j r
unfolding are_fields
skip-fields j r = refl

skip-times : (j : Journal) → are_effect_times (skipping j) ≡ are_effect_times j
unfolding are_effect_times
skip-times j = refl

skip-evidence : (j : Journal) → has_exact_evidence (skipping j) ≡ has_exact_evidence j
unfolding has_exact_evidence
skip-evidence j = refl

skip_accepted :
    (j : Journal) (r : Resources)
    → IsParsed j r
    → has_valid_revoke (skipping j) ≡ true
    → parse_journal (skipping j) r ≡ ok (skipping j)
unfolding parse_journal is_revoke
skip_accepted j r parsed valid =
    rw
      (
        skip-fields j r,
        parsed.fields,
        skip-times j,
        parsed.times,
        valid,
        skip-evidence j,
        parsed.evidence,
      )
      refl

skip_stuck :
    (j : Journal)
    → (j.phase == Phase.revoke_pending || j.phase == Phase.old_identity_revoked) ≡ true
    → is_skipped_midway (skipping j).phase (skipping j).revoke.state ≡ true
skip_stuck j midway = ground arith

-- The codec accepts a journal in `revoke-pending` or `old-identity-revoked` that has a cleanup record
-- also when its revoke decision is replaced by the skip of an unreadable old identity; the machine
-- throws on that journal, so a reset that stands there has no next action.
pub skipped_passes :
    (j : Journal) (r : Resources) {k : Journal}
    → parse_journal j r ≡ ok k
    → (j.phase == Phase.revoke_pending || j.phase == Phase.old_identity_revoked) ≡ true
    → is_null j.signing_cleanup ≡ false
    → (parse_journal (skipping j) r ≡ ok (skipping j))
      × (next_host_reset_action (skipping j) ≡ throw invalid_machine_journal)
skipped_passes j r accepted midway cleanup =
    let parsed = parse-IsParsed j r accepted in
    let passes = skip_accepted j r parsed (skip_valid j midway cleanup parsed.decided) in
    (
      passes,
      elim (parse-selects (skipping j) r passes) [
        | inl (fine, selected) ↦ cc (skip_stuck j midway)
        | inr (stuck, throws) ↦ throws
      ],
    )
