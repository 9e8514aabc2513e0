-- ===== src/Reset/Policy/Steps.antt =====
-- What a transition that the policy admits does to the journal.
use ariava.Prelude.{
  refl, ℕ, ◌≤◌, ◌≡◌, ◌⊎◌, inl, inr, Bool, true, false, not, ◌&&◌, some, List, [], ◌∷◌, ◌==◌, ltb,
  find, all, All, ok, arith, Bool-cases, Option-cases, >>-eq-ok, throw_if-eq-ok, ok-injective, sym,
}
use mathlib.Core.Bool.{and-eq-true_iff}
use ariava.Reset.Journal.{Phase, phase_index, phase_eq, Journal}
use ariava.Reset.Policy.{
  joins, find_edge, fails, has, check_immutable, check_field, check_fields, check_edge,
  validate_transition,
}
use ariava.Reset.Policy.Edges.{
  TransitionEdge, transition_edges, transition_fields, immutable_fields,
}
use ariava.Reset.Policy.Fields.{
  JournalField, field_eq, same_field, is_null_field, same_value, Agrees, same_field_iff,
  journal_keys,
}

all-Agrees :
    (fs : List JournalField) (c d : Journal)
    → all (λ f. same_field f c d) fs ≡ true
    → All (λ f. Agrees f c d) fs
all-Agrees [] c d h = tt
all-Agrees (f ∷ fs) c d h =
    let (here, later) = (and-eq-true_iff _ _).0 h in
    ((same_field_iff f c d).0 here, all-Agrees fs c d later)

-- Journals that agree in every field are equal.
Agrees-eq : (c d : Journal) → All (λ f. Agrees f c d) journal_keys → c ≡ d
Agrees-eq c d a = λ i. record {
  version = a.0 i;
  operation_id = a.1.0 i;
  profile = a.1.1.0 i;
  phase = a.1.1.1.0 i;
  old_host_id = a.1.1.1.1.0 i;
  old_key_id = a.1.1.1.1.1.0 i;
  new_host_id = a.1.1.1.1.1.1.0 i;
  new_key_id = a.1.1.1.1.1.1.1.0 i;
  old_encryption_key_id = a.1.1.1.1.1.1.1.1.0 i;
  signing_cleanup = a.1.1.1.1.1.1.1.1.1.0 i;
  signing_replacement_attempted_at = a.1.1.1.1.1.1.1.1.1.1.0 i;
  encryption_identity_replaced_at = a.1.1.1.1.1.1.1.1.1.1.1.0 i;
  runtime_artifacts_cleared_at = a.1.1.1.1.1.1.1.1.1.1.1.1.0 i;
  config_saved_at = a.1.1.1.1.1.1.1.1.1.1.1.1.1.0 i;
  enrolled_at = a.1.1.1.1.1.1.1.1.1.1.1.1.1.1.0 i;
  service_metadata_synchronized_at = a.1.1.1.1.1.1.1.1.1.1.1.1.1.1.1.0 i;
  resource_digest = a.1.1.1.1.1.1.1.1.1.1.1.1.1.1.1.1.0 i;
  created_at = a.1.1.1.1.1.1.1.1.1.1.1.1.1.1.1.1.1.0 i;
  updated_at = a.1.1.1.1.1.1.1.1.1.1.1.1.1.1.1.1.1.1.0 i;
  revoke = a.1.1.1.1.1.1.1.1.1.1.1.1.1.1.1.1.1.1.1.0 i;
  service = a.1.1.1.1.1.1.1.1.1.1.1.1.1.1.1.1.1.1.1.1.0 i;
}

pub same_value-eq : (c d : Journal) → same_value c d ≡ true → c ≡ d
unfolding same_value
same_value-eq c d h = Agrees-eq c d (all-Agrees journal_keys c d h)

Agrees-refl : (f : JournalField) (c : Journal) → Agrees f c c
Agrees-refl JournalField.version c = refl
Agrees-refl _ c = refl

all_same : (fs : List JournalField) (c : Journal) → all (λ f. same_field f c c) fs ≡ true
all_same [] c = refl
all_same (f ∷ fs) c = rw ((same_field_iff f c c).1 (Agrees-refl f c)) (all_same fs c)

pub same_value_refl : (c : Journal) → same_value c c ≡ true
unfolding same_value
same_value_refl c = all_same journal_keys c

check_immutable-Agrees :
    (fs : List JournalField) (c d : Journal)
    → check_immutable fs c d ≡ ok tt
    → All (λ f. Agrees f c d) fs
unfolding check_immutable
check_immutable-Agrees [] c d h = tt
check_immutable-Agrees (f ∷ fs) c d h = elim (Bool-cases (same_field f c d)) [
  | inl e ↦ ((same_field_iff f c d).0 e, check_immutable-Agrees fs c d (ground arith))
  | inr e ↦ absurd (ground arith)
]

-- What a round of the loop over TRANSITION_FIELDS admits.
pub data IsAllowed (e : TransitionEdge) (c d : Journal) (f : JournalField) : Type 0 where
  kept : same_field f c d ≡ true → IsAllowed e c d f
  fixed : has immutable_fields f ≡ true → IsAllowed e c d f
  written :
      has e.writable f ≡ true
      → (has e.fill_only f && not (is_null_field f c)) ≡ false
      → IsAllowed e c d f

check_field-IsAllowed :
    (e : TransitionEdge) (f : JournalField) (c d : Journal)
    → check_field e f c d ≡ ok tt
    → IsAllowed e c d f
unfolding check_field
check_field-IsAllowed e f c d h = elim (Bool-cases (has immutable_fields f)) [
  | inl p ↦ fixed p
  | inr p ↦ elim (Bool-cases (same_field f c d)) [
    | inl q ↦ kept q
    | inr q ↦ written (ground arith) (ground arith)
  ]
]

check_fields-IsAllowed :
    (e : TransitionEdge) (fs : List JournalField) (c d : Journal)
    → check_fields e fs c d ≡ ok tt
    → All (IsAllowed e c d) fs
unfolding check_fields
check_fields-IsAllowed e [] c d h = tt
check_fields-IsAllowed e (f ∷ fs) c d h =
    let (first, rest) = >>-eq-ok (check_field e f c d) (check_fields e fs c d) h in
    (check_field-IsAllowed e f c d first, check_fields-IsAllowed e fs c d rest)

-- Facts about the table, each checked on all thirteen edges.
find-All :
    (P : TransitionEdge → Type 0) (p : TransitionEdge → Bool) (es : List TransitionEdge)
    (e : TransitionEdge)
    → All P es
    → find p es ≡ some e
    → P e × (p e ≡ true)
find-All P p [] e a h = cc
find-All P p (x ∷ es) e a h = elim (Bool-cases (p x)) [
  | inl here ↦ let same : x ≡ e = ground arith in rw (← same) (a.0, here)
  | inr later ↦ find-All P p es e a.1 (ground arith)
]

pub edge_fact :
    (P : TransitionEdge → Type 0) (p q : Phase) (e : TransitionEdge)
    → All P transition_edges
    → find_edge p q ≡ some e
    → P e × (e.from ≡ p) × (e.to ≡ q)
unfolding find_edge
edge_fact P p q e a h =
    let (fact, joined) = find-All P (joins p q) transition_edges e a h in
    let (here, there) = (and-eq-true_iff _ _).0 joined in
    (fact, (phase_eq.same_as_iff e.from p).0 here, (phase_eq.same_as_iff e.to q).0 there)

-- A journal that the policy admits after `current`, in the terms of the edge that it takes.
pub record Advances (c d : Journal) : Type 0 where
  pub edge : TransitionEdge
  pub found : find_edge c.phase d.phase ≡ some edge
  pub met : fails edge.precondition c ≡ false
  pub later : c.updated_at ≤ d.updated_at
  pub frozen : All (λ f. Agrees f c d) immutable_fields
  pub allowed : All (IsAllowed edge c d) transition_fields

not-ltb : (m n : ℕ) → ltb n m ≡ false → m ≤ n
not-ltb m n h = ground arith

check_edge-Advances :
    (e : TransitionEdge) (c d : Journal) {j : Journal}
    → find_edge c.phase d.phase ≡ some e
    → check_edge e c d ≡ ok j
    → (j ≡ d) × Advances c d
unfolding check_edge
check_edge-Advances e c d found h =
    let (met, h₁) = >>-eq-ok _ _ h in
    let (later, h₂) = >>-eq-ok _ _ h₁ in
    let (frozen, h₃) = >>-eq-ok _ _ h₂ in
    let (allowed, done) = >>-eq-ok _ _ h₃ in
    (
      sym (ok-injective done),
      record {
        edge = e;
        found = found;
        met = throw_if-eq-ok _ _ met;
        later = not-ltb c.updated_at d.updated_at (throw_if-eq-ok _ _ later);
        frozen = check_immutable-Agrees immutable_fields c d frozen;
        allowed = check_fields-IsAllowed e transition_fields c d allowed;
      },
    )

validate_after_phase :
    (c d : Journal) {j : Journal}
    → (d.phase == c.phase) ≡ false
    → validate_transition c d ≡ ok j
    → (j ≡ d) × Advances c d
unfolding validate_transition
validate_after_phase c d other h =
    elim (Bool-cases (ltb (phase_index d.phase) (phase_index c.phase))) [
      | inl back ↦ absurd (ground arith)
      | inr on ↦ elim (Option-cases (find_edge c.phase d.phase)) [
        | inl no_edge ↦ absurd (ground arith)
        | inr (e, found) ↦ check_edge-Advances e c d found (ground arith)
      ]
    ]

-- What is admitted is the candidate: the current journal once more, or an advance along an edge.
pub validate_cases :
    (c d : Journal) {j : Journal}
    → validate_transition c d ≡ ok j
    → (j ≡ d) × ((c ≡ d) ⊎ Advances c d)
unfolding validate_transition
validate_cases c d h = elim (Bool-cases (d.phase == c.phase)) [
  | inl same ↦ elim (Bool-cases (same_value c d)) [
    | inl equal ↦ (ground arith, inl (same_value-eq c d equal))
    | inr differs ↦ absurd (ground arith)
  ]
  | inr other ↦ let (is_candidate, a) = validate_after_phase c d other h in (is_candidate, inr a)
]
