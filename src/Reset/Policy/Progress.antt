-- ===== src/Reset/Policy/Progress.antt =====
-- Where an admitted transition leads, and how long a chain of them can be.
use ariava.Prelude.{
  ◌≢◌, ℕ, suc, ◌+◌, ◌≤◌, ◌<◌, ◌≡◌, refl, sym, ◌∙◌, ap, ◌⊎◌, inl, inr, true, false, not, some, All,
  ok, arith, option_beq_iff,
}
use mathlib.Core.Bool.{and-eq-true_iff}
use ariava.Reset.Journal.{
  Phase, phase_index, phase_eq, Journal, prepared, signing_replacement_pending, skipped,
  old_identity_unreadable, revoke_state_eq, outcome_eq,
}
use ariava.Reset.Policy.{fails, validate_transition}
use ariava.Reset.Policy.Edges.{TransitionEdge, transition_edges, is_unreadable}
use ariava.Reset.Policy.Fields.{field_eq}
use ariava.Reset.Policy.Steps.{edge_fact, Advances, validate_cases}

-- An edge goes on by one place, or is the skip from `prepared`.
abbrev pub GoesOn : TransitionEdge → Type 0
GoesOn e =
    (phase_index e.to ≡ phase_index e.from + 1)
    ⊎ ((e.from ≡ prepared)
        × (e.to ≡ signing_replacement_pending)
        × ((c : Journal) → fails e.precondition c ≡ false → is_unreadable c ≡ true))

skip_precondition : (c : Journal) → not (is_unreadable c) ≡ false → is_unreadable c ≡ true
skip_precondition c h = ground arith

pub edges_go_on : All GoesOn transition_edges
edges_go_on = (
  inl refl,
  (
    inl refl,
    (
      inl refl,
      (
        inr (refl, refl, skip_precondition),
        (
          inl refl,
          (
            inl refl,
            (inl refl, (inl refl, (inl refl, (inl refl, (inl refl, (inl refl, (inl refl, tt))))))),
          ),
        ),
      ),
    ),
  ),
)

Advances-goes_on :
    (c d : Journal)
    → Advances c d
    → (phase_index d.phase ≡ phase_index c.phase + 1)
      ⊎ ((c.phase ≡ prepared) × (d.phase ≡ signing_replacement_pending) × (is_unreadable c ≡ true))
Advances-goes_on c d a =
    let (on, from, to) = edge_fact GoesOn c.phase d.phase a.edge edges_go_on a.found in
    elim on [
      | inl next ↦ inl (rw (← from, ← to) next)
      | inr (p, q, only) ↦ inr (sym from ∙ p, sym to ∙ q, only c a.met)
    ]

unreadable_revoke :
    (c : Journal)
    → is_unreadable c ≡ true
    → c.revoke ≡ record { state = skipped; outcome = some old_identity_unreadable }
unreadable_revoke c h =
    let (p, q) = (and-eq-true_iff _ _).0 h in
    let state : c.revoke.state ≡ skipped = (revoke_state_eq.same_as_iff _ _).0 p in
    let outcome : c.revoke.outcome ≡ some old_identity_unreadable = (option_beq_iff _ _).0 q in
    λ i. record { state = state i; outcome = outcome i }

-- A journal that the policy admits after the current one is the current one again, or stands in the
-- next phase, or skips from `prepared` to `signing-replacement-pending` with the journaled evidence
-- that the old identity could not be read.
pub validate_progress :
    (c d : Journal) {j : Journal}
    → validate_transition c d ≡ ok j
    → (c ≡ d)
      ⊎ (phase_index d.phase ≡ phase_index c.phase + 1)
      ⊎ ((c.phase ≡ prepared)
          × (d.phase ≡ signing_replacement_pending)
          × (c.revoke ≡ record { state = skipped; outcome = some old_identity_unreadable }))
validate_progress c d h = elim (validate_cases c d h).1 [
  | inl same ↦ inl same
  | inr a ↦ elim (Advances-goes_on c d a) [
    | inl next ↦ inr (inl next)
    | inr (p, q, e) ↦ inr (inr (p, q, unreadable_revoke c e))
  ]
]

-- A run that changes the phase in each of its `n` steps.
pub data Climb (c : Journal) : ℕ → Journal → Type 0 where
  start : Climb c 0 c
  climb :
      {n : ℕ} {d e j : Journal}
      → Climb c n d
      → validate_transition d e ≡ ok j
      → d.phase ≢ e.phase
      → Climb c (suc n) e

pub advance_index :
    (c d : Journal) {j : Journal}
    → validate_transition c d ≡ ok j
    → c.phase ≢ d.phase
    → phase_index c.phase < phase_index d.phase
advance_index c d h moved = elim (validate_progress c d h) [
  | inl same ↦ absurd (moved (ap (λ (j : Journal). j.phase) same))
  | inr (inl next) ↦ omega arith
  | inr (inr (p, q, _)) ↦ rw (p, q) (omega arith)
]

pub phase_index-le : (p : Phase) → phase_index p ≤ 12
phase_index-le prepared = omega arith
phase_index-le _ = omega arith

Climb-index : {c d : Journal} {n : ℕ} → Climb c n d → n + phase_index c.phase ≤ phase_index d.phase
Climb-index start = omega arith
Climb-index (climb {d} {e} run h moved) = omega (arith, Climb-index run, advance_index d e h moved)

-- A run changes the phase at most twelve times, and fewer by the place where it begins.
pub Climb-bound : {c d : Journal} {n : ℕ} → Climb c n d → n + phase_index c.phase ≤ 12
Climb-bound {d} run = omega (arith, Climb-index run, phase_index-le d.phase)
