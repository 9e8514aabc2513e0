-- ===== src/Reset/Policy/Lasting.antt =====
-- What a chain of admitted transitions keeps.
use ariava.Prelude.{
  ◌≡◌, refl, sym, ◌∙◌, ◌⊎◌, inl, inr, Bool, true, false, not, ◌&&◌, ◌||◌, List, [], ◌∷◌, ◌==◌, all,
  All, ok, arith, Bool-cases,
}
use mathlib.Core.Bool.{and-eq-true_iff}
use ariava.Reset.Journal.{phase_eq, Journal, revoke_state_eq, outcome_eq}
use ariava.Reset.Policy.{has, validate_transition}
use ariava.Reset.Policy.Edges.{
  TransitionEdge, transition_edges, transition_fields, immutable_fields,
}
use ariava.Reset.Policy.Fields.{
  JournalField, field_eq, is_null_field, Agrees, same_field_iff, revoke, phase, updated_at, version,
  operation_id, profile, resource_digest, created_at,
}
use ariava.Reset.Policy.Steps.{IsAllowed, kept, fixed, written, edge_fact, Advances, validate_cases}

-- Whatever an edge may write, other than the revoke decision, it may only fill.
abbrev only_fills : TransitionEdge → JournalField → Bool
only_fills e f = not (has e.writable f) || has e.fill_only f || f == revoke

abbrev Fills : TransitionEdge → Type 0
Fills e = all (only_fills e) transition_fields ≡ true

edges_fill : All Fills transition_edges
edges_fill = (
  refl,
  (
    refl,
    (refl, (refl, (refl, (refl, (refl, (refl, (refl, (refl, (refl, (refl, (refl, tt))))))))))),
  ),
)

pub has-mem :
    (P : JournalField → Type 0) (fs : List JournalField) (f : JournalField)
    → All P fs
    → has fs f ≡ true
    → P f
has-mem P [] f a h = cc
has-mem P (g ∷ fs) f a h = elim (Bool-cases (g == f)) [
  | inl here ↦ rw (← (field_eq.same_as_iff g f).0 here) a.0
  | inr later ↦ has-mem P fs f a.1 (ground arith)
]

has-all :
    (p : JournalField → Bool) (fs : List JournalField) (f : JournalField)
    → all p fs ≡ true
    → has fs f ≡ true
    → p f ≡ true
has-all p [] f a h = cc
has-all p (g ∷ fs) f a h = elim (Bool-cases (g == f)) [
  | inl here ↦
      let first : p g ≡ true = ((and-eq-true_iff _ _).0 a).0 in
      rw (← (field_eq.same_as_iff g f).0 here) first
  | inr later ↦ has-all p fs f ((and-eq-true_iff _ _).0 a).1 (ground arith)
]

-- The fields that keep a value once they have one: all but the phase, its time stamp and the revoke
-- decision.
abbrev pub is_lasting : JournalField → Bool
is_lasting f = not (f == phase || f == updated_at || f == revoke)

is_lasting-has :
    (f : JournalField)
    → is_lasting f ≡ true
    → (has immutable_fields f ≡ true) ⊎ (has transition_fields f ≡ true)
is_lasting-has version h = inl refl
is_lasting-has operation_id h = inl refl
is_lasting-has profile h = inl refl
is_lasting-has resource_digest h = inl refl
is_lasting-has created_at h = inl refl
is_lasting-has phase h = cc
is_lasting-has updated_at h = cc
is_lasting-has revoke h = cc
is_lasting-has _ h = inr refl

immutable_lasts :
    (c d : Journal) (f : JournalField) → Advances c d → has immutable_fields f ≡ true → Agrees f c d
immutable_lasts c d f a h = has-mem (λ g. Agrees g c d) immutable_fields f a.frozen h

-- A write of a field that had a value is a write of the revoke decision.
written_over :
    (w o n r : Bool)
    → (not w || o || r) ≡ true
    → w ≡ true
    → (o && not n) ≡ false
    → n ≡ false
    → r ≡ true
written_over w o n r p q s t = ground arith

allowed_lasts :
    (e : TransitionEdge) (c d : Journal) (f : JournalField)
    → only_fills e f ≡ true
    → is_lasting f ≡ true
    → is_null_field f c ≡ false
    → Advances c d
    → IsAllowed e c d f
    → Agrees f c d
allowed_lasts e c d f only lasting full a (kept same) = (same_field_iff f c d).0 same
allowed_lasts e c d f only lasting full a (fixed h) = immutable_lasts c d f a h
allowed_lasts e c d f only lasting full a (written w o) =
    let overwritten = written_over _ _ _ _ only w o full in absurd (ground arith)

Advances-keeps :
    (c d : Journal) (f : JournalField)
    → is_lasting f ≡ true
    → is_null_field f c ≡ false
    → Advances c d
    → Agrees f c d
Advances-keeps c d f lasting full a = elim (is_lasting-has f lasting) [
  | inl immutable ↦ immutable_lasts c d f a immutable
  | inr checked ↦
      let (fill, _, _) = edge_fact Fills c.phase d.phase a.edge edges_fill a.found in
      allowed_lasts a.edge c d f (has-all (only_fills a.edge) transition_fields f fill checked)
        lasting full a (has-mem (IsAllowed a.edge c d) transition_fields f a.allowed checked)
]

Agrees-refl : (f : JournalField) (c : Journal) → Agrees f c c
Agrees-refl version c = refl
Agrees-refl _ c = refl

pub validate_keeps :
    (c d : Journal) {j : Journal} (f : JournalField)
    → validate_transition c d ≡ ok j
    → is_lasting f ≡ true
    → is_null_field f c ≡ false
    → Agrees f c d
validate_keeps c d f h lasting full = elim (validate_cases c d h).1 [
  | inl same ↦ rw (← same) (Agrees-refl f c)
  | inr a ↦ Advances-keeps c d f lasting full a
]

Agrees-is_null :
    (f : JournalField) (c d : Journal) → Agrees f c d → is_null_field f c ≡ is_null_field f d
unfolding is_null_field
Agrees-is_null version c d h = refl
Agrees-is_null _ c d h = ground arith

-- A run of the reset: each journal is admitted after the one before it.
pub data Run (c : Journal) : Journal → Type 0 where
  here : Run c c
  next : {d e j : Journal} → Run c d → validate_transition d e ≡ ok j → Run c e

same_trans : (f : JournalField) (c d e : Journal) → Agrees f c d → Agrees f d e → Agrees f c e
same_trans version c d e p q = p ∙ q
same_trans _ c d e p q = p ∙ q

-- In a run of any length, a field that has a value keeps it: operation, profile, resource binding,
-- creation time and service snapshot for ever, and the identities, the cleanup record and the six
-- effect times from the moment that they are written.
pub Run-keeps :
    {c d : Journal} (f : JournalField)
    → Run c d
    → is_lasting f ≡ true
    → is_null_field f c ≡ false
    → Agrees f c d
Run-keeps {c} f here lasting full = Agrees-refl f c
Run-keeps {c} f (next {d} {e} run h) lasting full =
    let so_far = Run-keeps f run lasting full in
    same_trans f c d e so_far
      (validate_keeps d e f h lasting (sym (Agrees-is_null f c d so_far) ∙ full))
