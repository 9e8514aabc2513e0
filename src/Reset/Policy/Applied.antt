-- ===== src/Reset/Policy/Applied.antt =====
-- The policy admits what `applyHostDomainResetTransition` builds, where the edge is there.
use ariava.Prelude.{
  ℕ, ◌≤◌, ◌≡◌, refl, ◌∙◌, ◌⊎◌, inl, inr, true, false, not, ◌&&◌, ◌||◌, some, List, [], ◌∷◌, ◌==◌,
  ltb, All, ok, arith, Bool-cases,
}
use ariava.Reset.Journal.{Phase, phase_index, phase_eq, Journal, Timestamp}
use ariava.Reset.Policy.{
  find_edge, fails, has, check_immutable, check_field, check_fields, check_edge,
  validate_transition, apply_transition,
}
use ariava.Reset.Policy.Edges.{
  TransitionEdge, transition_edges, transition_fields, immutable_fields, Transition, to_quarantined,
  to_prepared, to_revoke_pending, to_old_identity_revoked, to_signing_replacement_pending,
  to_signing_identity_replaced, to_encryption_identity_replaced, to_runtime_artifacts_cleared,
  to_config_saved, to_enrolled, to_service_metadata_synchronized, to_service_restore_pending,
}
use ariava.Reset.Policy.Fields.{
  JournalField, field_eq, same_field, is_null_field, Agrees, same_field_iff, revoke, phase,
  updated_at, version, old_host_id, old_key_id, new_host_id, new_key_id, old_encryption_key_id,
  signing_cleanup, signing_replacement_attempted_at, encryption_identity_replaced_at,
  runtime_artifacts_cleared_at, config_saved_at, enrolled_at, service_metadata_synchronized_at,
}
use ariava.Reset.Policy.Steps.{edge_fact}
use ariava.Reset.Policy.Progress.{GoesOn, edges_go_on}

abbrev pub target : Transition → Phase
target to_quarantined = Phase.quarantined
target (to_prepared _ _ _ _ _) = Phase.prepared
target to_revoke_pending = Phase.revoke_pending
target (to_old_identity_revoked _) = Phase.old_identity_revoked
target (to_signing_replacement_pending _) = Phase.signing_replacement_pending
target (to_signing_identity_replaced _ _) = Phase.signing_identity_replaced
target (to_encryption_identity_replaced _) = Phase.encryption_identity_replaced
target (to_runtime_artifacts_cleared _) = Phase.runtime_artifacts_cleared
target (to_config_saved _) = Phase.config_saved
target (to_enrolled _) = Phase.enrolled
target (to_service_metadata_synchronized _) = Phase.service_metadata_synchronized
target to_service_restore_pending = Phase.service_restore_pending

-- What may be written on the way into a phase.
abbrev written_at : Phase → List JournalField
written_at Phase.prepared =
    old_host_id ∷ old_key_id ∷ old_encryption_key_id ∷ signing_cleanup ∷ revoke ∷ []
written_at Phase.revoke_pending = revoke ∷ []
written_at Phase.old_identity_revoked = revoke ∷ []
written_at Phase.signing_replacement_pending = signing_replacement_attempted_at ∷ []
written_at Phase.signing_identity_replaced = new_host_id ∷ new_key_id ∷ []
written_at Phase.encryption_identity_replaced = encryption_identity_replaced_at ∷ []
written_at Phase.runtime_artifacts_cleared = runtime_artifacts_cleared_at ∷ []
written_at Phase.config_saved = config_saved_at ∷ []
written_at Phase.enrolled = enrolled_at ∷ []
written_at Phase.service_metadata_synchronized = service_metadata_synchronized_at ∷ []
written_at _ = []

abbrev Writes : TransitionEdge → Type 0
Writes e = e.writable ≡ written_at e.to

edges_write : All Writes transition_edges
edges_write = (
  refl,
  (
    refl,
    (refl, (refl, (refl, (refl, (refl, (refl, (refl, (refl, (refl, (refl, (refl, tt))))))))))),
  ),
)

pub target-apply :
    (c : Journal) (t : Transition) (now : Timestamp) → (apply_transition c t now).phase ≡ target t
unfolding apply_transition
target-apply c to_quarantined now = refl
target-apply c _ now = refl

updated_at-apply :
    (c : Journal) (t : Transition) (now : Timestamp) → (apply_transition c t now).updated_at ≡ now
unfolding apply_transition
updated_at-apply c to_quarantined now = refl
updated_at-apply c _ now = refl

-- A transition changes the phase, the time stamp and the fields of its edge alone.
apply_changes :
    (c : Journal) (t : Transition) (now : Timestamp) (f : JournalField)
    → (has (written_at (target t)) f || f == phase || f == updated_at) ≡ false
    → Agrees f c (apply_transition c t now)
unfolding apply_transition
apply_changes c to_quarantined now version h = refl
apply_changes c _ now _ h = ground arith

check_immutable-ok :
    (fs : List JournalField) (c d : Journal)
    → All (λ f. Agrees f c d) fs
    → check_immutable fs c d ≡ ok tt
unfolding check_immutable
check_immutable-ok [] c d a = refl
check_immutable-ok (f ∷ fs) c d a =
    rw ((same_field_iff f c d).1 a.0) (check_immutable-ok fs c d a.1)

-- A field may pass: it agrees, or the edge writes it and it is not filled twice.
abbrev MayPass : TransitionEdge → Journal → Journal → JournalField → Type 0
MayPass e c d f =
    Agrees f c d
    ⊎ ((has e.writable f ≡ true) × ((has e.fill_only f && not (is_null_field f c)) ≡ false))

check_field-ok :
    (e : TransitionEdge) (f : JournalField) (c d : Journal)
    → MayPass e c d f
    → check_field e f c d ≡ ok tt
unfolding check_field
check_field-ok e f c d (inl agrees) =
    let same : same_field f c d ≡ true = (same_field_iff f c d).1 agrees in ground arith
check_field-ok e f c d (inr (w, o)) = ground arith

check_fields-ok :
    (e : TransitionEdge) (fs : List JournalField) (c d : Journal)
    → ((f : JournalField) → (f == phase || f == updated_at) ≡ false → MayPass e c d f)
    → All (λ f. (f == phase || f == updated_at) ≡ false) fs
    → check_fields e fs c d ≡ ok tt
unfolding check_fields
check_fields-ok e [] c d pass other = refl
check_fields-ok e (f ∷ fs) c d pass other =
    rw (check_field-ok e f c d (pass f other.0)) (check_fields-ok e fs c d pass other.1)

check_edge-ok :
    (e : TransitionEdge) (c d : Journal)
    → fails e.precondition c ≡ false
    → ltb d.updated_at c.updated_at ≡ false
    → check_immutable immutable_fields c d ≡ ok tt
    → check_fields e transition_fields c d ≡ ok tt
    → check_edge e c d ≡ ok d
unfolding check_edge
check_edge-ok e c d met later frozen allowed = rw (met, later, frozen, allowed)

-- The journal is ready for a transition: the table has an edge to its phase, the precondition
-- holds, and the fields that it fills are empty.
pub record IsReady (c : Journal) (t : Transition) : Type 0 where
  pub edge : TransitionEdge
  pub found : find_edge c.phase (target t) ≡ some edge
  pub met : fails edge.precondition c ≡ false
  pub empty : (f : JournalField) → (has edge.fill_only f && not (is_null_field f c)) ≡ false

not_back :
    (e : TransitionEdge)
    → GoesOn e
    → (ltb (phase_index e.to) (phase_index e.from) ≡ false) × (phase_eq.same_as e.to e.from ≡ false)
not_back e (inl next) = ground arith
not_back e (inr (p, q, _)) = rw (p, q) (refl, refl)

validate_along :
    (c d : Journal) (e : TransitionEdge)
    → find_edge c.phase d.phase ≡ some e
    → validate_transition c d ≡ check_edge e c d
unfolding validate_transition
validate_along c d e found =
    let (on, from, to) = edge_fact GoesOn c.phase d.phase e edges_go_on found in
    let (later, other) = not_back e on in
    let later' : ltb (phase_index d.phase) (phase_index c.phase) ≡ false = rw (from, to) at later in
    let other' : phase_eq.same_as d.phase c.phase ≡ false = rw (from, to) at other in
    rw (other', later', found)

frozen_fields :
    (c : Journal) (t : Transition) (now : Timestamp)
    → All (λ f. Agrees f c (apply_transition c t now)) immutable_fields
unfolding apply_transition
frozen_fields c to_quarantined now = (refl, (refl, (refl, (refl, (refl, (refl, tt))))))
frozen_fields c _ now = (refl, (refl, (refl, (refl, (refl, (refl, tt))))))

checked_fields : All (λ f. (f == phase || f == updated_at) ≡ false) transition_fields
checked_fields = (
  refl,
  (
    refl,
    (
      refl,
      (refl, (refl, (refl, (refl, (refl, (refl, (refl, (refl, (refl, (refl, (refl, tt))))))))))),
    ),
  ),
)

not_earlier : (m n : ℕ) → m ≤ n → ltb n m ≡ false
not_earlier m n h = ground arith

module _ (c : Journal) (t : Transition) (now : Timestamp) (r : IsReady c t) where
  may_pass :
      (f : JournalField)
      → (f == phase || f == updated_at) ≡ false
      → MayPass r.edge c (apply_transition c t now) f
  may_pass f other =
      let (writes, _, to) = edge_fact Writes c.phase (target t) r.edge edges_write r.found in
      elim (Bool-cases (has (written_at (target t)) f)) [
        | inl w ↦ inr (rw (writes, to) w, r.empty f)
        | inr w ↦ inl (apply_changes c t now f (rw w other))
      ]

  -- The policy admits the journal that a transition builds from a journal that is ready for it, at
  -- any time that is not before the last one.
  pub validate-apply :
      c.updated_at ≤ now
      → validate_transition c (apply_transition c t now) ≡ ok (apply_transition c t now)
  validate-apply later =
      let d = apply_transition c t now in
      let found : find_edge c.phase d.phase ≡ some r.edge = rw (target-apply c t now) r.found in
      let later' : c.updated_at ≤ d.updated_at = rw (updated_at-apply c t now) later in
      validate_along c d r.edge found
      ∙ check_edge-ok r.edge c d r.met (not_earlier _ _ later')
          (check_immutable-ok immutable_fields c d (frozen_fields c t now))
          (check_fields-ok r.edge transition_fields c d may_pass checked_fields)
