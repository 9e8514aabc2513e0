-- ===== src/Store/Commands/Lifecycle/Relations.antt =====
-- The relations of stored commands that the codec asserts: the loop over `commandExecutions` in
-- `assertCurrentStateRelationships`, apps/bridge/src/state-store/state-codec.ts.
use mathlib.Core.Path.{subst}
use ariava.Prelude.{
  String, ◌≡◌, refl, sym, ap, ◌∙◌, ◌⊎◌, inl, inr, Bool, true, false, Option, none, some, List, [],
  ◌∷◌, Result, ok, throw, string_eq, nat_eq, arith, eq_iff,
}
use ariava.Prelude.Dict.{Dict, lookup, insert, any-values, Every, lookup-insert-some}
use ariava.Store.Comparison.{execution_state_eq}
use ariava.Store.Execution.{Checks, assert_command_execution}
use ariava.Store.Execution.Orphans.{assert-unknown}
use ariava.Store.State.{CommandExecution, BridgeState, StoreError}
use ariava.Store.Commands.{
  same_nonce, claim_candidate, is_orphan, is_orphan_at, as_unknown, set_unknown,
}
use ariava.Store.Commands.Lifecycle.{
  Operation, apply, Moves, started, lost, blocked, finished, delivered, orphan_ids, Effect, nothing,
  moved, newly, recovered,
}
use ariava.Store.Commands.Lifecycle.Effects.{apply-Effect}
use ariava.Store.Commands.Lifecycle.Recovery.{unknown_if, lookup-recovered}
use ariava.Store.Commands.Lifecycle.Lasting.{or_kept, attempt, attempt_all}

-- An entry is valid and stands under its command's id.
abbrev pub IsStored : Checks → String → CommandExecution → Type 0
IsStored checks k e =
    (assert_command_execution checks e ≡ ok tt) × (k ≡ e.original_encrypted_command.command_id)

-- No two commands of one watch have the same nonce.
abbrev pub NoncesDistinct : Dict CommandExecution → Type 0
NoncesDistinct d =
    (k j : String) (e f : CommandExecution)
    → lookup d k ≡ some e
    → lookup d j ≡ some f
    → same_nonce e f ≡ true
    → k ≡ j

pub record CommandRelations (checks : Checks) (d : Dict CommandExecution) : Type 0 where
  pub stored : Every d (IsStored checks)
  pub nonces : NoncesDistinct d

Moves-nonce :
    (e e' : CommandExecution)
    → Moves e e'
    → (e.watch_device_id ≡ e'.watch_device_id) × (e.nonce ≡ e'.nonce)
Moves-nonce _ _ (started e at h) = (refl, refl)
Moves-nonce _ _ (lost e h) = (refl, refl)
Moves-nonce _ _ (blocked e result h) = (refl, refl)
Moves-nonce _ _ (finished e result outbox h) = (refl, refl)
Moves-nonce _ _ (delivered e outbox to h1 h2 h3) = (refl, refl)

same_nonce-sym : (e f : CommandExecution) → same_nonce e f ≡ true → same_nonce f e ≡ true
same_nonce-sym e f h = ground (
  arith,
  eq_iff e.watch_device_id f.watch_device_id,
  eq_iff e.nonce f.nonce,
  eq_iff f.watch_device_id e.watch_device_id,
  eq_iff f.nonce e.nonce,
)

-- An insertion keeps the nonces distinct when no other entry has the new one's nonce.
inserted-NoncesDistinct :
    (d : Dict CommandExecution) (id : String) (e' : CommandExecution)
    → NoncesDistinct d
    → ((k : String) (e : CommandExecution) → lookup d k ≡ some e → same_nonce e' e ≡ true → id ≡ k)
    → NoncesDistinct (insert d id e')
inserted-NoncesDistinct d id e' distinct other k j e f hk hj same =
    elim (lookup-insert-some d id k e' hk) [
      | inl (ik, ee) ↦ elim (lookup-insert-some d id j e' hj) [
        | inl (ij, fe) ↦ sym ik ∙ ij
        | inr (_, was) ↦ sym ik ∙ other j f was (subst (λ x. same_nonce x f ≡ true) ee same)
      ]
      | inr (_, was_k) ↦ elim (lookup-insert-some d id j e' hj) [
        | inl (ij, fe) ↦
            sym (other k e was_k (same_nonce-sym e e' (subst (λ x. same_nonce e x ≡ true) fe same)))
            ∙ ij
        | inr (_, was_j) ↦ distinct k j e f was_k was_j same
      ]
    ]

inserted-IsStored :
    (checks : Checks) (d : Dict CommandExecution) (id : String) (e' : CommandExecution)
    → Every d (IsStored checks)
    → IsStored checks id e'
    → Every (insert d id e') (IsStored checks)
inserted-IsStored checks d id e' stored fine k e has = elim (lookup-insert-some d id k e' has) [
  | inl (ik, ee) ↦ rw (sym ik, ee) fine
  | inr (_, was) ↦ stored k e was
]

-- What an entry was before a recovery: itself, or claimed or started.
abbrev WasBefore : CommandExecution → CommandExecution → Type 0
WasBefore e f = (e ≡ f) ⊎ ((is_orphan f ≡ true) × (e ≡ as_unknown f))

unknown_if-was :
    (b : Bool) (o : Option CommandExecution) (e : CommandExecution)
    → unknown_if b o ≡ some e
    → (f : CommandExecution) × (o ≡ some f) × ((e ≡ f) ⊎ ((b ≡ true) × (e ≡ as_unknown f)))
unknown_if-was true none e h = cc
unknown_if-was false none e h = cc
unknown_if-was true (some f) e h = (f, refl, inr (refl, cc))
unknown_if-was false (some f) e h = (f, refl, inl cc)

orphan_at :
    (d : Dict CommandExecution) (k : String) (f : CommandExecution)
    → lookup d k ≡ some f
    → is_orphan_at d k ≡ is_orphan f
orphan_at d k f has = rw (is_orphan_at, has) refl

recovered-was :
    (d : Dict CommandExecution) (k : String) (e : CommandExecution)
    → lookup (set_unknown d (orphan_ids d)) k ≡ some e
    → (f : CommandExecution) × (lookup d k ≡ some f) × WasBefore e f
recovered-was d k e h =
    let (f, has, before) =
      unknown_if-was (is_orphan_at d k) (lookup d k) e (sym (lookup-recovered d k) ∙ h) in
    elim before [
      | inl unchanged ↦ (f, has, inl unchanged)
      | inr (orphan, changed) ↦ (f, has, inr (sym (orphan_at d k f has) ∙ orphan, changed))
    ]

before-nonce :
    (e f : CommandExecution)
    → WasBefore e f
    → (e.watch_device_id ≡ f.watch_device_id) × (e.nonce ≡ f.nonce)
before-nonce e f (inl same) = (ap (λ x. x.watch_device_id) same, ap (λ x. x.nonce) same)
before-nonce e f (inr (_, same)) = (ap (λ x. x.watch_device_id) same, ap (λ x. x.nonce) same)

before-IsStored :
    (checks : Checks) (k : String) (e f : CommandExecution)
    → WasBefore e f
    → IsStored checks k f
    → IsStored checks k e
before-IsStored checks k e f (inl same) stored = rw same stored
before-IsStored checks k e f (inr (orphan, same)) (fine, named) =
    rw same (assert-unknown checks f orphan fine, named)

module _ (checks : Checks) where
  Effect-CommandRelations :
      (s s' : BridgeState)
      → Effect checks s s'
      → CommandRelations checks s.command_executions
      → CommandRelations checks s'.command_executions
  Effect-CommandRelations s _ nothing r = r
  Effect-CommandRelations s _ (moved id e e' was m fine named) r = record {
    stored = inserted-IsStored checks s.command_executions id e' r.stored (fine, sym named);
    nonces = inserted-NoncesDistinct s.command_executions id e' r.nonces (λ k f has same.
        let (watch, nonce) = Moves-nonce e e' m in
        r.nonces id k e f was has (rw (watch, nonce) same));
  }
  Effect-CommandRelations s _ (newly input absent fresh fine) r = record {
    stored =
        inserted-IsStored checks s.command_executions input.original_encrypted_command.command_id
          (claim_candidate input) r.stored (fine, refl);
    nonces =
        inserted-NoncesDistinct s.command_executions input.original_encrypted_command.command_id
          (claim_candidate input) r.nonces
          (λ k f has same.
            let free =
              any-values s.command_executions (same_nonce (claim_candidate input)) k f fresh has in
            cc);
  }
  Effect-CommandRelations s _ recovered r = record {
    stored = λ k e has.
        let (f, was, before) = recovered-was s.command_executions k e has in
        before-IsStored checks k e f before (r.stored k f was);
    nonces = λ k j e e' has has' same.
        let (f, was, before) = recovered-was s.command_executions k e has in
        let (f', was', before') = recovered-was s.command_executions j e' has' in
        let (watch, nonce) = before-nonce e f before in
        let (watch', nonce') = before-nonce e' f' before' in
        r.nonces k j f f' was was' (rw (sym watch, sym nonce, sym watch', sym nonce') same);
  }

  or_kept-CommandRelations :
      (s : BridgeState) (op : Operation) (m : Result StoreError BridgeState)
      → apply checks s op ≡ m
      → CommandRelations checks s.command_executions
      → CommandRelations checks (or_kept s m).command_executions
  or_kept-CommandRelations s op (ok s') h r =
      Effect-CommandRelations s s' (apply-Effect checks s op h) r
  or_kept-CommandRelations s op (throw e) h r = r

-- Each stored command is valid and under its id, and no two commands of one watch have the same
-- nonce, after any operations from a state where this holds.
pub attempt_all-CommandRelations :
    (checks : Checks) (ops : List Operation) (s : BridgeState)
    → CommandRelations checks s.command_executions
    → CommandRelations checks (attempt_all checks s ops).command_executions
attempt_all-CommandRelations checks [] s r = r
attempt_all-CommandRelations checks (op ∷ ops) s r =
    attempt_all-CommandRelations checks ops (attempt checks s op)
      (or_kept-CommandRelations checks s op _ refl r)
