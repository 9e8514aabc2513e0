-- ===== src/Reset/Coordinator/Termination.antt =====
-- The reset loop ends.
use ariava.Prelude.{
  ℕ, zero, suc, Option, ◌+◌, ◌<◌, ◌≡◌, ◌≢◌, refl, sym, ◌∙◌, ap, some, Result, ok, throw, >>-eq-ok,
  require, require-eq-ok, ◌>>=◌, >>=-eq-ok, ok-injective, arith,
}
use ariava.Reset.Journal.{Timestamp, Phase, phase_index, RevokeState, RevokeOutcome, Journal}
use ariava.Reset.Machine.{
  Action, restore_service_and_remove_journal, next_host_reset_action, MachineError,
}
use ariava.Reset.Policy.{apply_transition, validate_transition}
use ariava.Reset.Policy.Edges.{Transition, Violation}
use ariava.Reset.Policy.Applied.{target, target-apply}
use ariava.Reset.Policy.Progress.{advance_index, phase_index-le}
use ariava.Reset.Policy.Steps.{validate_cases, same_value-eq}
use mathlib.Core.Path.{subst}
use ariava.Reset.Machine.Selection.{
  late_action, Selects, start, inspect, readable, skip, revoke, done, already, late,
  next_host_reset_action_iff,
}
use ariava.Reset.Policy.Fields.{same_value}
use ariava.Reset.Schema.{Resources, JournalError, changed_before_advancement, parse_journal}
use ariava.Reset.Schema.Invariants.{parse-eq}
use ariava.Reset.Coordinator.{
  executor_phase, advance_journal, or_refused, Execution, advance_by, restore, Outcome, stopped,
  out_of_fuel, continue, executed, perform, round, run,
}

or_refused-eq-ok : (v : Result Violation Journal) {k : Journal} → or_refused v ≡ ok k → v ≡ ok k
or_refused-eq-ok (ok j) h = ap ok (ok-injective h)
or_refused-eq-ok (throw v) h = cc

admitted-eq-ok : (v : Result Violation Journal) {k : Journal} → v ≡ ok k → or_refused v ≡ ok k
admitted-eq-ok (ok j) h = ap ok (ok-injective h)
admitted-eq-ok (throw v) h = cc

advanced :
    (r : Resources) (stored current : Journal) (t : Transition) (now : Timestamp) {k : Journal}
    → advance_journal r (some stored) current t now ≡ ok k
    → (stored ≡ current)
      × (k ≡ apply_transition stored t now)
      × (parse_journal k r ≡ ok k)
      × (validate_transition stored k ≡ ok k)
unfolding advance_journal
advanced r stored current t now {k} h =
    let d = apply_transition stored t now in
    let rest = λ (c : Journal). or_refused (validate_transition stored c) in
    let (same, h₁) =
      >>-eq-ok (require (same_value stored current) changed_before_advancement)
        (parse_journal d r >>= rest) h in
    let (candidate, parsed, admitted) = >>=-eq-ok (parse_journal d r) rest h₁ in
    let valid = or_refused-eq-ok (validate_transition stored candidate) admitted in
    let written = (validate_cases stored candidate valid).0 in
    let applied = parse-eq d r parsed in
    (
      same_value-eq stored current (require-eq-ok _ _ same),
      written ∙ applied,
      subst (λ x. parse_journal x r ≡ ok k) (sym (written ∙ applied))
          (parsed ∙ ap ok (sym written)),
      subst (λ x. validate_transition stored x ≡ ok k) (sym written) valid,
    )

validate_candidate : (c d : Journal) {k : Journal} → validate_transition c d ≡ ok k → k ≡ d
validate_candidate c d h = (validate_cases c d h).0

advance_climbs :
    (r : Resources) (j : Journal) (t : Transition) (now : Timestamp) {k : Journal}
    → target t ≢ j.phase
    → advance_journal r (some j) j t now ≡ ok k
    → phase_index j.phase < phase_index k.phase
advance_climbs r j t now moves h =
    let (_, applied, _, valid) = advanced r j j t now h in
    advance_index j _ valid
      (λ e. moves (sym (target-apply j t now) ∙ sym (ap (λ x. x.phase) applied) ∙ sym e))

late_moves :
    (p : Phase) {q : Phase} {a : Action}
    → late_action p ≡ some a
    → executor_phase a ≡ some q
    → q ≢ p
late_moves Phase.quarantine_pending h asks same = cc
late_moves _ h asks same = cc

-- The executor of the action that the machine selects asks for another phase than the journal's.
selected_moves :
    {p q : Phase} {s : RevokeState} {o : Option RevokeOutcome} {a : Action}
    → Selects p s o a
    → executor_phase a ≡ some q
    → q ≢ p
selected_moves start asks same = cc
selected_moves inspect asks same = cc
selected_moves readable asks same = cc
selected_moves skip asks same = cc
selected_moves revoke asks same = cc
selected_moves done asks same = cc
selected_moves already asks same = cc
selected_moves (late {p} h settled) asks same = late_moves p h asks same

-- Executors that ask for the phases that the program's do, whatever else they do and return.
abbrev pub AsksFor {ℓ} : {E : Type ℓ} → (Action → Journal → Result E Execution) → Type ℓ
AsksFor execute =
    (a : Action) (j : Journal) (t : Transition)
    → execute a j ≡ ok (advance_by t)
    → executor_phase a ≡ some (target t)

module _ {ℓ} {E : Type ℓ} (r : Resources) (execute : Action → Journal → Result E Execution)
    (clock : ℕ → Timestamp) (asks : AsksFor execute) where
  continue_ends :
      (n : ℕ) (rest : Journal → Outcome) (j : Journal) (result : Result JournalError Journal)
      → ((k : Journal) → result ≡ ok k → rest k ≢ out_of_fuel)
      → continue r execute clock rest j result ≢ out_of_fuel
  continue_ends n rest j (ok k) ends = ends k refl
  continue_ends n rest j (throw e) ends = λ h. cc

  executed_ends :
      (n : ℕ) (rest : Journal → Outcome) (j : Journal) (a : Action)
      → ((k : Journal) → phase_index j.phase < phase_index k.phase → rest k ≢ out_of_fuel)
      → next_host_reset_action j ≡ ok a
      → (x : Result E Execution) → execute a j ≡ x
      → executed r execute clock rest n j x ≢ out_of_fuel
  unfolding executed
  executed_ends n rest j a ends chosen (throw e) h = λ p. cc
  executed_ends n rest j a ends chosen (ok restore) h = λ p. cc
  executed_ends n rest j a ends chosen (ok (advance_by t)) h =
      continue_ends n rest j (advance_journal r (some j) j t (clock n)) (λ k written. ends k (
        advance_climbs r j t (clock n)
          (selected_moves ((next_host_reset_action_iff j a).0 chosen) (asks a j t h)) written))

  perform_ends :
      (n : ℕ) (rest : Journal → Outcome) (j : Journal) (a : Action)
      → ((k : Journal) → phase_index j.phase < phase_index k.phase → rest k ≢ out_of_fuel)
      → next_host_reset_action j ≡ ok a
      → perform r execute clock rest n j a ≢ out_of_fuel
  unfolding perform
  perform_ends n rest j restore_service_and_remove_journal ends chosen = λ h. cc
  perform_ends n rest j a ends chosen = executed_ends n rest j a ends chosen (execute a j) refl

  round_ends :
      (n : ℕ) (rest : Journal → Outcome) (j : Journal)
      → ((k : Journal) → phase_index j.phase < phase_index k.phase → rest k ≢ out_of_fuel)
      → round r execute clock rest n j ≢ out_of_fuel
  unfolding round
  round_ends n rest j ends = chosen (next_host_reset_action j) refl
    where
      chosen :
          (x : Result MachineError Action)
          → next_host_reset_action j ≡ x
          → (elim x as (λ _. Outcome) [
            | throw e ↦ stopped j
            | ok action ↦ perform r execute clock rest n j action
          ])
            ≢ out_of_fuel
      chosen (throw e) same = λ h. cc
      chosen (ok a) same = perform_ends n rest j a ends same

  -- The loop of the reset ends, from any journal and for any executors that ask for the phases that
  -- the program's executors ask for, whatever they return or throw besides, within thirteen rounds
  -- less the place of the journal's phase: it restores the service or throws.
  pub run_ends :
      (n : ℕ) (j : Journal) → 12 < n + phase_index j.phase → run r execute clock n j ≢ out_of_fuel
  unfolding run
  run_ends zero j h = absurd (omega (arith, phase_index-le j.phase))
  run_ends (suc n) j h =
      round_ends n (λ k. run r execute clock n k) j (λ k later. run_ends n k (omega arith))
