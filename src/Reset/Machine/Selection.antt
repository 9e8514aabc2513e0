-- ===== src/Reset/Machine/Selection.antt =====
-- Which journals the machine accepts, and the action that it selects for each.
use ariava.Prelude.{
  ◌≡◌, refl, ◌↔◌, ◌⊎◌, inl, inr, Option, none, some, true, false, ok, throw, arith,
}
use ariava.Reset.Journal.{
  Phase, quarantine_pending, quarantined, prepared, revoke_pending, old_identity_revoked,
  signing_replacement_pending, signing_identity_replaced, encryption_identity_replaced,
  runtime_artifacts_cleared, config_saved, enrolled, service_metadata_synchronized,
  service_restore_pending, RevokeState, not_attempted, pending, complete, skipped, RevokeOutcome,
  revoked, identity_already_revoked, old_identity_unreadable, Journal,
}
use ariava.Reset.Machine.{
  Action, stop_quarantine_and_acquire_runtime, inspect_and_bind_old_domain, persist_revoke_intent,
  revoke_old_identity, persist_signing_replacement_intent, replace_signing_identity,
  finalize_signing_and_replace_encryption_identity, finalize_encryption_and_clear_runtime_artifacts,
  persist_config, enroll_new_identity, sync_service_metadata, persist_service_restore_intent,
  restore_service_and_remove_journal, invalid_machine_journal, select, is_legal_revoke_combination,
  is_legal_at, prepared_action, next_host_reset_action,
}

-- A revoke decision that is settled: the Relay revoked the identity, had revoked it before, or the
-- old identity could not be read.
pub data IsSettled : RevokeState → Option RevokeOutcome → Type 0 where
  by_revoke : IsSettled complete (some revoked)
  before : IsSettled complete (some identity_already_revoked)
  unreadable : IsSettled skipped (some old_identity_unreadable)

-- The action that belongs to a phase once the revoke decision is settled.
abbrev pub late_action : Phase → Option Action
late_action signing_replacement_pending = some replace_signing_identity
late_action signing_identity_replaced = some finalize_signing_and_replace_encryption_identity
late_action encryption_identity_replaced = some finalize_encryption_and_clear_runtime_artifacts
late_action runtime_artifacts_cleared = some persist_config
late_action config_saved = some enroll_new_identity
late_action enrolled = some sync_service_metadata
late_action service_metadata_synchronized = some persist_service_restore_intent
late_action service_restore_pending = some restore_service_and_remove_journal
late_action _ = none

-- The machine as a table: the phase, the revoke decision, and the action.
pub data Selects : Phase → RevokeState → Option RevokeOutcome → Action → Type 0 where
  start : Selects quarantine_pending not_attempted none stop_quarantine_and_acquire_runtime
  inspect : Selects quarantined not_attempted none inspect_and_bind_old_domain
  readable : Selects prepared not_attempted none persist_revoke_intent
  skip : Selects prepared skipped (some old_identity_unreadable) persist_signing_replacement_intent
  revoke : Selects revoke_pending pending none revoke_old_identity
  done : Selects old_identity_revoked complete (some revoked) persist_signing_replacement_intent
  already :
      Selects old_identity_revoked complete
        (some identity_already_revoked)
        persist_signing_replacement_intent
  late :
      {p : Phase} {s : RevokeState} {o : Option RevokeOutcome} {a : Action}
      → late_action p ≡ some a
      → IsSettled s o
      → Selects p s o a

-- What the machine answers at given fields: an error, or an action that the table has.
abbrev Answers : Phase → RevokeState → Option RevokeOutcome → Type 0
Answers p s o =
    (select p s o ≡ throw invalid_machine_journal)
    ⊎ ((a : Action) × (select p s o ≡ ok a) × Selects p s o a)

settled_select :
    (p : Phase) {s : RevokeState} {o : Option RevokeOutcome} {a : Action}
    → late_action p ≡ some a
    → IsSettled s o
    → select p s o ≡ ok a
unfolding select
settled_select quarantine_pending h _ = cc
settled_select quarantined h _ = cc
settled_select prepared h _ = cc
settled_select revoke_pending h _ = cc
settled_select old_identity_revoked h _ = cc
settled_select _ h by_revoke = ground arith
settled_select _ h before = ground arith
settled_select _ h unreadable = ground arith

late-Answers :
    (p : Phase) (s : RevokeState) (o : Option RevokeOutcome) {a : Action}
    → late_action p ≡ some a
    → Answers p s o
unfolding select
late-Answers p complete (some revoked) h = inr (_, settled_select p h by_revoke, late h by_revoke)
late-Answers p complete (some identity_already_revoked) h =
    inr (_, settled_select p h before, late h before)
late-Answers p skipped (some old_identity_unreadable) h =
    inr (_, settled_select p h unreadable, late h unreadable)
late-Answers _ _ _ h = inl (ground arith)

answers : (p : Phase) (s : RevokeState) (o : Option RevokeOutcome) → Answers p s o
unfolding select
answers quarantine_pending not_attempted none = inr (_, refl, start)
answers quarantined not_attempted none = inr (_, refl, inspect)
answers prepared not_attempted none = inr (_, refl, readable)
answers prepared skipped (some old_identity_unreadable) = inr (_, refl, skip)
answers revoke_pending pending none = inr (_, refl, revoke)
answers old_identity_revoked complete (some revoked) = inr (_, refl, done)
answers old_identity_revoked complete (some identity_already_revoked) = inr (_, refl, already)
answers signing_replacement_pending s o = late-Answers signing_replacement_pending s o refl
answers signing_identity_replaced s o = late-Answers signing_identity_replaced s o refl
answers encryption_identity_replaced s o = late-Answers encryption_identity_replaced s o refl
answers runtime_artifacts_cleared s o = late-Answers runtime_artifacts_cleared s o refl
answers config_saved s o = late-Answers config_saved s o refl
answers enrolled s o = late-Answers enrolled s o refl
answers service_metadata_synchronized s o = late-Answers service_metadata_synchronized s o refl
answers service_restore_pending s o = late-Answers service_restore_pending s o refl
answers _ _ _ = inl (ground arith)

select_sound :
    (p : Phase) (s : RevokeState) (o : Option RevokeOutcome) (a : Action)
    → select p s o ≡ ok a
    → Selects p s o a
select_sound p s o a h = elim (answers p s o) [
  | inl e ↦ cc (e, h)
  | inr (b, e, found) ↦ let same : b ≡ a = cc (e, h) in rw (← same) found
]

select_complete :
    {p : Phase} {s : RevokeState} {o : Option RevokeOutcome} {a : Action}
    → Selects p s o a
    → select p s o ≡ ok a
unfolding select
select_complete start = refl
select_complete inspect = refl
select_complete readable = refl
select_complete skip = refl
select_complete revoke = refl
select_complete done = refl
select_complete already = refl
select_complete (late {p} h settled) = settled_select p h settled

prepared_passes :
    (s : RevokeState) (o : Option RevokeOutcome)
    → is_legal_revoke_combination s o ≡ true
    → is_legal_at prepared s o ≡ true
    → prepared_action s o ≡ throw invalid_machine_journal
    → ⊥
unfolding is_legal_revoke_combination is_legal_at prepared_action
prepared_passes not_attempted none c l e = cc
prepared_passes _ _ c l e = ground arith

passes_not_throw :
    (p : Phase) (s : RevokeState) (o : Option RevokeOutcome)
    → is_legal_revoke_combination s o ≡ true
    → is_legal_at p s o ≡ true
    → select p s o ≡ throw invalid_machine_journal
    → ⊥
unfolding select
passes_not_throw prepared s o combination legal e =
    prepared_passes s o combination legal (ground arith)
passes_not_throw quarantine_pending s o combination legal e = ground arith
passes_not_throw _ s o combination legal e = ground arith

legal_select :
    (p : Phase) (s : RevokeState) (o : Option RevokeOutcome)
    → is_legal_revoke_combination s o ≡ true
    → is_legal_at p s o ≡ true
    → (a : Action) × (select p s o ≡ ok a)
unfolding select
legal_select p s o combination legal = elim (answers p s o) [
  | inl e ↦ absurd (passes_not_throw p s o combination legal e)
  | inr (a, e, _) ↦ (a, e)
]

-- `nextHostResetAction` returns an action exactly when the table has a row with the journal's phase
-- and revoke decision, and returns that row's action; otherwise it throws.
pub next_host_reset_action_iff :
    (j : Journal) (a : Action)
    → (next_host_reset_action j ≡ ok a) ↔ Selects j.phase j.revoke.state j.revoke.outcome a
unfolding next_host_reset_action
next_host_reset_action_iff j a = (select_sound _ _ _ a, select_complete)

-- The machine throws where its check by phase fails.
pub illegal_throws :
    (j : Journal)
    → is_legal_revoke_combination j.revoke.state j.revoke.outcome ≡ true
    → is_legal_at j.phase j.revoke.state j.revoke.outcome ≡ false
    → next_host_reset_action j ≡ throw invalid_machine_journal
unfolding next_host_reset_action
illegal_throws j combination illegal = rw (combination, illegal)

-- The machine answers wherever its two checks pass.
pub legal_selects :
    (j : Journal)
    → is_legal_revoke_combination j.revoke.state j.revoke.outcome ≡ true
    → is_legal_at j.phase j.revoke.state j.revoke.outcome ≡ true
    → (a : Action) × (next_host_reset_action j ≡ ok a)
unfolding next_host_reset_action
legal_selects j combination legal =
    legal_select j.phase j.revoke.state j.revoke.outcome combination legal
