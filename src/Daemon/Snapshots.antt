-- ===== src/Daemon/Snapshots.antt =====
-- The policy on failed snapshot publications: apps/bridge/src/daemon/snapshot-policy.ts.
use ariava.Prelude.{
  ℕ, ◌+◌, ◌-◌, ◌≤◌, String, ◌≡◌, refl, ◌∙◌, Bool, true, false, not, ◌||◌, List, [], ◌∷◌, leb, ltb,
  length, take, if◌then◌else◌, arith,
}

pub data FailureAction : Type 0 where
  retry recover_pipeline mark_offline : FailureAction

pub record FailureState : Type 0 where
  pub count : ℕ
  pub last_log_at : ℕ

abbrev pub escalation_threshold : ℕ
escalation_threshold = 2

abbrev pub log_throttle_ms : ℕ
log_throttle_ms = 30000

abbrev pub no_revision_id_cap : ℕ
no_revision_id_cap = 10

abbrev pub initial_failure_state : FailureState
initial_failure_state = record { count = 0; last_log_at = 0 }

pub reset_snapshot_failures : FailureState → FailureState
reset_snapshot_failures state = record { count = 0; last_log_at = state.last_log_at }

pub data LogPhase : Type 0 where
  publish recovery : LogPhase

pub record LogDecision : Type 0 where
  pub next : FailureState
  pub should_log : Bool

abbrev is_recovery : LogPhase → Bool
is_recovery publish = false
is_recovery recovery = true

pub decide_failure_log : FailureState → ℕ → LogPhase → LogDecision
decide_failure_log state now phase =
    if is_recovery phase || leb log_throttle_ms (now - state.last_log_at)
    then record { next = record { count = state.count; last_log_at = now }; should_log = true }
    else record {
      next = record { count = state.count; last_log_at = state.last_log_at };
      should_log = false;
    }

pub data FailureEvent : Type 0 where
  publication_failure recovery_failure : ℕ → FailureEvent

pub record FailureDecision : Type 0 where
  pub next : FailureState
  pub action : FailureAction
  pub should_log : Bool

unfoldable pub decide_failure : FailureState → FailureEvent → FailureDecision
decide_failure state (recovery_failure now) = record {
  next = record { count = state.count; last_log_at = now };
  action = mark_offline;
  should_log = true;
}
decide_failure state (publication_failure now) =
    let throttled = ltb (now - state.last_log_at) log_throttle_ms in
    let count = state.count + 1 in
    record {
      next = record { count = count; last_log_at = if throttled then state.last_log_at else now };
      action = if leb escalation_threshold count then recover_pipeline else retry;
      should_log = not throttled;
    }

pub record FailureSummary : Type 0 where
  pub active_session_count : ℕ
  pub no_revision_session_count : ℕ
  pub no_revision_session_ids : List String

pub summarize_failures : ℕ → List String → FailureSummary
summarize_failures active without_revision = record {
  active_session_count = active;
  no_revision_session_count = length without_revision;
  no_revision_session_ids = take no_revision_id_cap without_revision;
}

-- What happens to the policy's state, in order.
pub data Report : Type 0 where
  succeeds : Report
  fails : FailureEvent → Report
  logs : ℕ → LogPhase → Report

abbrev pub report : FailureState → Report → FailureState
report state succeeds = reset_snapshot_failures state
report state (fails event) = (decide_failure state event).next
report state (logs now phase) = (decide_failure_log state now phase).next

-- The reports with the last one first.
abbrev pub report_all : FailureState → List Report → FailureState
report_all state [] = state
report_all state (r ∷ earlier) = report (report_all state earlier) r

-- How many publications failed since the last success, or since the beginning.
abbrev pub failures_since_success : List Report → ℕ
failures_since_success [] = 0
failures_since_success (succeeds ∷ earlier) = 0
failures_since_success (fails (publication_failure now) ∷ earlier) =
    failures_since_success earlier + 1
failures_since_success (_ ∷ earlier) = failures_since_success earlier

count-failures :
    (reports : List Report)
    → (report_all initial_failure_state reports).count ≡ failures_since_success reports
unfolding reset_snapshot_failures decide_failure decide_failure_log
count-failures [] = refl
count-failures (succeeds ∷ earlier) = refl
count-failures (fails (publication_failure now) ∷ earlier) = omega (arith, count-failures earlier)
count-failures (fails (recovery_failure now) ∷ earlier) = count-failures earlier
count-failures (logs now phase ∷ earlier) = ground (arith, count-failures earlier)

-- After any reports a failed publication recovers the pipeline exactly when another publication has
-- failed since the last success; else it is retried.
pub escalates :
    (reports : List Report) (now : ℕ)
    → (decide_failure (report_all initial_failure_state reports) (publication_failure now)).action
      ≡ (if leb 1 (failures_since_success reports) then recover_pipeline else retry)
unfolding decide_failure
escalates reports now = ground (arith, count-failures reports)

abbrev pub fail_at : FailureState → ℕ → FailureDecision
fail_at state now = decide_failure state (publication_failure now)

-- Publications that fail one after the other.
abbrev pub fail_all : FailureState → List ℕ → FailureState
fail_all state [] = state
fail_all state (now ∷ later) = fail_all (fail_at state now).next later

-- None of them is logged.
abbrev pub AllQuiet : FailureState → List ℕ → Type 0
AllQuiet state [] = Unit
AllQuiet state (now ∷ later) =
    ((fail_at state now).should_log ≡ false) × AllQuiet (fail_at state now).next later

quiet-last :
    (state : FailureState) (times : List ℕ)
    → AllQuiet state times
    → (fail_all state times).last_log_at ≡ state.last_log_at
unfolding decide_failure
quiet-last state [] quiet = refl
quiet-last state (now ∷ later) (first, rest) =
    quiet-last (fail_at state now).next later rest ∙ ground arith

-- Two publication failures that are logged, with failures between them that are not, are at least
-- thirty seconds apart.
pub logged_apart :
    (state : FailureState) (first second : ℕ) (between : List ℕ)
    → (fail_at state first).should_log ≡ true
    → AllQuiet (fail_at state first).next between
    → (fail_at (fail_all (fail_at state first).next between) second).should_log ≡ true
    → first + log_throttle_ms ≤ second
unfolding decide_failure
logged_apart state first second between logged quiet again =
    let last : (fail_all (fail_at state first).next between).last_log_at ≡ first =
      quiet-last (fail_at state first).next between quiet ∙ ground arith in
    ground arith
