-- ===== src/Daemon/Tests.antt =====
-- The daemon's decisions on concrete inputs: apps/bridge/src/daemon/snapshot-policy.ts and
-- apps/bridge/src/e2e/upload-decisions.ts.
use ariava.Prelude.{◌≡◌, refl, ◌≤◌, ◌+◌, some, [], ◌∷◌, true, false, leb, if◌then◌else◌}
use ariava.Daemon.Snapshots.{
  initial_failure_state, publication_failure, decide_failure, succeeds, fails, report_all,
  failures_since_success, recover_pipeline, retry, escalates, log_throttle_ms, fail_at, fail_all,
  logged_apart,
}
use ariava.Daemon.Uploads.{
  SessionInput, EventInput, Progresses, decide_session_upload, decide_session_upload-Progresses,
}

escalates_example :
    (decide_failure
      (report_all initial_failure_state
        (fails (publication_failure 90000) ∷ succeeds ∷ fails (publication_failure 50000) ∷ []))
      (publication_failure 130000)).action
    ≡ (if leb 1 (
          failures_since_success
            (fails (publication_failure 90000) ∷ succeeds ∷ fails (publication_failure 50000) ∷ []))
        then recover_pipeline
        else retry)
escalates_example =
    escalates
      (fails (publication_failure 90000) ∷ succeeds ∷ fails (publication_failure 50000) ∷ []) 130000

first_logged : (fail_at initial_failure_state 50000).should_log ≡ true
unfolding decide_failure
first_logged = refl

second_quiet : (fail_at (fail_at initial_failure_state 50000).next 60000).should_log ≡ false
unfolding decide_failure
second_quiet = refl

third_logged :
    (fail_at (fail_all (fail_at initial_failure_state 50000).next (60000 ∷ [])) 80000).should_log
    ≡ true
unfolding decide_failure
third_logged = refl

logged_apart_example : 50000 + log_throttle_ms ≤ 80000
logged_apart_example =
    logged_apart initial_failure_state 50000 80000 (60000 ∷ []) first_logged (second_quiet, tt)
      third_logged

abbrev changed_set : SessionInput
changed_set = record {
  publish_succeeded = false;
  conflict_reason = some "e2e_recipient_set_changed";
  reconcile_committed = some true;
  attempted_recipient_version = 3;
  refreshed_recipient_version = some 4;
  current_revision = 7;
  same_version_commit_retry_exhausted = false;
  failure_category = "conflict";
}

decide_session_upload-Progresses_example :
    Progresses changed_set (decide_session_upload changed_set)
decide_session_upload-Progresses_example = decide_session_upload-Progresses changed_set

abbrev reconciled_event : EventInput
reconciled_event = record {
  publish_succeeded = false;
  conflict_reason = some "event_exists";
  reconcile_committed = some true;
  permanent_event_conflict = false;
  recipient_refresh_exhausted = false;
  failure_category = "conflict";
}
