-- ===== src/Daemon/Uploads.antt =====
-- The decisions on encrypted uploads: apps/bridge/src/e2e/upload-decisions.ts.
use ariava.Prelude.{
  ℕ, ◌+◌, String, ◌≡◌, ◌≢◌, refl, ◌↔◌, ◌⊎◌, inl, inr, Bool, true, false, not, ◌&&◌, ◌||◌, Option,
  none, some, ◌==◌, ◌!=◌, if◌then◌else◌, string_eq, nat_eq, arith, Bool-cases,
}

abbrev pub recipient_set_changed_reason : String
recipient_set_changed_reason = "e2e_recipient_set_changed"

-- A failure category by its text; `recipient-set` is the one that the decision itself gives.
pub data SessionDecision : Type 0 where
  commit : (accepted_revision : ℕ) → SessionDecision
  reconcile : SessionDecision
  refresh_reencrypt retry_next_revision : (revision : ℕ) → SessionDecision
  defer : (reason : String) → SessionDecision
  fail_closed : SessionDecision

pub data EventDecision : Type 0 where
  complete reconcile_event refresh_session_and_reencrypt : EventDecision
  quarantine defer_event : (category : String) → EventDecision

pub record SessionInput : Type 0 where
  pub publish_succeeded : Bool
  pub conflict_reason : Option String
  pub reconcile_committed : Option Bool
  pub attempted_recipient_version : ℕ
  pub refreshed_recipient_version : Option ℕ
  pub current_revision : ℕ
  pub same_version_commit_retry_exhausted : Bool
  pub failure_category : String

pub record EventInput : Type 0 where
  pub publish_succeeded : Bool
  pub conflict_reason : Option String
  pub reconcile_committed : Option Bool
  pub permanent_event_conflict : Bool
  pub recipient_refresh_exhausted : Bool
  pub failure_category : String

-- The part of `decideSessionUpload` on a changed recipient set.
pub decide_changed_set : SessionInput → Bool → Option ℕ → SessionDecision
decide_changed_set input committed none = defer "recipient-set"
decide_changed_set input committed (some refreshed) =
    if refreshed == input.attempted_recipient_version
      && (not committed || input.same_version_commit_retry_exhausted)
    then fail_closed
    else if committed
    then retry_next_revision (input.current_revision + 1)
    else refresh_reencrypt input.current_revision

pub decide_session_conflict : SessionInput → Option String → Option Bool → SessionDecision
unfolding decide_changed_set
decide_session_conflict input none committed = defer input.failure_category
decide_session_conflict input (some reason) none = reconcile
decide_session_conflict input (some reason) (some committed) =
    if reason != recipient_set_changed_reason
    then if committed then commit input.current_revision else defer input.failure_category
    else decide_changed_set input committed input.refreshed_recipient_version

pub decide_session_upload : SessionInput → SessionDecision
unfolding decide_session_conflict
decide_session_upload input =
    if input.publish_succeeded
    then commit input.current_revision
    else decide_session_conflict input input.conflict_reason input.reconcile_committed

pub decide_event_conflict : EventInput → Option String → Option Bool → EventDecision
decide_event_conflict input none committed = defer_event input.failure_category
decide_event_conflict input (some reason) none = reconcile_event
decide_event_conflict input (some reason) (some committed) =
    if committed
    then complete
    else if reason == recipient_set_changed_reason
    then if input.recipient_refresh_exhausted
      then defer_event input.failure_category
      else refresh_session_and_reencrypt
    else if input.permanent_event_conflict
    then quarantine input.failure_category
    else defer_event input.failure_category

pub decide_event_upload : EventInput → EventDecision
unfolding decide_event_conflict
decide_event_upload input =
    if input.publish_succeeded
    then complete
    else decide_event_conflict input input.conflict_reason input.reconcile_committed

-- What each decision to go on needs: another recipient set than the attempted one, or, once, the
-- proof that the attempted revision was committed.
abbrev pub Progresses : SessionInput → SessionDecision → Type 0
Progresses input (refresh_reencrypt revision) =
    (revision ≡ input.current_revision)
    × (input.reconcile_committed ≡ some false)
    × (input.refreshed_recipient_version ≢ some input.attempted_recipient_version)
Progresses input (retry_next_revision revision) =
    (revision ≡ input.current_revision + 1)
    × (input.reconcile_committed ≡ some true)
    × ((input.refreshed_recipient_version ≢ some input.attempted_recipient_version)
        ⊎ (input.same_version_commit_retry_exhausted ≡ false))
Progresses input (commit revision) =
    (revision ≡ input.current_revision)
    × ((input.publish_succeeded ≡ true) ⊎ (input.reconcile_committed ≡ some true))
Progresses input _ = Unit

new_set :
    (input : SessionInput) (refreshed : ℕ)
    → input.refreshed_recipient_version ≡ some refreshed
    → (refreshed == input.attempted_recipient_version) ≡ false
    → input.refreshed_recipient_version ≢ some input.attempted_recipient_version
new_set input refreshed got other same =
    let equal : refreshed ≡ input.attempted_recipient_version = ground arith in ground arith

new_set_or_once :
    (input : SessionInput) (refreshed : ℕ)
    → input.refreshed_recipient_version ≡ some refreshed
    → (refreshed == input.attempted_recipient_version && input.same_version_commit_retry_exhausted)
      ≡ false
    → (input.refreshed_recipient_version ≢ some input.attempted_recipient_version)
      ⊎ (input.same_version_commit_retry_exhausted ≡ false)
new_set_or_once input refreshed got goes_on =
    elim (Bool-cases (refreshed == input.attempted_recipient_version)) [
      | inl same ↦ inr (ground arith)
      | inr other ↦ inl (new_set input refreshed got other)
    ]

settled :
    (input : SessionInput) (committed : Bool)
    → input.reconcile_committed ≡ some committed
    → Progresses input
        (if committed then commit input.current_revision else defer input.failure_category)
settled input true has = (refl, inr has)
settled input false has = tt

changed-Progresses :
    (input : SessionInput) (committed : Bool) (refreshed : Option ℕ)
    → input.reconcile_committed ≡ some committed
    → input.refreshed_recipient_version ≡ refreshed
    → Progresses input (decide_changed_set input committed refreshed)
unfolding decide_changed_set
changed-Progresses input committed none has got = tt
changed-Progresses input true (some refreshed) has got =
    elim (Bool-cases (
      refreshed == input.attempted_recipient_version
      && input.same_version_commit_retry_exhausted)) [
        | inl stuck ↦ rw stuck tt
        | inr goes_on ↦ rw goes_on (refl, has, new_set_or_once input refreshed got goes_on)
      ]
changed-Progresses input false (some refreshed) has got =
    elim (Bool-cases (refreshed == input.attempted_recipient_version)) [
      | inl same ↦ rw same tt
      | inr other ↦ rw other (refl, has, new_set input refreshed got other)
    ]

conflict-Progresses :
    (input : SessionInput) (reason : Option String) (committed : Option Bool)
    → input.reconcile_committed ≡ committed
    → Progresses input (decide_session_conflict input reason committed)
unfolding decide_session_conflict
conflict-Progresses input none none has = tt
conflict-Progresses input none (some committed) has = tt
conflict-Progresses input (some reason) none has = tt
conflict-Progresses input (some reason) (some committed) has =
    elim (Bool-cases (reason != recipient_set_changed_reason)) [
      | inl other ↦ rw other (settled input committed has)
      | inr changed ↦ rw changed (changed-Progresses input committed _ has refl)
    ]

published-Progresses :
    (input : SessionInput) (published : Bool)
    → input.publish_succeeded ≡ published
    → Progresses input (
        if published
        then commit input.current_revision
        else decide_session_conflict input input.conflict_reason input.reconcile_committed)
published-Progresses input true h = (refl, inl h)
published-Progresses input false h =
    conflict-Progresses input input.conflict_reason input.reconcile_committed refl

-- Whatever the outcome of an attempt is, a session upload that is committed was published or proved
-- committed, one that is encrypted again has a recipient set other than the attempted one and was
-- not committed, and one that goes on to the next revision was committed and has another recipient
-- set or no such retry behind it.
pub decide_session_upload-Progresses :
    (input : SessionInput) → Progresses input (decide_session_upload input)
unfolding decide_session_upload
decide_session_upload-Progresses input = published-Progresses input input.publish_succeeded refl

event_completed :
    (input : EventInput) (published : Bool) (reason : Option String) (committed : Option Bool)
    → ((if published then complete else decide_event_conflict input reason committed) ≡ complete)
      ↔ ((published ≡ true) ⊎ ((reason ≢ none) × (committed ≡ some true)))
unfolding decide_event_conflict
event_completed input true reason committed = (λ h. inl refl, λ h. refl)
event_completed input false none none = ground arith
event_completed input false none (some c) = ground arith
event_completed input false (some r) none = ground arith
event_completed input false (some r) (some true) = (λ h. inr (λ p. cc, refl), λ h. refl)
event_completed input false (some r) (some false) = ground arith

-- An event upload is complete exactly when it was published, or a conflict was reconciled to a
-- commit.
pub decide_event_upload-complete_iff :
    (input : EventInput)
    → (decide_event_upload input ≡ complete) ↔ (
        (input.publish_succeeded ≡ true)
        ⊎ ((input.conflict_reason ≢ none) × (input.reconcile_committed ≡ some true)))
unfolding decide_event_upload
decide_event_upload-complete_iff input =
    event_completed input input.publish_succeeded input.conflict_reason input.reconcile_committed
