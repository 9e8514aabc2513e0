-- ===== src/Adapter/Registration.antt =====
-- Registrations and heartbeats: apps/bridge/src/agent-adapter/session-transitions.ts.
pub mod Renewal
use ariava.Prelude.{
  String, Bool, true, false, not, ◌&&◌, ◌||◌, Option, none, some, ◌==◌, ◌!=◌, if◌then◌else◌, Eq,
  string_eq, nat_eq, option_eq, pair_eq,
}
use ariava.Store.State.{Timestamp, SessionStatus, idle, CanonicalSession, Reservation, status_eq}
use ariava.Adapter.{SessionFields, RegisteredSession, RegisterInput}
use ariava.Adapter.Codec.{
  or_else, Context, producer_context, canonical_context, normalized_owner, same_owner, Semantic,
  semantic_fingerprint,
}

pub record Cancellation : Type 0 where
  pub event_id : String
  pub fingerprint : String

pub record Evidence : Type 0 where
  pub previous_live : Option SessionFields
  pub persisted_session : Option CanonicalSession
  pub terminal_cancellation : Option Cancellation

pub data Authorization : Type 0 where
  authorized : Authorization
  collision : (session_id : String) → Authorization

abbrev owns : Option (String × String) → String × String → Bool
owns none requested = true
owns (some owner) requested = same_owner owner requested

unfoldable pub authorize_registration :
    Option SessionFields → Option CanonicalSession → RegisterInput → Authorization
authorize_registration previous_live persisted_session input =
    let requested = normalized_owner input.provider input.harness_provider in
    if not (owns (live_owner previous_live) requested)
      || not (owns (persisted_owner persisted_session) requested)
    then collision input.session_id
    else authorized
  where
    live_owner : Option SessionFields → Option (String × String)
    live_owner none = none
    live_owner (some s) = some (normalized_owner s.provider s.harness_provider)

    persisted_owner : Option CanonicalSession → Option (String × String)
    persisted_owner none = none
    persisted_owner (some s) = some (normalized_owner s.provider s.harness_provider)

pub data Persistence : Type 0 where
  durable_cancel_terminal :
      (next_driver_name : String) → (persisted_cancellation : Cancellation) → Persistence
  durable_set_session_driver : Persistence

pub record RegistrationTransition : Type 0 where
  pub next_session : SessionFields
  pub semantic_changed : Bool
  pub context_changed : Bool
  pub persistence : Persistence

abbrev pub requested_context : RegisterInput → Context
requested_context input =
    (input.project_name, (input.cwd, or_else input.harness_provider input.provider))

-- `inheritedLastEventId`: a session that is live decides over the persisted one.
unfoldable pub inherited_last_event_id :
    Option SessionFields → Option CanonicalSession → Context → SessionStatus → Option String
inherited_last_event_id (some previous) persisted context status =
    if producer_context previous == context && previous.status == status
    then previous.last_event_id
    else none
inherited_last_event_id none (some persisted) context status =
    if canonical_context persisted == context && persisted.status == status
    then persisted.last_event_id
    else none
inherited_last_event_id none none context status = none

-- `!previous || semanticFingerprint(previous) !== semanticFingerprint(nextSession)`
unfoldable pub is_semantic_change : Option SessionFields → SessionFields → Bool
is_semantic_change none next = true
is_semantic_change (some previous) next = semantic_fingerprint previous != semantic_fingerprint next

unfoldable pub is_context_change : Option SessionFields → SessionFields → Bool
is_context_change none next = false
is_context_change (some previous) next = producer_context previous != producer_context next

unfoldable pub is_persisted_change : Option SessionFields → Option CanonicalSession → Context → Bool
is_persisted_change (some previous) persisted context = false
is_persisted_change none none context = false
is_persisted_change none (some persisted) context = canonical_context persisted != context

-- `previous?.registeredAt ?? now`, `previous?.semanticUpdatedAt ?? now`
abbrev pub since : Option SessionFields → (SessionFields → Timestamp) → Timestamp → Timestamp
since none time now = now
since (some previous) time now = time previous

unfoldable pub route : Bool → String → Option Cancellation → Persistence
route changed provider none = durable_set_session_driver
route true provider (some cancellation) = durable_cancel_terminal provider cancellation
route false provider (some cancellation) = durable_set_session_driver

unfoldable pub registered_fields :
    Option SessionFields
    → Option CanonicalSession
    → RegisterInput
    → String
    → Timestamp
    → SessionFields
unfolding inherited_last_event_id
registered_fields previous persisted input host_id now = record {
  session_id = input.session_id;
  provider = input.provider;
  project_name = input.project_name;
  cwd = input.cwd;
  name_text = input.name_text;
  opening_text = input.opening_text;
  latest_activity_text = input.latest_activity_text;
  harness_provider = input.harness_provider;
  pid = input.pid;
  host_id = host_id;
  registered_at = since previous (λ s. s.registered_at) now;
  last_heartbeat_at = now;
  status = or_else input.status idle;
  semantic_updated_at = since previous (λ s. s.semantic_updated_at) now;
  last_event_id =
      inherited_last_event_id previous persisted (requested_context input)
        (or_else input.status idle);
}

unfoldable pub reduce_registration :
    Evidence → RegisterInput → String → Timestamp → RegistrationTransition
reduce_registration evidence input host_id now =
    let previous = evidence.previous_live in
    let persisted = evidence.persisted_session in
    let next = registered_fields previous persisted input host_id now in
    let semantic_changed = is_semantic_change previous next in
    let context_changed = is_context_change previous next in
    record {
      next_session = if semantic_changed then record next { semantic_updated_at = now } else next;
      semantic_changed = semantic_changed;
      context_changed = context_changed;
      persistence =
          route
            (context_changed || is_persisted_change previous persisted (requested_context input))
            input.provider evidence.terminal_cancellation;
    }

-- An optional field that may be null: absent, null, or a text.
pub data Patch : Type 0 where
  absent : Patch
  null : Patch
  text : String → Patch

abbrev pub patch : Patch → Option String → Option String
patch absent old = old
patch null old = none
patch (text t) old = some t

pub record HeartbeatInput : Type 0 where
  pub status : SessionStatus
  pub latest_activity_text : Patch
  pub opening_text : Patch
  pub project_name : Option String
  pub name_text : Option String

pub record HeartbeatTransition : Type 0 where
  pub next_session : SessionFields
  pub semantic_changed : Bool
  pub context_changed : Bool

unfoldable pub beaten_fields : SessionFields → HeartbeatInput → Timestamp → SessionFields
beaten_fields session input now = record session {
  last_heartbeat_at = now;
  status = input.status;
  latest_activity_text = patch input.latest_activity_text session.latest_activity_text;
  opening_text = patch input.opening_text session.opening_text;
  project_name = or_else input.project_name session.project_name;
  name_text = or_else input.name_text session.name_text;
}

unfoldable pub reduce_heartbeat : SessionFields → HeartbeatInput → Timestamp → HeartbeatTransition
unfolding beaten_fields
reduce_heartbeat session input now =
    let next = beaten_fields session input now in
    let semantic_changed = semantic_fingerprint next != semantic_fingerprint session in
    record {
      next_session = if semantic_changed then record next { semantic_updated_at = now } else next;
      semantic_changed = semantic_changed;
      context_changed = producer_context next != producer_context session;
    }
