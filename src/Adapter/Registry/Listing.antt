-- ===== src/Adapter/Registry/Listing.antt =====
-- The sessions that are live, handled sessions, and the end of the registry,
-- apps/bridge/src/agent-adapter/registry.ts. `is_blank` is the test for a text without content.
use ariava.Prelude.{
  ℕ, String, Bool, true, ◌||◌, Option, none, some, List, [], ◌∷◌, ◌++◌, map, all, if◌then◌else◌,
  ltb,
}
use ariava.Prelude.Sorting.{sort_by}
use ariava.Prelude.Dict.{Dict, lookup, keys, has_key}
use ariava.Store.State.{Timestamp, CanonicalSession, HandleAction, PendingHandle}
use ariava.Adapter.{RegisteredSession, handle, ttl}
use ariava.Adapter.Codec.{or_else}
use ariava.Adapter.Plan.{to_canonical_session_state}
use ariava.Adapter.Registry.{Registry, StateStore, mutated, cancelled}
use ariava.Adapter.Registry.Action.{Action, pure, fail, ◌>>=◌, ◌>>◌, reading, emit, write}
use ariava.Adapter.Registry.Queue.{cancel_command_polls, settle_result_waiters}
use ariava.Adapter.Registry.Owner.{has_expired, unregister_session}

pub record HandleRequest : Type 0 where
  pub handled_through_event_id : String
  pub handled_through_event_created_at : Option Timestamp
  pub handled_at : Option Timestamp
  pub action : HandleAction

module _ {S : Type 0} (store : StateStore S) (now : Timestamp) (monotonic : ℕ) where
  -- The loop over the sessions: an expired one is unregistered, the others are listed.
  unfoldable pub collect_active :
      Dict RegisteredSession → List CanonicalSession → Action S (List CanonicalSession)
  collect_active [] active = pure active
  collect_active ((session_id, session) ∷ sessions) active =
      if has_expired monotonic session
      then unregister_session store now session.fields.session_id ttl
        >>= (λ unregistered. collect_active sessions active)
      else collect_active sessions (active ++ (to_canonical_session_state session.fields ∷ []))

  -- Newest first.
  unfoldable pub list_sessions : Action S (List CanonicalSession)
  list_sessions = do
    active ← reading (λ r. r.sessions) (λ sessions. collect_active sessions [])
    pure (sort_by (λ left right. ltb right.updated_at left.updated_at) active)

  -- Every persisted session is live again, or the time for recovery is over.
  unfoldable pub is_authoritative_set_ready :
      (recovery_deadline_ms : ℕ) → Registry S → List CanonicalSession → Bool
  is_authoritative_set_ready recovery_deadline_ms r [] = true
  is_authoritative_set_ready recovery_deadline_ms r (s ∷ persisted) =
      ltb recovery_deadline_ms now || all (λ p. has_key r.sessions p.session_id) (s ∷ persisted)

  module _ (is_blank : String → Bool) where
    unfoldable pub handle_of : String → HandleRequest → RegisteredSession → PendingHandle
    handle_of session_id request session = record {
      host_id = session.fields.host_id;
      session_id = session_id;
      handled_through_event_id = request.handled_through_event_id;
      handled_through_event_created_at = request.handled_through_event_created_at;
      handled_at = or_else request.handled_at now;
      action = request.action;
      updated_at = now;
    }

    unfoldable pub queue_handle : PendingHandle → Action S String
    queue_handle pending = do
      write (λ s. store.queue_pending_handle s pending)
      emit (mutated handle)
      pure pending.handled_through_event_id

    unfoldable pub handle_live : String → HandleRequest → Option RegisteredSession → Action S String
    handle_live session_id request none = fail "Session is not registered"
    handle_live session_id request (some session) =
        if is_blank request.handled_through_event_id
        then fail "handledThroughEventId is required"
        else queue_handle (handle_of session_id request session)

    -- `handleSession`; a time that is no date is no time.
    unfoldable pub handle_session : String → HandleRequest → Action S String
    handle_session session_id request =
        reading (λ r. lookup r.sessions session_id) (handle_live session_id request)

module _ {S : Type 0} where
  unfoldable pub settle_all : List String → Registry S → Registry S
  settle_all [] r = r
  settle_all (command_id ∷ ids) r = settle_all ids (settle_result_waiters command_id none r)

  unfoldable pub stop_retries : Registry S → Registry S
  stop_retries r = record r {
    disposed = true;
    effects = r.effects ++ map cancelled (keys r.terminal_retry_timers);
    terminal_retry_timers = [];
    terminal_retry_attempts = [];
    delayed_terminal_events = [];
  }

  unfoldable pub dispose_live : Registry S → Registry S
  dispose_live r =
      let settled =
        settle_all (keys r.result_waiters) (cancel_command_polls none (stop_retries r)) in
      record settled {
        command_queues = [];
        in_flight_commands = [];
        results = [];
        command_sessions = [];
        orphaned_command_ids = [];
      }

  unfoldable pub dispose : Registry S → Registry S
  dispose r = if r.disposed then r else dispose_live r
