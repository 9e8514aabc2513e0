-- ===== src/Adapter/Registry/Owner.antt =====
-- Who owns a session: registration, leases that run out, heartbeats and the loss of ownership,
-- apps/bridge/src/agent-adapter/registry.ts. `now` is the clock, `monotonic` the monotonic one, and
-- `fresh_lease` the lease that is drawn.
use ariava.Prelude.{
  ℕ, ◌-◌, String, Bool, true, false, not, ◌&&◌, ◌||◌, Option, none, some, [], ◌∷◌, ◌++◌,
  if◌then◌else◌, ltb, ◌==◌, ◌!=◌, string_eq, option_eq, pair_eq, nat_eq,
}
use ariava.Prelude.Dict.{Dict, lookup, insert, remove}
use ariava.Store.State.{Timestamp, SessionStatus, need_human, status_eq, CanonicalSession}
use ariava.Adapter.{
  SessionFields, RegisteredSession, PendingTerminal, MutationReason, semantic, ttl,
  owner_lease_ttl_ms,
}
use ariava.Adapter.Codec.{is_missing}
use ariava.Adapter.Registration.{Cancellation, HeartbeatInput, reduce_heartbeat}
use ariava.Adapter.Plan.{to_canonical_session_state}
use ariava.Adapter.Registry.{Registry, StateStore, Binding, mutated}
use ariava.Adapter.Registry.Action.{Action, pure, fail, ◌>>◌, modify, reading, emit, write, when_}
use ariava.Adapter.Registry.Terminal.{no_options, cancel_terminal_retry}
use ariava.Adapter.Registry.Queue.{settle_result_waiters, add_id}

-- `monotonicNow - session.lastOwnerLeaseMonotonic > OWNER_LEASE_TTL_MS`
unfoldable pub has_expired : ℕ → RegisteredSession → Bool
has_expired monotonic session =
    ltb owner_lease_ttl_ms (monotonic - session.last_owner_lease_monotonic)

-- `throw` of assertNeedHumanHasLastEventId; the size limit of the protected content is a test of the
-- protocol's, the parameter `fits`.
unfoldable pub needs_event : SessionFields → Bool
needs_event session = session.status == need_human && is_missing session.last_event_id

module _ {S : Type 0} where
  -- `this.sessions.set(sessionId, session)`
  unfoldable pub set_session : String → RegisteredSession → Action S (Unit {0})
  set_session session_id session =
      modify (λ r. record r { sessions = insert r.sessions session_id session })

module _ {S : Type 0} (store : StateStore S) (now : Timestamp) where
  -- One command of the session: its outcome is marked unknown if the store can, and its waits end.
  unfoldable pub orphan : String → Registry S → Registry S
  orphan command_id r =
      let settled = settle_result_waiters command_id none r in
      record settled {
        store = (store.mark_outcome_unknown r.store command_id).next;
        orphaned_command_ids = add_id r.orphaned_command_ids command_id;
        command_sessions = remove r.command_sessions command_id;
      }

  unfoldable pub orphan_all : String → Dict Binding → Registry S → Registry S
  orphan_all session_id [] r = r
  orphan_all session_id ((command_id, binding) ∷ bindings) r =
      orphan_all session_id bindings
        (if binding.session_id == session_id then orphan command_id r else r)

  -- The durable part: the terminal event is cancelled, or the session is removed.
  unfoldable pub withdraw :
      String → Option PendingTerminal → Option Cancellation → Action S (Unit {0})
  withdraw session_id none none =
      reading (λ r. store.get_driver_name r.store session_id)
        λ driver. write (λ s. store.remove_session s session_id driver)
  withdraw session_id (some pending) persisted =
      cancel_terminal_retry store now session_id
        (record no_options { remove_session = true; persisted_cancellation = persisted })
  withdraw session_id none (some persisted) =
      cancel_terminal_retry store now session_id
        (record no_options { remove_session = true; persisted_cancellation = some persisted })

  -- The live part.
  unfoldable pub drop_live : String → MutationReason → Registry S → Registry S
  drop_live session_id reason r =
      let orphaned = orphan_all session_id r.command_sessions r in
      record orphaned {
        command_queues = remove orphaned.command_queues session_id;
        in_flight_commands = remove orphaned.in_flight_commands session_id;
        sessions = remove orphaned.sessions session_id;
        effects = orphaned.effects ++ (mutated reason ∷ []);
      }

  unfoldable pub lose_ownership : String → MutationReason → Action S (Unit {0})
  lose_ownership session_id reason = do
    reading
        (λ r.
          (lookup r.delayed_terminal_events session_id, store.get_cancellation r.store session_id))
        (λ (pending, persisted). withdraw session_id pending persisted)
    modify (drop_live session_id reason)

  unfoldable pub unregister_live :
      String → MutationReason → Option RegisteredSession → Action S Bool
  unregister_live session_id reason none = pure false
  unregister_live session_id reason (some session) = do
    lose_ownership session.fields.session_id reason
    pure true

  -- `unregister`
  unfoldable pub unregister_session : String → MutationReason → Action S Bool
  unregister_session session_id reason =
      reading (λ r. lookup r.sessions session_id) (unregister_live session_id reason)

  unfoldable pub assert_owner :
      ℕ → String → String → String → Option RegisteredSession → Action S (Unit {0})
  assert_owner monotonic session_id driver_instance_id owner_lease none = fail "session_not_found"
  assert_owner monotonic session_id driver_instance_id owner_lease (some session) =
      if has_expired monotonic session
      then lose_ownership session.fields.session_id ttl >> fail "stale_owner"
      else if session.driver_instance_id != driver_instance_id || session.owner_lease != owner_lease
      then fail "stale_owner"
      else pure tt

  unfoldable pub assert_current_owner : ℕ → String → String → String → Action S (Unit {0})
  assert_current_owner monotonic session_id driver_instance_id owner_lease =
      reading (λ r. lookup r.sessions session_id)
        (assert_owner monotonic session_id driver_instance_id owner_lease)

  module _ (fits : CanonicalSession → Bool) where
    -- Both assertions on a session that is about to be stored.
    unfoldable pub assert_storable : SessionFields → Action S (Unit {0})
    assert_storable session =
        if not (fits (to_canonical_session_state session))
        then fail "protected-session-invalid"
        else if needs_event session
        then fail "terminal-session-event-missing"
        else pure tt

    unfoldable pub is_deferred : SessionStatus → RegisteredSession → Option PendingTerminal → Bool
    is_deferred status session none = false
    is_deferred status session (some pending) =
        pending.session.status == status && status != session.fields.status

    unfoldable pub beat :
        ℕ → String → HeartbeatInput → RegisteredSession → Action S (Option RegisteredSession)
    beat monotonic session_id input session = do
      let transition = reduce_heartbeat session.fields input now
      assert_storable transition.next_session
      when_ transition.context_changed (cancel_terminal_retry store now session_id no_options)
      when_ transition.semantic_changed (emit (mutated semantic))
      let next = record session {
        fields = transition.next_session;
        last_owner_lease_monotonic = monotonic;
      }
      set_session session_id next
      pure (some next)

    unfoldable pub beat_live :
        ℕ → String → HeartbeatInput → Option RegisteredSession → Action S (Option RegisteredSession)
    beat_live monotonic session_id input none = pure none
    beat_live monotonic session_id input (some session) =
        reading
          (λ r. is_deferred input.status session (lookup r.delayed_terminal_events session_id))
          λ deferred.
            beat monotonic session_id
              (if deferred then record input { status = session.fields.status } else input) session

    unfoldable pub heartbeat : ℕ → String → HeartbeatInput → Action S (Option RegisteredSession)
    heartbeat monotonic session_id input =
        reading (λ r. lookup r.sessions session_id) (beat_live monotonic session_id input)
