-- ===== src/Adapter/Registry/Slots/Others.antt =====
-- The calls that concern no single session, and those that only answer.
use ariava.Prelude.{
  ℕ, String, Bool, true, false, ◌≡◌, refl, ◌∙◌, Option, none, some, List, [], ◌∷◌, ◌==◌, string_eq,
  arith,
}
use ariava.Prelude.Dict.{Dict, lookup, keys, remove, lookup-remove_ne}
use ariava.Store.State.{Timestamp, CanonicalSession, CommandResult, PendingHandle}
use ariava.Adapter.{RegisteredSession, ttl, handle}
use ariava.Adapter.Registry.{Registry, StateStore, mutated}
use ariava.Adapter.Registry.Action.{Action, Ran, pure, fail, ◌>>◌, emit, write}
use ariava.Adapter.Registry.Terminal.{flush_delayed_terminal_event, retry_timer_fires}
use ariava.Adapter.Registry.Queue.{
  poll_times_out, cancel_command_polls, wait_for_result, wait_unless, wait_times_out,
  settle_result_waiters,
}
use ariava.Adapter.Registry.Owner.{has_expired, unregister_session}
use ariava.Adapter.Registry.Listing.{
  collect_active, settle_all, stop_retries, dispose_live, dispose, HandleRequest, handle_of,
  queue_handle, handle_live,
}
use ariava.Adapter.Registry.Slots.{
  slot, Waits, Frames-Waits, if-elim, bind-keep, ready-held, kept-owned,
}
use ariava.Adapter.Registry.Slots.Retries.{flush-Frames}
use ariava.Adapter.Registry.Slots.Ready.{flush-Ready}
use ariava.Adapter.Registry.Slots.Queues.{flush-queues}
use ariava.Adapter.Registry.Slots.Owners.{unregister-Waits}
use ariava.Adapter.Registry.Calls.{done_with}

module _ {S : Type 0} (store : StateStore S) where
  pub flush-Waits :
      (now : Timestamp) (i : String) (r : Registry S)
      → Waits r
      → Waits (flush_delayed_terminal_event store now i r).registry
  flush-Waits now i r waits =
      Frames-Waits i r (flush_delayed_terminal_event store now i r).registry
        (flush-Frames store now i r) (flush-Ready store now i r (ready-held (slot r i) (waits i).0))
        (kept-owned i r (flush_delayed_terminal_event store now i r).registry
          (flush-queues store now i r) waits)
        waits

  abbrev disarm : String → Registry S → Registry S
  disarm i r = record r { terminal_retry_timers = remove r.terminal_retry_timers i }

  flushed-done :
      (now : Timestamp) (i : String) (r : Registry S) (P : Registry S → Type 0)
      → P (flush_delayed_terminal_event store now i r).registry
      → P (done_with (flush_delayed_terminal_event store now i) r).registry
  flushed-done now i r P kept =
      bind-keep P (flush_delayed_terminal_event store now i) (λ event_id. pure tt) r kept
        (λ event_id kept. kept)

  disarm-slot :
      (i : String) (r : Registry S) (j : String) → (i == j) ≡ false → slot (disarm i r) j ≡ slot r j
  disarm-slot i r j other = rw (lookup-remove_ne r.terminal_retry_timers i j other) refl

  pub retry-Waits :
      (now : Timestamp) (i : String) (r : Registry S)
      → Waits r
      → Waits (retry_timer_fires store now i r).registry
  unfolding retry_timer_fires
  retry-Waits now i r waits =
      if-elim (λ (ran : Ran S (Unit {0})). Waits ran.registry) r.disposed (pure tt (disarm i r))
        (done_with (flush_delayed_terminal_event store now i) (disarm i r))
        (λ ended. Frames-Waits i r (disarm i r) (disarm-slot i r) (ground arith) (waits i).1 waits)
        λ live. flushed-done now i (disarm i r) Waits (
          Frames-Waits i r (flush_delayed_terminal_event store now i (disarm i r)).registry
            (λ j other. flush-Frames store now i (disarm i r) j other ∙ disarm-slot i r j other)
            (flush-Ready store now i (disarm i r) (ready-held (slot r i) (waits i).0))
            (kept-owned i r (flush_delayed_terminal_event store now i (disarm i r)).registry
              (flush-queues store now i (disarm i r)) waits)
            waits)

  pub unregistered-Waits :
      (now : Timestamp) (monotonic : ℕ) (sessions : Dict RegisteredSession)
      (active : List CanonicalSession) (r : Registry S)
      → Waits r
      → Waits (collect_active store now monotonic sessions active r).registry
  unfolding collect_active
  unregistered-Waits now monotonic [] active r waits = waits
  unregistered-Waits now monotonic ((i, session) ∷ sessions) active r waits =
      if-elim (λ (m : Action S (List CanonicalSession)). Waits (m r).registry)
        (has_expired monotonic session) _ _
        (λ h.
          bind-keep Waits (unregister_session store now session.fields.session_id ttl) _ r
            (unregister-Waits store now session.fields.session_id ttl r waits)
            λ done kept. unregistered-Waits now monotonic sessions active _ kept)
        (λ h. unregistered-Waits now monotonic sessions _ r waits)

  queued-Waits :
      (now : Timestamp) (is_blank : String → Bool) (pending : PendingHandle) (r : Registry S)
      → Waits r
      → Waits (queue_handle store now 0 is_blank pending r).registry
  unfolding queue_handle
  queued-Waits now is_blank pending r waits =
      bind-keep {B = String} Waits (write (λ s. store.queue_pending_handle s pending))
        (λ done. emit (mutated handle) >> pure pending.handled_through_event_id) r waits
        (λ done kept. kept)

  pub handled-Waits :
      (now : Timestamp) (is_blank : String → Bool) (i : String) (request : HandleRequest)
      (session : Option RegisteredSession) (r : Registry S)
      → Waits r
      → Waits (handle_live store now 0 is_blank i request session r).registry
  unfolding handle_live
  handled-Waits now is_blank i request none r waits = waits
  handled-Waits now is_blank i request (some session) r waits =
      if-elim (λ (m : Action S String). Waits (m r).registry)
        (is_blank request.handled_through_event_id) (fail "handledThroughEventId is required")
        (queue_handle store now 0 is_blank (handle_of store now 0 is_blank i request session))
        (λ h. waits) (λ h. queued-Waits now is_blank _ r waits)

  pub poll_ends-Waits :
      (waiter : ℕ) (i : String) (r : Registry S)
      → Waits r
      → Waits (poll_times_out waiter i r).registry
  unfolding poll_times_out
  poll_ends-Waits waiter i r waits =
      if-elim (λ (ran : Ran S (Unit {0})). Waits ran.registry) _ _ (pure tt r) (λ h. waits)
        (λ h. waits)

  pub cancels-Waits :
      (i : Option String) (r : Registry S) → Waits r → Waits (cancel_command_polls i r)
  unfolding cancel_command_polls
  cancels-Waits none r waits = waits
  cancels-Waits (some i) r waits = waits

  unless-Waits :
      (waiter : ℕ) (command_id : String) (result : Option CommandResult) (r : Registry S)
      → Waits r
      → Waits (wait_unless waiter command_id result r)
  unfolding wait_unless
  unless-Waits waiter command_id none r waits = waits
  unless-Waits waiter command_id (some result) r waits = waits

  pub awaits-Waits :
      (waiter : ℕ) (command_id : String) (r : Registry S)
      → Waits r
      → Waits (wait_for_result waiter command_id r)
  unfolding wait_for_result
  awaits-Waits waiter command_id r waits =
      if-elim (λ (x : Registry S). Waits x) r.disposed _ _ (λ h. waits)
        (λ h. unless-Waits waiter command_id (lookup r.results command_id) r waits)

  pub await_ends-Waits :
      (waiter : ℕ) (command_id : String) (r : Registry S)
      → Waits r
      → Waits (wait_times_out waiter command_id r)
  unfolding wait_times_out
  await_ends-Waits waiter command_id r waits = if-elim Waits _ _ r (λ h. waits) (λ h. waits)

  settle_all-disposed :
      (ids : List String) (r : Registry S) → (settle_all ids r).disposed ≡ r.disposed
  unfolding settle_all settle_result_waiters
  settle_all-disposed [] r = refl
  settle_all-disposed (id ∷ ids) r = settle_all-disposed ids (settle_result_waiters id none r)

  -- Nothing waits in a registry that has ended.
  ended-Waits : (r : Registry S) → r.disposed ≡ true → r.command_queues ≡ [] → Waits r
  unfolding lookup
  ended-Waits r ended empty j = (ground arith, rw empty refl)

  live-Waits : (r : Registry S) → Waits (dispose_live r)
  unfolding dispose_live cancel_command_polls stop_retries
  live-Waits r =
      ended-Waits (dispose_live r)
        (settle_all-disposed (keys r.result_waiters) (cancel_command_polls none (stop_retries r)))
        refl

  pub dispose-Waits : (r : Registry S) → Waits r → Waits (dispose r)
  unfolding dispose
  dispose-Waits r waits =
      if-elim (λ (x : Registry S). Waits x) r.disposed r (dispose_live r) (λ h. waits)
        (λ h. live-Waits r)
