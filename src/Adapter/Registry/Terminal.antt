-- ===== src/Adapter/Registry/Terminal.antt =====
-- The terminal event that a session has staged: its commit, its retries and its cancellation,
-- apps/bridge/src/agent-adapter/registry.ts. `now` is what the clock reads.
use ariava.Prelude.{
  ℕ, zero, suc, ◌+◌, ◌-◌, min, String, Bool, true, false, not, ◌||◌, Option, none, some, List, [],
  ◌∷◌, ◌++◌, if◌then◌else◌, ◌!=◌, string_eq, option_eq, nat_eq, pair_eq, length,
}
use ariava.Prelude.Dict.{lookup, insert, remove, has_key}
use ariava.Store.State.{Timestamp, CanonicalSession, status_eq}
use ariava.Adapter.{RegisteredSession, PendingTerminal, semantic, terminal_retry_delays_ms}
use ariava.Adapter.Codec.{or_else, input_of, semantic_fingerprint}
use ariava.Adapter.Registration.{Cancellation}
use ariava.Adapter.Registry.{Registry, StateStore, mutated, scheduled, cancelled, committed}
use ariava.Adapter.Registry.Action.{
  Action, pure, fail, ◌>>=◌, ◌>>◌, modify, reading, emit, write, on_throw, catching,
}

-- `(map.get(key)?.length ?? 0) > 0`
abbrev pub is_filled {ℓ} : {A : Type ℓ} → Option (List A) → Bool
is_filled none = false
is_filled (some []) = false
is_filled (some (x ∷ xs)) = true

module _ {S : Type 0} where
  unfoldable pub has_pending_command_work : Registry S → String → Bool
  has_pending_command_work r session_id =
      is_filled (lookup r.command_queues session_id)
      || is_filled (lookup r.in_flight_commands session_id)

-- `delays[Math.min(attempt, delays.length - 1)]`
unfoldable pub element_at : List ℕ → ℕ → ℕ
element_at [] n = 0
element_at (x ∷ xs) zero = x
element_at (x ∷ xs) (suc n) = element_at xs n

unfoldable pub retry_delay_ms : ℕ → ℕ
unfolding element_at
retry_delay_ms attempt =
    element_at terminal_retry_delays_ms (min attempt (length terminal_retry_delays_ms - 1))

pub record CancelOptions : Type 0 where
  pub is_committed : Bool
  pub remove_session : Bool
  pub next_driver_name : Option String
  pub persisted_cancellation : Option Cancellation
  pub replacement_session : Option CanonicalSession

abbrev pub no_options : CancelOptions
no_options = record {
  is_committed = false;
  remove_session = false;
  next_driver_name = none;
  persisted_cancellation = none;
  replacement_session = none;
}

module _ {S : Type 0} (store : StateStore S) (now : Timestamp) where
  -- One retry more: its delay goes by how many there were.
  unfoldable pub arm_retry : String → Registry S → Registry S
  arm_retry session_id r =
      let attempt = or_else (lookup r.terminal_retry_attempts session_id) 0 in
      record r {
        terminal_retry_attempts = insert r.terminal_retry_attempts session_id (attempt + 1);
        terminal_retry_timers = insert r.terminal_retry_timers session_id (retry_delay_ms attempt);
        effects = r.effects ++ (scheduled session_id (retry_delay_ms attempt) ∷ []);
      }

  unfoldable pub schedule_terminal_retry : String → Registry S → Registry S
  schedule_terminal_retry session_id r =
      if r.disposed
        || not (has_key r.delayed_terminal_events session_id)
        || has_key r.terminal_retry_timers session_id
      then r
      else arm_retry session_id r

  -- The pending event's own cancellation, or the persisted one that was passed.
  unfoldable pub cancellation_of : Option PendingTerminal → CancelOptions → Option Cancellation
  cancellation_of (some pending) options = some (record {
    event_id = pending.event.event_id;
    fingerprint = store.fingerprint (input_of pending.event);
  })
  cancellation_of none options = options.persisted_cancellation

  unfoldable pub clear_retry : String → Registry S → Registry S
  clear_retry session_id r = record r {
    effects =
        if has_key r.terminal_retry_timers session_id
        then r.effects ++ (cancelled session_id ∷ [])
        else r.effects;
    terminal_retry_timers = remove r.terminal_retry_timers session_id;
    terminal_retry_attempts = remove r.terminal_retry_attempts session_id;
    delayed_terminal_events = remove r.delayed_terminal_events session_id;
  }

  unfoldable pub cancel_durably : String → CancelOptions → Option Cancellation → Action S (Unit {0})
  cancel_durably session_id options none = pure tt
  cancel_durably session_id options (some cancellation) =
      if options.is_committed
      then pure tt
      else write (λ s. store.cancel_terminal_event s (record {
        event_id = cancellation.event_id;
        session_id = session_id;
        fingerprint = cancellation.fingerprint;
        remove_session = options.remove_session;
        next_driver_name = options.next_driver_name;
        created_at = now;
        replacement_session = options.replacement_session;
      }))

  unfoldable pub cancel_terminal_retry : String → CancelOptions → Action S (Unit {0})
  cancel_terminal_retry session_id options =
      reading (λ r. cancellation_of (lookup r.delayed_terminal_events session_id) options)
        λ cancellation. do
          cancel_durably session_id options cancellation
          modify (clear_retry session_id)

  -- `fromCanonicalTerminalSession`
  unfoldable pub from_canonical_terminal_session :
      RegisteredSession → CanonicalSession → RegisteredSession
  from_canonical_terminal_session current terminal = record current {
    fields = record current.fields {
      status = terminal.status;
      latest_activity_text = terminal.latest_activity_text;
      last_event_id = terminal.last_event_id;
      semantic_updated_at = terminal.updated_at;
    };
  }

  unfoldable pub commit_terminal_session :
      String → (previous terminal : RegisteredSession) → Registry S → Registry S
  commit_terminal_session session_id previous terminal r = record r {
    sessions = insert r.sessions session_id terminal;
    effects =
        if semantic_fingerprint terminal.fields != semantic_fingerprint previous.fields
        then r.effects ++ (mutated semantic ∷ [])
        else r.effects;
  }

  unfoldable pub commit_current :
      String → PendingTerminal → String → Option RegisteredSession → Action S (Unit {0})
  commit_current session_id pending fingerprint none = fail "Session is not registered"
  commit_current session_id pending fingerprint (some current) = do
    write (λ s. store.queue_pending_event s pending fingerprint)
    emit (committed pending.event.event_id)
    modify (
        commit_terminal_session session_id current
          (from_canonical_terminal_session current pending.session))
    cancel_terminal_retry session_id (record no_options { is_committed = true })

  unfoldable pub commit_pending_terminal : String → PendingTerminal → String → Action S (Unit {0})
  commit_pending_terminal session_id pending fingerprint =
      reading (λ r. lookup r.sessions session_id) (commit_current session_id pending fingerprint)

  unfoldable pub promote_pending_terminal : String → PendingTerminal → String → Action S (Unit {0})
  promote_pending_terminal session_id pending fingerprint =
      on_throw (commit_pending_terminal session_id pending fingerprint)
        (modify (schedule_terminal_retry session_id))

  -- The rest of flushDelayedTerminalEvent, once no command work is pending.
  unfoldable pub flush_pending :
      String → Option PendingTerminal → Option RegisteredSession → Action S (Option String)
  flush_pending session_id none session = pure none
  flush_pending session_id (some pending) none = do
    cancel_terminal_retry session_id no_options
    pure none
  flush_pending session_id (some pending) (some session) =
      catching
        (do
          commit_pending_terminal session_id pending (store.fingerprint (input_of pending.event))
          pure (some pending.event.event_id))
        (do modify (schedule_terminal_retry session_id); pure none)

  unfoldable pub flush_delayed_terminal_event : String → Action S (Option String)
  flush_delayed_terminal_event session_id r =
      if has_pending_command_work r session_id
      then pure none r
      else flush_pending session_id (lookup r.delayed_terminal_events session_id)
          (lookup r.sessions session_id) r

  -- The callback of a retry's timer.
  unfoldable pub retry_timer_fires : String → Action S (Unit {0})
  retry_timer_fires session_id r =
      let fired = record r { terminal_retry_timers = remove r.terminal_retry_timers session_id } in
      if r.disposed
      then pure tt fired
      else (flush_delayed_terminal_event session_id >>= λ event_id. pure tt) fired
