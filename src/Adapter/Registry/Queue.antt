-- ===== src/Adapter/Registry/Queue.antt =====
-- Commands on their way to a driver and results on their way back: queues, polls, commands in flight
-- and waits, apps/bridge/src/agent-adapter/registry.ts. A poll or a wait that is answered at once is
-- an effect like one that is answered later; it is settled once it is in no list of waiters.
use ariava.Prelude.{
  ℕ, String, Bool, false, ◌&&◌, Option, none, some, List, [], ◌∷◌, ◌++◌, map, any, if◌then◌else◌,
  ◌==◌, ◌!=◌, string_eq, nat_eq, keep_if,
}
use ariava.Prelude.Dict.{Dict, lookup, insert, remove, contains, values}
use ariava.Store.State.{Timestamp, CommandResult}
use ariava.Adapter.{RegisteredSession}
use ariava.Adapter.Codec.{or_else}
use ariava.Adapter.Registry.{Registry, StateStore, CommandEnvelope, Binding, polled, answered}
use ariava.Adapter.Registry.Action.{Action, pure, fail, ◌>>=◌, ◌>>◌, modify, reading, emit}
use ariava.Adapter.Registry.Terminal.{flush_delayed_terminal_event}

-- `map.set(key, list)`, or `map.delete(key)` when the list is empty.
unfoldable pub put_filled {ℓ} : {A : Type ℓ} → Dict (List A) → String → List A → Dict (List A)
put_filled d key [] = remove d key
put_filled d key (x ∷ xs) = insert d key (x ∷ xs)

-- `waiters.splice(waiters.indexOf(waiter), 1)`, if it is there.
unfoldable pub without : ℕ → List ℕ → List ℕ
without waiter [] = []
without waiter (w ∷ ws) = if w == waiter then ws else w ∷ without waiter ws

abbrev pub waits : ℕ → List ℕ → Bool
waits waiter ws = any (λ w. w == waiter) ws

-- `set.add(id)`, `set.delete(id)`
unfoldable pub add_id : List String → String → List String
add_id ids id = if contains ids id then ids else ids ++ (id ∷ [])

unfoldable pub delete_id : List String → String → List String
delete_id ids id = keep_if (λ i. i != id) ids

unfoldable pub binding_of : CommandEnvelope → RegisteredSession → Binding
binding_of command session = record {
  host_id = command.host_id;
  session_id = command.session_id;
  provider = session.fields.provider;
}

abbrev flat : List (List ℕ) → List ℕ
flat [] = []
flat (ws ∷ wss) = ws ++ flat wss

-- What a result has to agree with: its command's binding, and the session that is registered.
unfoldable pub is_bound_result :
    String → String → CommandResult → Binding → Option RegisteredSession → Bool
is_bound_result command_id session_id result binding none = false
is_bound_result command_id session_id result binding (some session) =
    command_id == result.command_id
    && session_id == result.session_id
    && binding.host_id == result.host_id
    && binding.session_id == result.session_id
    && session.fields.host_id == binding.host_id
    && session.fields.provider == binding.provider

module _ {S : Type 0} where
  -- The session that a command may be dispatched to.
  unfoldable pub is_dispatch_ready : Registry S → CommandEnvelope → Option RegisteredSession → Bool
  is_dispatch_ready r command none = false
  is_dispatch_ready r command (some session) =
      command.host_id == r.host_id && session.fields.host_id == command.host_id

  unfoldable pub assert_command_dispatch_ready : CommandEnvelope → Action S (Unit {0})
  assert_command_dispatch_ready command r =
      if r.disposed
      then fail "Agent Adapter registry is disposed" r
      else if is_dispatch_ready r command (lookup r.sessions command.session_id)
      then pure tt r
      else fail "command does not match a registered adapter Session and Host" r

  unfoldable pub bind_command : CommandEnvelope → RegisteredSession → Registry S → Registry S
  bind_command command session r = record r {
    command_sessions = insert r.command_sessions command.command_id (binding_of command session);
  }

  unfoldable pub fly : CommandEnvelope → Registry S → Registry S
  fly command r = record r {
    in_flight_commands =
        insert r.in_flight_commands command.session_id
          (add_id (or_else (lookup r.in_flight_commands command.session_id) []) command.command_id);
  }

  unfoldable pub mark_live : CommandEnvelope → Option RegisteredSession → Action S (Unit {0})
  mark_live command none = fail "command Session is no longer registered"
  mark_live command (some session) = modify (λ r. fly command (bind_command command session r))

  unfoldable pub mark_command_in_flight : CommandEnvelope → Action S (Unit {0})
  mark_command_in_flight command =
      reading (λ r. lookup r.sessions command.session_id) (mark_live command)

  unfoldable pub queue_command : CommandEnvelope → Registry S → Registry S
  queue_command command r = record r {
    command_queues =
        insert r.command_queues command.session_id
          (or_else (lookup r.command_queues command.session_id) [] ++ (command ∷ []));
  }

  -- The command goes to the first poll that waits, or into the queue.
  unfoldable pub hand_over : CommandEnvelope → Option (List ℕ) → Action S (Unit {0})
  hand_over command (some (waiter ∷ waiters)) = do
    modify (λ r. record r {
      command_waiters = put_filled r.command_waiters command.session_id waiters;
    })
    mark_command_in_flight command
    emit (polled waiter (some command))
  hand_over command none = modify (queue_command command)
  hand_over command (some []) = modify (queue_command command)

  unfoldable pub bind_registered :
      CommandEnvelope → Option RegisteredSession → Registry S → Registry S
  bind_registered command none r = r
  bind_registered command (some session) r = bind_command command session r

  unfoldable pub enqueue_command : CommandEnvelope → Action S (Unit {0})
  enqueue_command command = do
    assert_command_dispatch_ready command
    reading (λ r. lookup r.sessions command.session_id)
        λ session. modify (bind_registered command session)
    reading (λ r. lookup r.command_waiters command.session_id) (hand_over command)

  unfoldable pub poll_later : ℕ → String → ℕ → Action S (Unit {0})
  poll_later waiter session_id timeout_ms =
      if timeout_ms == 0
      then emit (polled waiter none)
      else modify (λ r. record r {
        command_waiters =
            insert r.command_waiters session_id
              (or_else (lookup r.command_waiters session_id) [] ++ (waiter ∷ []));
      })

  -- The head of the queue, or a poll that waits.
  unfoldable pub take_command : ℕ → String → ℕ → Option (List CommandEnvelope) → Action S (Unit {0})
  take_command waiter session_id timeout_ms (some (command ∷ queue)) = do
    modify (λ r. record r { command_queues = put_filled r.command_queues session_id queue })
    mark_command_in_flight command
    emit (polled waiter (some command))
  take_command waiter session_id timeout_ms none = poll_later waiter session_id timeout_ms
  take_command waiter session_id timeout_ms (some []) = poll_later waiter session_id timeout_ms

  unfoldable pub dequeue_command : ℕ → String → ℕ → Action S (Unit {0})
  dequeue_command waiter session_id timeout_ms r =
      if r.disposed
      then emit (polled waiter none) r
      else take_command waiter session_id timeout_ms (lookup r.command_queues session_id) r

  -- The timer of a poll.
  unfoldable pub poll_times_out : ℕ → String → Action S (Unit {0})
  poll_times_out waiter session_id r =
      let waiters = or_else (lookup r.command_waiters session_id) [] in
      if waits waiter waiters
      then pure tt (record r {
        command_waiters = put_filled r.command_waiters session_id (without waiter waiters);
        effects = r.effects ++ (polled waiter none ∷ []);
      })
      else pure tt r

  abbrev answer_polls : List ℕ → Registry S → Registry S
  answer_polls waiters r = record r { effects = r.effects ++ map (λ w. polled w none) waiters }

  unfoldable pub cancel_command_polls : Option String → Registry S → Registry S
  cancel_command_polls none r =
      answer_polls (flat (values r.command_waiters)) (record r { command_waiters = [] })
  cancel_command_polls (some session_id) r =
      answer_polls (or_else (lookup r.command_waiters session_id) [])
        (record r { command_waiters = remove r.command_waiters session_id })

  unfoldable pub wait_unless : ℕ → String → Option CommandResult → Registry S → Registry S
  wait_unless waiter command_id (some existing) r = record r {
    effects = r.effects ++ (answered waiter (some existing) ∷ []);
  }
  wait_unless waiter command_id none r = record r {
    result_waiters =
        insert r.result_waiters command_id
          (or_else (lookup r.result_waiters command_id) [] ++ (waiter ∷ []));
  }

  unfoldable pub wait_for_result : ℕ → String → Registry S → Registry S
  wait_for_result waiter command_id r =
      if r.disposed
      then record r { effects = r.effects ++ (answered waiter none ∷ []) }
      else wait_unless waiter command_id (lookup r.results command_id) r

  unfoldable pub wait_times_out : ℕ → String → Registry S → Registry S
  wait_times_out waiter command_id r =
      let waiters = or_else (lookup r.result_waiters command_id) [] in
      if waits waiter waiters
      then record r {
        result_waiters = put_filled r.result_waiters command_id (without waiter waiters);
        effects = r.effects ++ (answered waiter none ∷ []);
      }
      else r

  unfoldable pub settle_result_waiters : String → Option CommandResult → Registry S → Registry S
  settle_result_waiters command_id result r = record r {
    result_waiters = remove r.result_waiters command_id;
    effects =
        r.effects ++ map (λ w. answered w result) (or_else (lookup r.result_waiters command_id) []);
  }

  unfoldable pub land : String → String → Option (List String) → Registry S → Registry S
  land session_id command_id none r = r
  land session_id command_id (some current) r = record r {
    in_flight_commands = put_filled r.in_flight_commands session_id (delete_id current command_id);
  }

  module _ (store : StateStore S) (now : Timestamp) where
    unfoldable pub clear_command_in_flight : String → String → Action S (Unit {0})
    clear_command_in_flight session_id command_id = do
      modify (λ r. land session_id command_id (lookup r.in_flight_commands session_id) r)
      flush_delayed_terminal_event store now session_id >>= λ event_id. pure tt

    unfoldable pub accept_result : String → CommandResult → Binding → Action S (Unit {0})
    accept_result command_id result binding = do
      modify (λ r. record r { results = insert r.results command_id result })
      clear_command_in_flight binding.session_id command_id
      modify (settle_result_waiters command_id (some result))
      modify (λ r. record r { command_sessions = remove r.command_sessions command_id })

    unfoldable pub resolve_bound :
        String → String → CommandResult → Option Binding → Action S (Unit {0})
    resolve_bound command_id session_id result none r =
        fail "command result does not match its queued adapter command and registered Session" r
    resolve_bound command_id session_id result (some binding) r =
        if is_bound_result command_id session_id result binding (lookup r.sessions session_id)
        then accept_result command_id result binding r
        else fail "command result does not match its queued adapter command and registered Session"
            r

    -- A result that the codec has accepted.
    unfoldable pub resolve_command : String → CommandResult → Option String → Action S (Unit {0})
    resolve_command command_id result submitted r =
        if r.disposed
        then fail "command result does not match its queued adapter command and registered Session"
            r
        else resolve_bound command_id (or_else submitted result.session_id) result
            (lookup r.command_sessions command_id) r

    unfoldable pub abandon_bound : String → Option Binding → Action S (Unit {0})
    abandon_bound command_id none = pure tt
    abandon_bound command_id (some binding) = do
      modify (λ r. record r { results = remove r.results command_id })
      clear_command_in_flight binding.session_id command_id
      modify (settle_result_waiters command_id none)
      modify (λ r. record r { command_sessions = remove r.command_sessions command_id })

    unfoldable pub abandon_command : String → Action S (Unit {0})
    abandon_command command_id =
        reading (λ r. lookup r.command_sessions command_id) (abandon_bound command_id)
