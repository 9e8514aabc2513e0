-- ===== src/Adapter/Registry/Slots/Results.antt =====
-- Results that are accepted and commands that are abandoned: the command lands, and a staged event
-- that waited for it is committed or retried.
use mathlib.Core.Path.{subst}
use ariava.Prelude.{
  String, true, false, ◌≡◌, refl, sym, ◌∙◌, Option, none, some, List, ◌==◌, string_eq,
}
use ariava.Prelude.Dict.{lookup, insert, remove}
use ariava.Store.State.{Timestamp, CommandResult}
use ariava.Adapter.Codec.{or_else}
use ariava.Adapter.Registry.{Registry, StateStore, Binding}
use ariava.Adapter.Registry.Action.{Action, Ran, pure, fail, ◌>>=◌, ◌>>◌, modify}
use ariava.Adapter.Registry.Terminal.{flush_delayed_terminal_event}
use ariava.Adapter.Registry.Queue.{
  delete_id, settle_result_waiters, land, clear_command_in_flight, accept_result, is_bound_result,
  resolve_bound, resolve_command, abandon_bound, abandon_command,
}
use ariava.Adapter.Registry.Slots.{
  is_ready, is_held, slot, Waits, Frames-Waits, if-elim, Frames, Quiet, bind-Frames, bind-keep,
  ready-held, kept-owned, lookup-put_filled_ne,
}
use ariava.Adapter.Registry.Slots.Retries.{flush-Frames}
use ariava.Adapter.Registry.Slots.Queues.{KeepsQueues, bind-KeepsQueues, flush-queues}
use ariava.Adapter.Registry.Slots.Ready.{flush-Ready}

module _ {S : Type 0} where
  land-slot :
      (i command_id : String) (current : Option (List String)) (r : Registry S) (j : String)
      → (i == j) ≡ false
      → slot (land i command_id current r) j ≡ slot r j
  unfolding land
  land-slot i command_id none r j other = refl
  land-slot i command_id (some current) r j other =
      rw (lookup-put_filled_ne r.in_flight_commands i j (delete_id current command_id) other) refl

  land-Held :
      (i command_id : String) (current : Option (List String)) (r : Registry S)
      → is_held (slot r i) ≡ true
      → is_held (slot (land i command_id current r) i) ≡ true
  unfolding land
  land-Held i command_id none r held = held
  land-Held i command_id (some current) r held = held

  land-queues :
      (i command_id : String) (current : Option (List String)) (r : Registry S)
      → (land i command_id current r).command_queues ≡ r.command_queues
  unfolding land
  land-queues i command_id none r = refl
  land-queues i command_id (some current) r = refl

  module _ (store : StateStore S) (now : Timestamp) (i command_id : String) where
    clear-Frames : Frames i (clear_command_in_flight store now i command_id)
    unfolding clear_command_in_flight
    clear-Frames =
        bind-Frames i (modify (λ r. land i command_id (lookup r.in_flight_commands i) r))
          (λ done. flush_delayed_terminal_event store now i >>= λ event_id. pure tt)
          (λ r. land-slot i command_id (lookup r.in_flight_commands i) r)
          λ done.
            bind-Frames i (flush_delayed_terminal_event store now i) (λ event_id. pure tt)
              (flush-Frames store now i) λ event_id r j other. refl

    clear-Ready :
        (r : Registry S)
        → is_held (slot r i) ≡ true
        → is_ready (slot (clear_command_in_flight store now i command_id r).registry i) ≡ true
    unfolding clear_command_in_flight
    clear-Ready r held =
        bind-keep (λ r. is_ready (slot r i) ≡ true) (flush_delayed_terminal_event store now i)
          (λ event_id. pure tt) (land i command_id (lookup r.in_flight_commands i) r)
          (flush-Ready store now i _
            (land-Held i command_id (lookup r.in_flight_commands i) r held))
          (λ event_id ready. ready)

    -- What follows it in `resolveCommand` and `abandonCommand`.
    abbrev finish : Option CommandResult → Action S (Unit {0})
    finish result = do
      modify (settle_result_waiters command_id result)
      modify (λ r. record r { command_sessions = remove r.command_sessions command_id })

    finish-Quiet : (result : Option CommandResult) → Quiet (finish result)
    unfolding settle_result_waiters
    finish-Quiet result r j = refl

    cleared-Frames :
        (result : Option CommandResult)
        → Frames i (clear_command_in_flight store now i command_id >> finish result)
    cleared-Frames result =
        bind-Frames i (clear_command_in_flight store now i command_id) (λ done. finish result)
          clear-Frames λ done r j other. finish-Quiet result r j

    cleared-Ready :
        (result : Option CommandResult) (r : Registry S)
        → is_held (slot r i) ≡ true
        → is_ready
            (slot ((clear_command_in_flight store now i command_id >> finish result) r).registry i)
          ≡ true
    cleared-Ready result r held =
        bind-keep (λ r. is_ready (slot r i) ≡ true) (clear_command_in_flight store now i command_id)
          (λ done. finish result) r (clear-Ready r held)
          λ done ready. subst (λ s. is_ready s ≡ true) (sym (finish-Quiet result _ i)) ready

    pub cleared-queues :
        (result : Option CommandResult)
        → KeepsQueues (clear_command_in_flight store now i command_id >> finish result)
    unfolding clear_command_in_flight settle_result_waiters
    cleared-queues result =
        bind-KeepsQueues (clear_command_in_flight store now i command_id) (λ done. finish result)
          (λ r.
            bind-KeepsQueues (flush_delayed_terminal_event store now i) (λ event_id. pure tt)
              (flush-queues store now i) (λ event_id r. refl) _
            ∙ land-queues i command_id (lookup r.in_flight_commands i) r)
          (λ done r. refl)

    cleared-Waits :
        (result : Option CommandResult) (r : Registry S)
        → Waits r
        → Waits ((clear_command_in_flight store now i command_id >> finish result) r).registry
    cleared-Waits result r waits =
        Frames-Waits i r
          ((clear_command_in_flight store now i command_id >> finish result) r).registry
          (cleared-Frames result r) (cleared-Ready result r (ready-held (slot r i) (waits i).0))
          (kept-owned i r
            ((clear_command_in_flight store now i command_id >> finish result) r).registry
            (cleared-queues result r) waits)
          waits

  module _ (store : StateStore S) (now : Timestamp) (command_id : String) where
    resolve_bound-Waits :
        (session_id : String) (result : CommandResult) (binding : Option Binding) (r : Registry S)
        → Waits r
        → Waits (resolve_bound store now command_id session_id result binding r).registry
    unfolding resolve_bound accept_result
    resolve_bound-Waits session_id result none r waits = waits
    resolve_bound-Waits session_id result (some binding) r waits =
        if-elim (λ (ran : Ran S (Unit {0})). Waits ran.registry)
          (is_bound_result command_id session_id result binding (lookup r.sessions session_id))
          (accept_result store now command_id result binding r) (fail _ r)
          (λ h.
            cleared-Waits store now binding.session_id command_id (some result)
              (record r { results = insert r.results command_id result }) waits)
          (λ h. waits)

    pub resolve-Waits :
        (result : CommandResult) (submitted : Option String) (r : Registry S)
        → Waits r
        → Waits (resolve_command store now command_id result submitted r).registry
    unfolding resolve_command
    resolve-Waits result submitted r waits =
        if-elim (λ (ran : Ran S (Unit {0})). Waits ran.registry) r.disposed (fail _ r)
          (resolve_bound store now command_id (or_else submitted result.session_id) result
            (lookup r.command_sessions command_id) r)
          (λ h. waits)
          (λ h. resolve_bound-Waits _ result (lookup r.command_sessions command_id) r waits)

    abandon_bound-Waits :
        (binding : Option Binding) (r : Registry S)
        → Waits r
        → Waits (abandon_bound store now command_id binding r).registry
    unfolding abandon_bound
    abandon_bound-Waits none r waits = waits
    abandon_bound-Waits (some binding) r waits =
        cleared-Waits store now binding.session_id command_id none
          (record r { results = remove r.results command_id }) waits

    pub abandon-Waits :
        (r : Registry S) → Waits r → Waits (abandon_command store now command_id r).registry
    unfolding abandon_command
    abandon-Waits r waits = abandon_bound-Waits (lookup r.command_sessions command_id) r waits
