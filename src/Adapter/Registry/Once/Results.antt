-- ===== src/Adapter/Registry/Once/Results.antt =====
-- The results and the ends of sessions on a command that the registry no longer has.
use ariava.Prelude.{String, true, refl, Option, none, some, List, [], ◌∷◌, ◌==◌, string_eq, nat_eq}
use ariava.Prelude.Dict.{Dict, lookup, insert, remove}
use ariava.Store.State.{Timestamp, CommandResult}
use ariava.Adapter.{RegisteredSession, PendingTerminal}
use ariava.Adapter.Registry.{Registry, StateStore, Binding}
use ariava.Adapter.Registry.Action.{Ran, pure, fail, modify}
use ariava.Adapter.Registry.Terminal.{flush_delayed_terminal_event, retry_timer_fires}
use ariava.Adapter.Registry.Queue.{
  settle_result_waiters, land, clear_command_in_flight, accept_result, resolve_bound,
  resolve_command, is_bound_result, abandon_bound, abandon_command,
}
use ariava.Adapter.Registry.Slots.{if-elim, bind-keep}
use ariava.Adapter.Registry.Owner.{
  orphan, orphan_all, withdraw, drop_live, lose_ownership, unregister_live, unregister_session,
}
use ariava.Adapter.Registry.Listing.{settle_all, dispose_live, dispose}
use ariava.Adapter.{MutationReason}
use ariava.Adapter.Registration.{Cancellation}
use ariava.Adapter.Registry.Once.{Gone, removed-unbound, unqueued-remove}
use ariava.Adapter.Registry.Once.Flushes.{cancel-Gone, flush-Gone}

module _ (c : String) {S : Type 0} where
  abbrev GoneHere : Registry S → Type 0
  GoneHere r = Gone c r

  settles-Gone :
      (k : String) (result : Option CommandResult) (r : Registry S)
      → GoneHere r
      → GoneHere (settle_result_waiters k result r)
  unfolding settle_result_waiters
  settles-Gone k result r gone = gone

  land-Gone :
      (i k : String) (current : Option (List String)) (r : Registry S)
      → GoneHere r
      → GoneHere (land i k current r)
  unfolding land
  land-Gone i k none r gone = gone
  land-Gone i k (some current) r gone = gone

  settle_all-Gone : (ids : List String) (r : Registry S) → GoneHere r → GoneHere (settle_all ids r)
  unfolding settle_all
  settle_all-Gone [] r gone = gone
  settle_all-Gone (k ∷ ids) r gone = settle_all-Gone ids _ (settles-Gone k none r gone)

  pub dispose-Gone : (r : Registry S) → GoneHere r → GoneHere (dispose r)
  unfolding dispose dispose_live lookup
  dispose-Gone r gone = if-elim GoneHere r.disposed r _ (λ h. gone) (λ h. (refl, refl))

  module _ (store : StateStore S) (now : Timestamp) where
    pub retry-Gone :
        (i : String) (r : Registry S)
        → GoneHere r
        → GoneHere (retry_timer_fires store now i r).registry
    unfolding retry_timer_fires
    retry-Gone i r gone =
        if-elim (λ (ran : Ran S (Unit {0})). GoneHere ran.registry) r.disposed (pure tt fired) _
          (λ h. gone)
          (λ h.
            bind-keep GoneHere (flush_delayed_terminal_event store now i) (λ event_id. pure tt)
              fired (flush-Gone c store now i fired gone) (λ event_id kept. kept))
      where
        fired : Registry S
        fired = record r { terminal_retry_timers = remove r.terminal_retry_timers i }

    landed-Gone :
        (i k : String) (r : Registry S)
        → GoneHere r
        → GoneHere (clear_command_in_flight store now i k r).registry
    unfolding clear_command_in_flight
    landed-Gone i k r gone =
        bind-keep GoneHere (flush_delayed_terminal_event store now i) (λ event_id. pure tt) _
          (flush-Gone c store now i _ (land-Gone i k (lookup r.in_flight_commands i) r gone))
          (λ event_id kept. kept)

    accepts-Gone :
        (k : String) (result : CommandResult) (binding : Binding) (r : Registry S)
        → GoneHere r
        → GoneHere (accept_result store now k result binding r).registry
    unfolding accept_result settle_result_waiters
    accepts-Gone k result binding r gone =
        bind-keep GoneHere (clear_command_in_flight store now binding.session_id k) _
          (record r { results = insert r.results k result })
          (landed-Gone binding.session_id k _ gone)
          (λ done kept. (removed-unbound c _ k kept.0, kept.1))

    bound-result-Gone :
        (k i : String) (result : CommandResult) (binding : Option Binding) (r : Registry S)
        → GoneHere r
        → GoneHere (resolve_bound store now k i result binding r).registry
    unfolding resolve_bound
    bound-result-Gone k i result none r gone = gone
    bound-result-Gone k i result (some binding) r gone =
        if-elim (λ (ran : Ran S (Unit {0})). GoneHere ran.registry)
          (is_bound_result k i result binding (lookup r.sessions i))
          (accept_result store now k result binding r) (fail _ r)
          (λ h. accepts-Gone k result binding r gone) (λ h. gone)

    pub resolve-Gone :
        (k : String) (result : CommandResult) (submitted : Option String) (r : Registry S)
        → GoneHere r
        → GoneHere (resolve_command store now k result submitted r).registry
    unfolding resolve_command
    resolve-Gone k result submitted r gone =
        if-elim (λ (ran : Ran S (Unit {0})). GoneHere ran.registry) r.disposed (fail _ r) _
          (λ h. gone) (λ h. bound-result-Gone k _ result (lookup r.command_sessions k) r gone)

    pub abandon-Gone :
        (k : String) (r : Registry S)
        → GoneHere r
        → GoneHere (abandon_command store now k r).registry
    unfolding abandon_command abandon_bound settle_result_waiters
    abandon-Gone k r gone = of_binding (lookup r.command_sessions k)
      where
        forgotten : Registry S
        forgotten = record r { results = remove r.results k }

        of_binding :
            (binding : Option Binding) → GoneHere (abandon_bound store now k binding r).registry
        of_binding none = gone
        of_binding (some binding) =
            bind-keep GoneHere (clear_command_in_flight store now binding.session_id k) _ forgotten
              (landed-Gone binding.session_id k forgotten gone)
              (λ done kept. (removed-unbound c _ k kept.0, kept.1))

    orphan-Gone : (k : String) (r : Registry S) → GoneHere r → GoneHere (orphan store now k r)
    unfolding orphan settle_result_waiters
    orphan-Gone k r gone = (removed-unbound c r.command_sessions k gone.0, gone.1)

    orphans-Gone :
        (i : String) (bindings : Dict Binding) (r : Registry S)
        → GoneHere r
        → GoneHere (orphan_all store now i bindings r)
    unfolding orphan_all
    orphans-Gone i [] r gone = gone
    orphans-Gone i ((k, binding) ∷ bindings) r gone = orphans-Gone i bindings _ (
        if-elim GoneHere (binding.session_id == i) (orphan store now k r) r
          (λ h. orphan-Gone k r gone) (λ h. gone))

    drop-Gone :
        (i : String) (reason : MutationReason) (r : Registry S)
        → GoneHere r
        → GoneHere (drop_live store now i reason r)
    unfolding drop_live
    drop-Gone i reason r gone =
        let kept = orphans-Gone i r.command_sessions r gone in
        (kept.0, unqueued-remove c _ i kept.1)

    withdraw-Gone :
        (i : String) (pending : Option PendingTerminal) (persisted : Option Cancellation)
        (r : Registry S)
        → GoneHere r
        → GoneHere (withdraw store now i pending persisted r).registry
    unfolding withdraw
    withdraw-Gone i none none r gone = gone
    withdraw-Gone i (some pending) persisted r gone = cancel-Gone c store now i _ r gone
    withdraw-Gone i none (some persisted) r gone = cancel-Gone c store now i _ r gone

    pub lose-Gone :
        (i : String) (reason : MutationReason) (r : Registry S)
        → GoneHere r
        → GoneHere (lose_ownership store now i reason r).registry
    unfolding lose_ownership
    lose-Gone i reason r gone =
        bind-keep GoneHere
          (withdraw store now i (lookup r.delayed_terminal_events i)
            (store.get_cancellation r.store i))
          (λ done. modify (drop_live store now i reason)) r (withdraw-Gone i _ _ r gone)
          (λ done kept. drop-Gone i reason _ kept)

    pub unregister-Gone :
        (i : String) (reason : MutationReason) (r : Registry S)
        → GoneHere r
        → GoneHere (unregister_session store now i reason r).registry
    unfolding unregister_session unregister_live
    unregister-Gone i reason r gone = of_session (lookup r.sessions i)
      where
        of_session :
            (session : Option RegisteredSession)
            → GoneHere (unregister_live store now i reason session r).registry
        of_session none = gone
        of_session (some session) =
            bind-keep GoneHere (lose_ownership store now session.fields.session_id reason)
              (λ done. pure true) r (lose-Gone _ reason r gone) (λ done kept. kept)
