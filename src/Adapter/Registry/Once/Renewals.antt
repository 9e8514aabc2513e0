-- ===== src/Adapter/Registry/Once/Renewals.antt =====
-- Heartbeats and registrations on a command that the registry no longer has.
use ariava.Prelude.{
  ℕ, String, Bool, true, false, not, ◌&&◌, Option, none, some, ◌==◌, ◌!=◌, string_eq, option_eq,
}
use ariava.Prelude.Dict.{lookup}
use ariava.Store.State.{Timestamp, need_human, status_eq, CanonicalSession}
use ariava.Adapter.{RegisteredSession, RegisterInput, SessionFields, ttl, register, semantic}
use ariava.Adapter.Registration.{
  HeartbeatInput, HeartbeatTransition, reduce_heartbeat, Authorization, authorized, collision,
  RegistrationTransition, Persistence, durable_set_session_driver, durable_cancel_terminal,
}
use ariava.Adapter.Plan.{to_canonical_session_state}
use ariava.Adapter.Registry.{Registry, StateStore, mutated}
use ariava.Adapter.Registry.Action.{Action, pure, fail, emit, when_}
use ariava.Adapter.Registry.Terminal.{no_options, cancel_terminal_retry}
use ariava.Adapter.Registry.Owner.{
  lose_ownership, has_expired, needs_event, assert_storable, set_session, beat, beat_live,
  heartbeat,
}
use ariava.Adapter.Registry.Register.{
  take_up, recover_terminal, Recovery, pending_again, committed_before, check_authorized, contend,
  persist_registration, store_registration, register_over, register_session, is_terminal_evidence,
  restore_persisted_terminal,
}
use ariava.Adapter.Registry.Slots.{if-elim, bind-keep}
use ariava.Adapter.Registry.Once.{Gone}
use ariava.Adapter.Registry.Once.Flushes.{cancel-Gone}
use ariava.Adapter.Registry.Once.Results.{lose-Gone}

module _ (c : String) {S : Type 0} where
  abbrev GoneHere : Registry S → Type 0
  GoneHere r = Gone c r

  set-Gone :
      (i : String) (session : RegisteredSession) (r : Registry S)
      → GoneHere r
      → GoneHere (set_session i session r).registry
  unfolding set_session
  set-Gone i session r gone = gone

  module _ (store : StateStore S) (now : Timestamp) (fits : CanonicalSession → Bool) where
    storable-Gone :
        (session : SessionFields) (r : Registry S)
        → GoneHere r
        → GoneHere (assert_storable store now fits session r).registry
    unfolding assert_storable
    storable-Gone session r gone =
        if-elim (λ (m : Action S (Unit {0})). GoneHere (m r).registry)
          (not (fits (to_canonical_session_state session))) (fail _) _ (λ h. gone)
          λ h.
            if-elim (λ (m : Action S (Unit {0})). GoneHere (m r).registry) (needs_event session)
              (fail _) (pure tt) (λ h. gone) (λ h. gone)

    when-Gone :
        (b : Bool) (m : Action S (Unit {0})) (r : Registry S)
        → GoneHere r
        → GoneHere (m r).registry
        → GoneHere (when_ b m r).registry
    when-Gone true m r gone ran = ran
    when-Gone false m r gone ran = gone

    beat-Gone :
        (monotonic : ℕ) (i : String) (input : HeartbeatInput) (session : RegisteredSession)
        (r : Registry S)
        → GoneHere r
        → GoneHere (beat store now fits monotonic i input session r).registry
    unfolding beat
    beat-Gone monotonic i input session r gone =
        bind-keep GoneHere (assert_storable store now fits transition.next_session) _ r
          (storable-Gone transition.next_session r gone)
          λ done kept.
            bind-keep GoneHere
              (when_ transition.context_changed (cancel_terminal_retry store now i no_options)) _ _
              (when-Gone transition.context_changed _ _ kept
                (cancel-Gone c store now i no_options _ kept))
              λ done kept.
                bind-keep GoneHere (when_ transition.semantic_changed (emit (mutated semantic))) _ _
                  (when-Gone transition.semantic_changed _ _ kept kept)
                  λ done kept.
                    bind-keep GoneHere (set_session i _) _ _ (set-Gone i _ _ kept)
                      (λ done kept. kept)
      where
        transition : HeartbeatTransition
        transition = reduce_heartbeat session.fields input now

    beat_live-Gone :
        (monotonic : ℕ) (i : String) (input : HeartbeatInput) (session : Option RegisteredSession)
        (r : Registry S)
        → GoneHere r
        → GoneHere (beat_live store now fits monotonic i input session r).registry
    unfolding beat_live
    beat_live-Gone monotonic i input none r gone = gone
    beat_live-Gone monotonic i input (some session) r gone = beat-Gone monotonic i _ session r gone

    pub heartbeat-Gone :
        (monotonic : ℕ) (i : String) (input : HeartbeatInput) (r : Registry S)
        → GoneHere r
        → GoneHere (heartbeat store now fits monotonic i input r).registry
    unfolding heartbeat
    heartbeat-Gone monotonic i input r gone =
        beat_live-Gone monotonic i input (lookup r.sessions i) r gone

    take_up-Gone :
        (recovery : Option Recovery) (i : String) (r : Registry S)
        → GoneHere r
        → GoneHere (take_up store recovery i r).registry
    unfolding take_up
    take_up-Gone none i r gone = gone
    take_up-Gone (some (pending_again terminal)) i r gone = gone
    take_up-Gone (some (committed_before session)) i r gone = gone

    recover-Gone :
        (previous : Option RegisteredSession) (input : RegisterInput) (r : Registry S)
        → GoneHere r
        → GoneHere (recover_terminal store previous input r).registry
    unfolding recover_terminal
    recover-Gone (some previous) input r gone = gone
    recover-Gone none input r gone =
        when-Gone
          (input.status == some need_human
            && not (is_terminal_evidence store (store.get_session r.store input.session_id)))
          _ r gone
          (take_up-Gone
            (restore_persisted_terminal store r.store input
              (store.get_session r.store input.session_id))
            input.session_id r gone)

    authorized-Gone :
        (a : Authorization) (r : Registry S)
        → GoneHere r
        → GoneHere (check_authorized store a r).registry
    unfolding check_authorized
    authorized-Gone authorized r gone = gone
    authorized-Gone (collision session_id) r gone = gone

    module _ (monotonic : ℕ) (fresh_lease host_id : String) where
      contend-Gone :
          (previous : Option RegisteredSession) (input : RegisterInput) (r : Registry S)
          → GoneHere r
          → GoneHere
              (contend store fits now monotonic fresh_lease host_id previous input r).registry
      unfolding contend
      contend-Gone none input r gone = gone
      contend-Gone (some previous) input r gone =
          if-elim (λ (m : Action S (Unit {0})). GoneHere (m r).registry)
            (has_expired monotonic previous)
            (lose_ownership store now previous.fields.session_id ttl) _
            (λ h. lose-Gone c store now previous.fields.session_id ttl r gone)
            λ h.
              if-elim (λ (m : Action S (Unit {0})). GoneHere (m r).registry)
                (previous.driver_instance_id != input.driver_instance_id) (fail "owner_conflict")
                (pure tt) (λ h. gone) (λ h. gone)

      persist-Gone :
          (i : String) (transition : RegistrationTransition) (p : Persistence) (r : Registry S)
          → GoneHere r
          → GoneHere
              (persist_registration store fits now monotonic fresh_lease host_id i transition p
                r).registry
      unfolding persist_registration
      persist-Gone i transition durable_set_session_driver r gone = gone
      persist-Gone i transition (durable_cancel_terminal driver cancellation) r gone =
          cancel-Gone c store now i _ r gone

      stored-Gone :
          (previous : Option RegisteredSession) (input : RegisterInput)
          (transition : RegistrationTransition) (r : Registry S)
          → GoneHere r
          → GoneHere
              (store_registration store fits now monotonic fresh_lease host_id previous input
                transition r).registry
      unfolding store_registration
      stored-Gone previous input transition r gone =
          bind-keep GoneHere (assert_storable store now fits transition.next_session) _ r
            (storable-Gone transition.next_session r gone)
            λ done kept.
              bind-keep GoneHere
                (persist_registration store fits now monotonic fresh_lease host_id input.session_id
                  transition transition.persistence)
                _ _ (persist-Gone input.session_id transition transition.persistence _ kept)
                λ done kept.
                  bind-keep GoneHere (set_session input.session_id _) _ _
                    (set-Gone input.session_id _ _ kept)
                    λ done kept.
                      bind-keep GoneHere
                        (when_ transition.semantic_changed (emit (mutated register))) _ _
                        (when-Gone transition.semantic_changed _ _ kept kept) (λ done kept. kept)

      over-Gone :
          (input : RegisterInput) (previous : Option RegisteredSession) (r : Registry S)
          → GoneHere r
          → GoneHere
              (register_over store fits now monotonic fresh_lease host_id input previous r).registry
      unfolding register_over
      over-Gone input previous r gone =
          bind-keep GoneHere (recover_terminal store previous input) _ r
            (recover-Gone previous input r gone)
            λ done kept.
              bind-keep GoneHere (check_authorized store _) _ _ (authorized-Gone _ _ kept)
                λ done kept.
                  bind-keep GoneHere
                    (contend store fits now monotonic fresh_lease host_id previous input) _ _
                    (contend-Gone previous input _ kept)
                    λ done kept. stored-Gone previous input _ _ kept

      pub register-Gone :
          (input : RegisterInput) (r : Registry S)
          → GoneHere r
          → GoneHere
              (register_session store fits now monotonic fresh_lease host_id input r).registry
      unfolding register_session
      register-Gone input r gone =
          if-elim (λ (m : Action S RegisteredSession). GoneHere (m r).registry)
            (input.driver_instance_id == "") (fail "driverInstanceId is required") _ (λ h. gone)
            (λ h. over-Gone input (lookup r.sessions input.session_id) r gone)
