-- ===== src/Adapter/Registry/Slots/Renewals.antt =====
-- Heartbeats and registrations, which write a session: what is staged for it stays waited for.
use ariava.Prelude.{
  ℕ, String, Bool, true, false, not, ◌&&◌, Option, none, some, ◌==◌, ◌!=◌, string_eq, option_eq,
}
use ariava.Prelude.Dict.{lookup}
use ariava.Store.State.{Timestamp, need_human, status_eq, CanonicalSession}
use ariava.Adapter.{RegisteredSession, RegisterInput, SessionFields, ttl, register, semantic}
use ariava.Adapter.Registration.{
  HeartbeatInput, HeartbeatTransition, reduce_heartbeat, Authorization, authorized, collision,
  RegistrationTransition, Persistence, durable_set_session_driver, durable_cancel_terminal,
}
use ariava.Adapter.Plan.{to_canonical_session_state}
use ariava.Adapter.Registry.{Registry, StateStore, mutated}
use ariava.Adapter.Registry.Action.{Action, pure, fail, emit, when_}
use ariava.Adapter.Registry.Terminal.{no_options, cancel_terminal_retry}
use ariava.Adapter.Registry.Owner.{
  lose_ownership, has_expired, needs_event, assert_storable, set_session, beat, beat_live,
  heartbeat,
}
use ariava.Adapter.Registry.Register.{
  take_up, recover_terminal, Recovery, pending_again, committed_before, check_authorized, contend,
  persist_registration, store_registration, register_over, register_session, is_terminal_evidence,
  restore_persisted_terminal,
}
use ariava.Adapter.Registry.Slots.{Waits, if-elim, bind-keep, insert-Waits}
use ariava.Adapter.Registry.Slots.Owners.{cancel-Waits, lose-Waits}

module _ {S : Type 0} where
  set-Waits :
      (i : String) (session : RegisteredSession) (r : Registry S)
      → Waits r
      → Waits (set_session i session r).registry
  unfolding set_session
  set-Waits i session r waits = insert-Waits i session r waits

module _ {S : Type 0} (store : StateStore S) (now : Timestamp)
    (fits : CanonicalSession → Bool) where
  storable-Waits :
      (session : SessionFields) (r : Registry S)
      → Waits r
      → Waits (assert_storable store now fits session r).registry
  unfolding assert_storable
  storable-Waits session r waits =
      if-elim (λ (m : Action S (Unit {0})). Waits (m r).registry)
        (not (fits (to_canonical_session_state session))) (fail _) _ (λ h. waits)
        λ h.
          if-elim (λ (m : Action S (Unit {0})). Waits (m r).registry) (needs_event session) (fail _)
            (pure tt) (λ h. waits) (λ h. waits)

  when-Waits :
      (b : Bool) (m : Action S (Unit {0})) (r : Registry S)
      → Waits r
      → Waits (m r).registry
      → Waits (when_ b m r).registry
  when-Waits true m r waits ran = ran
  when-Waits false m r waits ran = waits

  beat-Waits :
      (monotonic : ℕ) (i : String) (input : HeartbeatInput) (session : RegisteredSession)
      (r : Registry S)
      → Waits r
      → Waits (beat store now fits monotonic i input session r).registry
  unfolding beat
  beat-Waits monotonic i input session r waits =
      bind-keep Waits (assert_storable store now fits transition.next_session) _ r
        (storable-Waits transition.next_session r waits)
        λ done kept.
          bind-keep Waits
            (when_ transition.context_changed (cancel_terminal_retry store now i no_options)) _ _
            (when-Waits transition.context_changed _ _ kept
              (cancel-Waits store now i no_options _ kept))
            λ done kept.
              bind-keep Waits (when_ transition.semantic_changed (emit (mutated semantic))) _ _
                (when-Waits transition.semantic_changed _ _ kept kept)
                λ done kept.
                  bind-keep Waits (set_session i _) _ _ (set-Waits i _ _ kept) (λ done kept. kept)
    where
      transition : HeartbeatTransition
      transition = reduce_heartbeat session.fields input now

  beat_live-Waits :
      (monotonic : ℕ) (i : String) (input : HeartbeatInput) (session : Option RegisteredSession)
      (r : Registry S)
      → Waits r
      → Waits (beat_live store now fits monotonic i input session r).registry
  unfolding beat_live
  beat_live-Waits monotonic i input none r waits = waits
  beat_live-Waits monotonic i input (some session) r waits =
      beat-Waits monotonic i _ session r waits

  pub heartbeat-Waits :
      (monotonic : ℕ) (i : String) (input : HeartbeatInput) (r : Registry S)
      → Waits r
      → Waits (heartbeat store now fits monotonic i input r).registry
  unfolding heartbeat
  heartbeat-Waits monotonic i input r waits =
      beat_live-Waits monotonic i input (lookup r.sessions i) r waits

  take_up-Waits :
      (recovery : Option Recovery) (i : String) (r : Registry S)
      → Waits r
      → Waits (take_up store recovery i r).registry
  unfolding take_up
  take_up-Waits none i r waits = waits
  take_up-Waits (some (pending_again terminal)) i r waits = waits
  take_up-Waits (some (committed_before session)) i r waits = waits

  recover-Waits :
      (previous : Option RegisteredSession) (input : RegisterInput) (r : Registry S)
      → Waits r
      → Waits (recover_terminal store previous input r).registry
  unfolding recover_terminal
  recover-Waits (some previous) input r waits = waits
  recover-Waits none input r waits =
      when-Waits
        (input.status == some need_human
          && not (is_terminal_evidence store (store.get_session r.store input.session_id)))
        _ r waits
        (take_up-Waits
          (restore_persisted_terminal store r.store input
            (store.get_session r.store input.session_id))
          input.session_id r waits)

  authorized-Waits :
      (a : Authorization) (r : Registry S) → Waits r → Waits (check_authorized store a r).registry
  unfolding check_authorized
  authorized-Waits authorized r waits = waits
  authorized-Waits (collision session_id) r waits = waits

  module _ (monotonic : ℕ) (fresh_lease host_id : String) where
    contend-Waits :
        (previous : Option RegisteredSession) (input : RegisterInput) (r : Registry S)
        → Waits r
        → Waits (contend store fits now monotonic fresh_lease host_id previous input r).registry
    unfolding contend
    contend-Waits none input r waits = waits
    contend-Waits (some previous) input r waits =
        if-elim (λ (m : Action S (Unit {0})). Waits (m r).registry) (has_expired monotonic previous)
          (lose_ownership store now previous.fields.session_id ttl) _
          (λ h. lose-Waits store now previous.fields.session_id ttl r waits)
          λ h.
            if-elim (λ (m : Action S (Unit {0})). Waits (m r).registry)
              (previous.driver_instance_id != input.driver_instance_id) (fail "owner_conflict")
              (pure tt) (λ h. waits) (λ h. waits)

    persist-Waits :
        (i : String) (transition : RegistrationTransition) (p : Persistence) (r : Registry S)
        → Waits r
        → Waits
            (persist_registration store fits now monotonic fresh_lease host_id i transition p
              r).registry
    unfolding persist_registration
    persist-Waits i transition durable_set_session_driver r waits = waits
    persist-Waits i transition (durable_cancel_terminal driver cancellation) r waits =
        cancel-Waits store now i _ r waits

    stored-Waits :
        (previous : Option RegisteredSession) (input : RegisterInput)
        (transition : RegistrationTransition) (r : Registry S)
        → Waits r
        → Waits
            (store_registration store fits now monotonic fresh_lease host_id previous input
              transition r).registry
    unfolding store_registration
    stored-Waits previous input transition r waits =
        bind-keep Waits (assert_storable store now fits transition.next_session) _ r
          (storable-Waits transition.next_session r waits)
          λ done kept.
            bind-keep Waits
              (persist_registration store fits now monotonic fresh_lease host_id input.session_id
                transition transition.persistence)
              _ _ (persist-Waits input.session_id transition transition.persistence _ kept)
              λ done kept.
                bind-keep Waits (set_session input.session_id _) _ _
                  (set-Waits input.session_id _ _ kept)
                  λ done kept.
                    bind-keep Waits (when_ transition.semantic_changed (emit (mutated register))) _
                      _ (when-Waits transition.semantic_changed _ _ kept kept) (λ done kept. kept)

    over-Waits :
        (input : RegisterInput) (previous : Option RegisteredSession) (r : Registry S)
        → Waits r
        → Waits
            (register_over store fits now monotonic fresh_lease host_id input previous r).registry
    unfolding register_over
    over-Waits input previous r waits =
        bind-keep Waits (recover_terminal store previous input) _ r
          (recover-Waits previous input r waits)
          λ done kept.
            bind-keep Waits (check_authorized store _) _ _ (authorized-Waits _ _ kept) λ done kept.
              bind-keep Waits (contend store fits now monotonic fresh_lease host_id previous input)
                _ _ (contend-Waits previous input _ kept)
                λ done kept. stored-Waits previous input _ _ kept

    pub register-Waits :
        (input : RegisterInput) (r : Registry S)
        → Waits r
        → Waits (register_session store fits now monotonic fresh_lease host_id input r).registry
    unfolding register_session
    register-Waits input r waits =
        if-elim (λ (m : Action S RegisteredSession). Waits (m r).registry)
          (input.driver_instance_id == "") (fail "driverInstanceId is required") _ (λ h. waits)
          (λ h. over-Waits input (lookup r.sessions input.session_id) r waits)
