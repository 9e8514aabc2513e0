-- ===== src/Adapter/Registry/Contention.antt =====
-- Contention for a session: a contender is refused while the owner's lease lasts, and what the loss
-- of ownership leaves behind.
use mathlib.Core.Path.{subst}
use ariava.Prelude.{
  ℕ, String, Bool, true, false, ◌≡◌, refl, sym, ◌∙◌, Option, none, some, [], ◌∷◌, ◌==◌, ◌!=◌,
  string_eq, throw,
}
use ariava.Prelude.Dict.{Dict, lookup}
use ariava.Store.State.{Timestamp, CanonicalSession}
use ariava.Adapter.{RegisteredSession, RegisterInput, PendingTerminal, MutationReason}
use ariava.Adapter.Registration.{Authorization, authorized, collision, Cancellation}
use ariava.Adapter.Registry.{Registry, StateStore, Binding}
use ariava.Adapter.Registry.Action.{Action, Ran, fail, ◌>>◌, modify}
use ariava.Adapter.Registry.Terminal.{CancelOptions, clear_retry, cancel_terminal_retry}
use ariava.Adapter.Registry.Queue.{settle_result_waiters}
use ariava.Adapter.Registry.Owner.{
  has_expired, orphan_all, orphan, withdraw, drop_live, lose_ownership,
}
use ariava.Adapter.Registry.Register.{
  register_session, register_over, recover_terminal, check_authorized, contend,
}
use ariava.Adapter.Registry.Slots.{if-elim, bind-keep}
use ariava.Adapter.Registry.Slots.Ready.{cancel_cases}

module _ {S : Type 0} (store : StateStore S) (now : Timestamp) where
  -- A call that changed nothing and threw.
  pub record Refused {A : Type 0} (r : Registry S) (ran : Ran S A) : Type 0 where
    pub unchanged : ran.registry ≡ r
    pub error : String
    pub thrown : ran.result ≡ throw error

  module _ (fits : CanonicalSession → Bool) (monotonic : ℕ) (fresh_lease host_id : String)
      (previous : RegisteredSession) (input : RegisterInput) where
    contended :
        {A : Type 0} (k : Action S A) (r : Registry S)
        → has_expired monotonic previous ≡ false
        → (previous.driver_instance_id != input.driver_instance_id) ≡ true
        → Refused r
            ((contend store fits now monotonic fresh_lease host_id (some previous) input >> k) r)
    unfolding contend
    contended k r lasts other = record {
      unchanged = rw (lasts, other) refl;
      error = "owner_conflict";
      thrown = rw (lasts, other) refl;
    }

    over-Refused :
        (a : Authorization) (k : Action S RegisteredSession) (r : Registry S)
        → Refused r (k r)
        → Refused r ((check_authorized store a >> k) r)
    unfolding check_authorized
    over-Refused authorized k r refused = refused
    over-Refused (collision session_id) k r refused = record {
      unchanged = refl;
      error = "session_id_collision";
      thrown = refl;
    }

    -- While the lease of a live session lasts, a registration of it by another driver instance is
    -- refused: it throws, and changes nothing in the registry or in the state store.
    pub contender-Refused :
        (r : Registry S)
        → lookup r.sessions input.session_id ≡ some previous
        → has_expired monotonic previous ≡ false
        → (previous.driver_instance_id != input.driver_instance_id) ≡ true
        → Refused r (register_session store fits now monotonic fresh_lease host_id input r)
    unfolding register_session register_over recover_terminal
    contender-Refused r live lasts other =
        if-elim (λ (m : Action S RegisteredSession). Refused r (m r))
          (input.driver_instance_id == "") (fail "driverInstanceId is required") _
          (λ h. record { unchanged = refl; error = "driverInstanceId is required"; thrown = refl })
          λ h.
            subst
              (λ (session : Option RegisteredSession).
                Refused r
                  (register_over store fits now monotonic fresh_lease host_id input session r))
              (sym live) (over-Refused _ _ r (contended _ r lasts other))

  module _ (i : String) where
    clear-waiters :
        (r : Registry S) → (clear_retry store now i r).command_waiters ≡ r.command_waiters
    unfolding clear_retry
    clear-waiters r = refl

    cancelled-waiters :
        (options : CancelOptions) (r : Registry S)
        → (cancel_terminal_retry store now i options r).registry.command_waiters ≡ r.command_waiters
    cancelled-waiters options r =
        cancel_cases store now i (λ ran. ran.registry.command_waiters ≡ r.command_waiters) options r
          (λ s error. refl) (λ s. clear-waiters (record r { store = s }))

    withdraw-waiters :
        (pending : Option PendingTerminal) (persisted : Option Cancellation) (r : Registry S)
        → (withdraw store now i pending persisted r).registry.command_waiters ≡ r.command_waiters
    unfolding withdraw
    withdraw-waiters none none r = refl
    withdraw-waiters (some pending) persisted r = cancelled-waiters _ r
    withdraw-waiters none (some persisted) r = cancelled-waiters _ r

    orphan-waiters :
        (command_id : String) (r : Registry S)
        → (orphan store now command_id r).command_waiters ≡ r.command_waiters
    unfolding orphan settle_result_waiters
    orphan-waiters command_id r = refl

    orphan_all-waiters :
        (bindings : Dict Binding) (r : Registry S)
        → (orphan_all store now i bindings r).command_waiters ≡ r.command_waiters
    unfolding orphan_all
    orphan_all-waiters [] r = refl
    orphan_all-waiters ((command_id, binding) ∷ bindings) r =
        orphan_all-waiters bindings _
        ∙ if-elim (λ (after : Registry S). after.command_waiters ≡ r.command_waiters)
            (binding.session_id == i) (orphan store now command_id r) r
            (λ h. orphan-waiters command_id r) (λ h. refl)

    -- The loss of ownership of a session leaves every poll for commands waiting, those of the session
    -- that is lost too: whatever the reason is, and whether its write of the state store fails.
    pub lose_ownership-keeps_polls :
        (reason : MutationReason) (r : Registry S)
        → (lose_ownership store now i reason r).registry.command_waiters ≡ r.command_waiters
    unfolding lose_ownership drop_live
    lose_ownership-keeps_polls reason r =
        bind-keep (λ after. after.command_waiters ≡ r.command_waiters) withdrawn
          (λ done. modify (drop_live store now i reason)) r kept
          (λ done kept. orphan_all-waiters (withdrawn r).registry.command_sessions _ ∙ kept)
      where
        withdrawn : Action S (Unit {0})
        withdrawn =
            withdraw store now i (lookup r.delayed_terminal_events i)
              (store.get_cancellation r.store i)

        kept : (withdrawn r).registry.command_waiters ≡ r.command_waiters
        kept =
            withdraw-waiters (lookup r.delayed_terminal_events i) (store.get_cancellation r.store i)
              r
