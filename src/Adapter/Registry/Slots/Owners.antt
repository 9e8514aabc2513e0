-- ===== src/Adapter/Registry/Slots/Owners.antt =====
-- The loss of ownership, heartbeats and registrations: a staged event is cancelled with its session,
-- or stays waited for.
use ariava.Prelude.{
  ℕ, String, true, false, ◌≡◌, refl, ap, ◌∙◌, Option, none, some, [], ◌∷◌, ◌==◌, string_eq, Result,
  ok, throw, arith,
}
use ariava.Prelude.Dict.{Dict, lookup, lookup-remove_ne}
use ariava.Store.State.{Timestamp}
use ariava.Adapter.{RegisteredSession, PendingTerminal, MutationReason, ttl}
use ariava.Adapter.Registration.{Cancellation}
use ariava.Adapter.Registry.{Registry, StateStore, Binding}
use ariava.Adapter.Registry.Action.{Action, Ran, pure, fail, continue, ◌>>◌, modify}
use ariava.Adapter.Registry.Terminal.{clear_retry, cancel_terminal_retry}
use ariava.Adapter.Registry.Queue.{settle_result_waiters}
use ariava.Adapter.Registry.Owner.{
  orphan, orphan_all, withdraw, drop_live, lose_ownership, unregister_live, unregister_session,
  assert_owner, assert_current_owner, has_expired,
}
use ariava.Adapter.Registry.Slots.{
  is_ready, slot, Waits, Frames-Waits, if-elim, bind-keep, is_owned, kept-owned,
}
use ariava.Adapter.Registry.Slots.Retries.{cancel-Frames, clear-slot, lookup-remove_self}
use ariava.Adapter.Registry.Slots.Queues.{cancel-queues, clear-queues}
use ariava.Adapter.Registry.Slots.Ready.{cancel_cases, clear-Ready, cancel-Ready}

module _ {S : Type 0} (store : StateStore S) (now : Timestamp) where
  orphan_all-slot :
      (i : String) (bindings : Dict Binding) (r : Registry S) (j : String)
      → slot (orphan_all store now i bindings r) j ≡ slot r j
  unfolding orphan_all orphan settle_result_waiters
  orphan_all-slot i [] r j = refl
  orphan_all-slot i ((command_id, binding) ∷ bindings) r j =
      orphan_all-slot i bindings _ j
      ∙ if-elim (λ (x : Registry S). slot x j ≡ slot r j) (binding.session_id == i)
          (orphan store now command_id r) r (λ h. refl) (λ h. refl)

  drop-slot :
      (i : String) (reason : MutationReason) (r : Registry S) (j : String)
      → (i == j) ≡ false
      → slot (drop_live store now i reason r) j ≡ slot r j
  unfolding drop_live
  drop-slot i reason r j other =
      rw
        (
          lookup-remove_ne (orphan_all store now i r.command_sessions r).command_queues i j other,
          lookup-remove_ne (orphan_all store now i r.command_sessions r).in_flight_commands i j
              other,
          lookup-remove_ne (orphan_all store now i r.command_sessions r).sessions i j other,
        )
        (orphan_all-slot i r.command_sessions r j)

  -- Nothing is staged any more: then the session may go.
  drop-Ready :
      (i : String) (reason : MutationReason) (r : Registry S)
      → lookup r.delayed_terminal_events i ≡ none
      → is_ready (slot (drop_live store now i reason r) i) ≡ true
  unfolding drop_live
  drop-Ready i reason r gone =
      rw (ap (λ s. s.pending) (orphan_all-slot i r.command_sessions r i), gone) (ground arith)

  drop-owned :
      (i : String) (reason : MutationReason) (r : Registry S)
      → is_owned i (lookup (drop_live store now i reason r).command_queues i) ≡ true
  unfolding drop_live
  drop-owned i reason r =
      ap (is_owned i)
        (lookup-remove_self (orphan_all store now i r.command_sessions r).command_queues i)

  drop-Waits :
      (i : String) (reason : MutationReason) (r : Registry S)
      → lookup r.delayed_terminal_events i ≡ none
      → Waits r
      → Waits (drop_live store now i reason r)
  drop-Waits i reason r gone waits =
      Frames-Waits i r (drop_live store now i reason r) (drop-slot i reason r)
        (drop-Ready i reason r gone) (drop-owned i reason r) waits

  pub cancel-Waits :
      (i : String) (options : _) (r : Registry S)
      → Waits r
      → Waits (cancel_terminal_retry store now i options r).registry
  cancel-Waits i options r waits =
      Frames-Waits i r (cancel_terminal_retry store now i options r).registry
        (cancel-Frames store now i options r) (cancel-Ready store now i options r (waits i).0)
        (kept-owned i r (cancel_terminal_retry store now i options r).registry
          (cancel-queues store now i options r) waits)
        waits

  -- What is left of the registry once the event is withdrawn, if that returns.
  withdraw_cases :
      (P : Ran S (Unit {0}) → Type 0) (i : String) (pending : Option PendingTerminal)
      (persisted : Option Cancellation) (r : Registry S)
      → lookup r.delayed_terminal_events i ≡ pending
      → ((s : S) (result : Result String (Unit {0}))
          → (result ≡ ok tt → lookup r.delayed_terminal_events i ≡ none)
          → P (record { registry = record r { store = s }; result = result }))
      → ((s : S)
          → P (record {
            registry = clear_retry store now i (record r { store = s });
            result = ok tt;
          }))
      → P (withdraw store now i pending persisted r)
  unfolding withdraw
  withdraw_cases P i none none r staged wrote cleared = wrote _ _ (λ h. staged)
  withdraw_cases P i (some pending) persisted r staged wrote cleared =
      cancel_cases store now i P _ r (λ s error. wrote s (throw error) (λ h. cc)) cleared
  withdraw_cases P i none (some persisted) r staged wrote cleared =
      cancel_cases store now i P _ r (λ s error. wrote s (throw error) (λ h. cc)) cleared

  clear-Waits : (i : String) (r : Registry S) → Waits r → Waits (clear_retry store now i r)
  clear-Waits i r waits =
      Frames-Waits i r (clear_retry store now i r) (clear-slot store now i r)
        (clear-Ready store now i r)
        (kept-owned i r (clear_retry store now i r) (clear-queues store now i r) waits) waits

  clear-gone :
      (i : String) (r : Registry S)
      → lookup (clear_retry store now i r).delayed_terminal_events i ≡ none
  unfolding clear_retry
  clear-gone i r = lookup-remove_self r.delayed_terminal_events i

  pub lose-Waits :
      (i : String) (reason : MutationReason) (r : Registry S)
      → Waits r
      → Waits (lose_ownership store now i reason r).registry
  unfolding lose_ownership
  lose-Waits i reason r waits =
      withdraw_cases dropped i (lookup r.delayed_terminal_events i)
        (store.get_cancellation r.store i) r refl wrote
        λ s. drop-Waits i reason _ (clear-gone i _) (clear-Waits i (record r { store = s }) waits)
    where
      dropped : Ran S (Unit {0}) → Type 0
      dropped ran =
          Waits
            (continue ran.registry ran.result
              (λ done. modify (drop_live store now i reason))).registry

      wrote :
          (s : S) (result : Result String (Unit {0}))
          → (result ≡ ok tt → lookup r.delayed_terminal_events i ≡ none)
          → dropped (record { registry = record r { store = s }; result = result })
      wrote s (ok done) gone = drop-Waits i reason (record r { store = s }) (gone refl) waits
      wrote s (throw error) gone = waits

  unregister_live-Waits :
      (i : String) (reason : MutationReason) (session : Option RegisteredSession) (r : Registry S)
      → Waits r
      → Waits (unregister_live store now i reason session r).registry
  unfolding unregister_live
  unregister_live-Waits i reason none r waits = waits
  unregister_live-Waits i reason (some session) r waits =
      bind-keep Waits (lose_ownership store now session.fields.session_id reason)
        (λ done. pure true) r (lose-Waits session.fields.session_id reason r waits)
        (λ done kept. kept)

  pub unregister-Waits :
      (i : String) (reason : MutationReason) (r : Registry S)
      → Waits r
      → Waits (unregister_session store now i reason r).registry
  unfolding unregister_session
  unregister-Waits i reason r waits = unregister_live-Waits i reason (lookup r.sessions i) r waits

  assert_owner-Waits :
      (monotonic : ℕ) (i instance_id lease : String) (session : Option RegisteredSession)
      (r : Registry S)
      → Waits r
      → Waits (assert_owner store now monotonic i instance_id lease session r).registry
  unfolding assert_owner
  assert_owner-Waits monotonic i instance_id lease none r waits = waits
  assert_owner-Waits monotonic i instance_id lease (some session) r waits =
      if-elim (λ (m : Action S (Unit {0})). Waits (m r).registry) (has_expired monotonic session)
        (lose_ownership store now session.fields.session_id ttl >> fail "stale_owner") _
        (λ h.
          bind-keep Waits (lose_ownership store now session.fields.session_id ttl)
            (λ done. fail "stale_owner") r (lose-Waits session.fields.session_id ttl r waits)
            (λ done kept. kept))
        (λ h.
          if-elim (λ (m : Action S (Unit {0})). Waits (m r).registry) _ (fail "stale_owner")
            (pure tt) (λ h. waits) (λ h. waits))

  pub assert_owner_now-Waits :
      (monotonic : ℕ) (i instance_id lease : String) (r : Registry S)
      → Waits r
      → Waits (assert_current_owner store now monotonic i instance_id lease r).registry
  unfolding assert_current_owner
  assert_owner_now-Waits monotonic i instance_id lease r waits =
      assert_owner-Waits monotonic i instance_id lease (lookup r.sessions i) r waits
