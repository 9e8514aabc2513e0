-- ===== src/Adapter/Registry/Pushes/Returned.antt =====
-- `pushEvent` and `pushEventSource` that return: every staged event is waited for.
use ariava.Prelude.{
  ℕ, String, Bool, true, false, not, ◌&&◌, ◌≡◌, refl, ap, ◌∙◌, Option, none, some, if◌then◌else◌,
  ◌==◌, ◌!=◌, string_eq, Result, ok, throw,
}
use ariava.Prelude.Dict.{lookup}
use ariava.Store.State.{Timestamp, Reservation, Checkpoint}
use ariava.Adapter.{RegisteredSession, PendingTerminal, EventInput}
use ariava.Adapter.Registry.{Registry, StateStore}
use ariava.Adapter.Registry.Action.{Action, Ran, pure, fail, continue, ◌>>=◌, ◌>>◌, write}
use ariava.Adapter.Registry.Terminal.{has_pending_command_work}
use ariava.Adapter.Registry.Push.{
  check_event, stage, promote_when, follow_plan, push_to, push_event, commit_source, is_not_after,
  resume_tuple, resume_reserved, repeat_source, push_source_new, push_source_after, push_source_to,
  push_event_source,
}
use ariava.Adapter.Registry.Slots.{
  slot, Waits, Frames-Waits, Quiet-Waits, if-elim, Quiet, kept-owned,
}
use ariava.Adapter.Registry.Slots.Queues.{KeepsQueues}
use ariava.Adapter.Registry.Pushes.Queues.{promote_when-queues}
use ariava.Adapter.Registry.Pushes.{works, stage-At, promote-ready}
use ariava.Adapter.Registry.Pushes.Whole.{
  follow_plan-Waits, check-Quiet, stage-Frames, when_promoted-Frames,
}

module _ {S : Type 0} where
  -- If the method returns, every staged event is waited for.
  abbrev pub ReturnsWaits : {A : Type 0} → Ran S A → Type 0
  ReturnsWaits {A} ran = (a : A) → ran.result ≡ ok a → Waits ran.registry

  bind-ReturnsWaits :
      {A B : Type 0} (m : Action S A) (k : A → Action S B) (r : Registry S)
      → ((a : A) → (m r).result ≡ ok a → ReturnsWaits (k a (m r).registry))
      → ReturnsWaits ((m >>= k) r)
  bind-ReturnsWaits {A} m k r next = of_result (m r).result refl
    where
      of_result :
          (result : Result String A)
          → (m r).result ≡ result
          → ReturnsWaits (continue (m r).registry result k)
      of_result (ok a) e = next a e
      of_result (throw error) e = λ out h. cc

  if-ReturnsWaits :
      {A : Type 0} (b : Bool) (m n : Action S A) (r : Registry S)
      → ReturnsWaits (m r)
      → ReturnsWaits (n r)
      → ReturnsWaits ((if b then m else n) r)
  if-ReturnsWaits true m n r first second = first
  if-ReturnsWaits false m n r first second = second

  module _ (store : StateStore S) (now : Timestamp) (fresh_id i : String) (input : EventInput) where
    -- The session stays live through the check, which changes nothing.
    checked :
        {A : Type 0} (session : RegisteredSession) (k : Action S A) (r : Registry S)
        → Waits r
        → lookup r.sessions i ≡ some session
        → ((r : Registry S) → Waits r → lookup r.sessions i ≡ some session → ReturnsWaits (k r))
        → ReturnsWaits ((check_event store now fresh_id i input session >> k) r)
    checked session k r waits live next =
        bind-ReturnsWaits (check_event store now fresh_id i input session) (λ done. k) r
          λ done e.
            next (check_event store now fresh_id i input session r).registry
              (Quiet-Waits r (check_event store now fresh_id i input session r).registry
                (check-Quiet store now fresh_id i input session r) waits)
              (ap (λ s. s.session) (check-Quiet store now fresh_id i input session r i) ∙ live)

    push_to-Waits :
        (session : Option RegisteredSession) (r : Registry S)
        → Waits r
        → lookup r.sessions i ≡ session
        → ReturnsWaits (push_to store now fresh_id i input session r)
    unfolding push_to
    push_to-Waits none r waits live = λ out h. cc
    push_to-Waits (some session) r waits live = checked session _ r waits live λ r waits live.
        bind-ReturnsWaits
          (follow_plan store now fresh_id (λ v. write (λ s. store.reserve_event s v)) (λ v. pure tt)
            i input session)
          _ r
          λ out e value h.
            follow_plan-Waits store now fresh_id i input (λ v. write (λ s. store.reserve_event s v))
              (λ v. pure tt) (λ v r j. refl) (λ v r j. refl) (λ v r. refl) (λ v r. refl) session r
              out waits live e

    pub push-Waits :
        (r : Registry S) → Waits r → ReturnsWaits (push_event store now fresh_id i input r)
    unfolding push_event
    push-Waits r waits = push_to-Waits (lookup r.sessions i) r waits refl

    module _ (order_of : String → Option ℕ) (producer_event_id producer_event_order : String) where
      commit-Quiet :
          (v : Reservation)
          → Quiet (
              commit_source store now fresh_id order_of producer_event_id producer_event_order i
                input v)
      unfolding commit_source
      commit-Quiet v r j = refl

      commit-queues :
          (v : Reservation)
          → KeepsQueues (
              commit_source store now fresh_id order_of producer_event_id producer_event_order i
                input v)
      unfolding commit_source
      commit-queues v r = refl

      new-Waits :
          (session : RegisteredSession) (r : Registry S)
          → Waits r
          → lookup r.sessions i ≡ some session
          → ReturnsWaits (
              push_source_new store now fresh_id order_of producer_event_id producer_event_order i
                input session r)
      unfolding push_source_new
      new-Waits session r waits live =
          bind-ReturnsWaits
            (follow_plan store now fresh_id
              (commit_source store now fresh_id order_of producer_event_id producer_event_order i
                input)
              (commit_source store now fresh_id order_of producer_event_id producer_event_order i
                input)
              i input session)
            _ r
            λ out e value h.
              follow_plan-Waits store now fresh_id i input _ _ commit-Quiet commit-Quiet
                commit-queues commit-queues session r out waits live e

      -- A tuple that is taken up again is promoted unless command work is pending.
      resume-Waits :
          (session : RegisteredSession) (tuple : Option PendingTerminal) (r : Registry S)
          → Waits r
          → lookup r.sessions i ≡ some session
          → Waits
              (resume_tuple store now fresh_id order_of producer_event_id producer_event_order i
                input tuple r).registry
      unfolding resume_tuple has_pending_command_work stage
      resume-Waits session none r waits live = waits
      resume-Waits session (some t) r waits live =
          Frames-Waits i r
            (promote_when store now fresh_id promote_now i t input
              (stage store now fresh_id i t r).registry).registry
            (λ j other.
              when_promoted-Frames store now fresh_id i input promote_now t
                (stage store now fresh_id i t r).registry j other
              ∙ stage-Frames store now fresh_id i input t r j other)
            (promote-ready store now fresh_id i input promote_now t
              (stage store now fresh_id i t r).registry
              (stage-At store now fresh_id i input promote_now t r
                (record { current = session; is_live = live; promotes = refl })))
            (kept-owned i r
              (promote_when store now fresh_id promote_now i t input
                (stage store now fresh_id i t r).registry).registry
              (promote_when-queues store now fresh_id i input promote_now t _) waits)
            waits
        where
          promote_now : Bool
          promote_now = not (works (slot (stage store now fresh_id i t r).registry i))

      resume_reserved-Waits :
          (session : RegisteredSession) (checkpoint : Checkpoint) (v : Option Reservation)
          (r : Registry S)
          → Waits r
          → lookup r.sessions i ≡ some session
          → Waits
              (resume_reserved store now fresh_id order_of producer_event_id producer_event_order i
                input checkpoint v r).registry
      unfolding resume_reserved
      resume_reserved-Waits session checkpoint none r waits live = waits
      resume_reserved-Waits session checkpoint (some v) r waits live =
          if-elim (λ (m : Action S (Unit {0})). Waits (m r).registry)
            (v.event_id != checkpoint.event_id) (fail _) _ (λ h. waits)
            (λ h.
              resume-Waits session
                (store.get_tuple r.store checkpoint.event_id (store.fingerprint input)) r waits
                live)

      repeat-Waits :
          (session : RegisteredSession) (checkpoint : Checkpoint) (r : Registry S)
          → Waits r
          → lookup r.sessions i ≡ some session
          → ReturnsWaits (
              repeat_source store now fresh_id order_of producer_event_id producer_event_order i
                input checkpoint r)
      unfolding repeat_source
      repeat-Waits session checkpoint r waits live =
          if-ReturnsWaits (checkpoint.fingerprint != store.fingerprint input) (fail _) _ r
            (λ out h. cc)
            (bind-ReturnsWaits
              (λ r.
                resume_reserved store now fresh_id order_of producer_event_id producer_event_order i
                  input checkpoint (store.get_reservation r.store i (store.fingerprint input)) r)
              _ r
              λ done e value h.
                resume_reserved-Waits session checkpoint
                  (store.get_reservation r.store i (store.fingerprint input)) r waits live)

      after-Waits :
          (session : RegisteredSession) (checkpoint : Option Checkpoint) (r : Registry S)
          → Waits r
          → lookup r.sessions i ≡ some session
          → ReturnsWaits (
              push_source_after store now fresh_id order_of producer_event_id producer_event_order i
                input session checkpoint r)
      unfolding push_source_after
      after-Waits session none r waits live = new-Waits session r waits live
      after-Waits session (some checkpoint) r waits live =
          if-ReturnsWaits
            (checkpoint.producer_event_id == producer_event_id
              && checkpoint.producer_event_order == producer_event_order)
            _ _ r (repeat-Waits session checkpoint r waits live)
            (if-ReturnsWaits
              (is_not_after store now fresh_id order_of producer_event_id producer_event_order
                (order_of checkpoint.producer_event_order) (order_of producer_event_order))
              (fail "order_conflict")
              (push_source_new store now fresh_id order_of producer_event_id producer_event_order i
                input session)
              r (λ out h. cc) (new-Waits session r waits live))

      source_to-Waits :
          (session : Option RegisteredSession) (r : Registry S)
          → Waits r
          → lookup r.sessions i ≡ session
          → ReturnsWaits (
              push_source_to store now fresh_id order_of producer_event_id producer_event_order i
                input session r)
      unfolding push_source_to
      source_to-Waits none r waits live = λ out h. cc
      source_to-Waits (some session) r waits live =
          checked session _ r waits live
            λ r waits live. after-Waits session (store.get_checkpoint r.store i) r waits live

      pub source-Waits :
          (r : Registry S)
          → Waits r
          → ReturnsWaits (
              push_event_source store now fresh_id order_of producer_event_id producer_event_order i
                input r)
      unfolding push_event_source
      source-Waits r waits = source_to-Waits (lookup r.sessions i) r waits refl
