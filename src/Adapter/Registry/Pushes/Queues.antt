-- ===== src/Adapter/Registry/Pushes/Queues.antt =====
-- A push leaves the command queues alone.
use ariava.Prelude.{String, Bool, true, false, Option, none, some, refl}
use ariava.Prelude.Dict.{lookup}
use ariava.Store.State.{Timestamp, Reservation}
use ariava.Adapter.{PendingTerminal, EventInput}
use ariava.Adapter.Plan.{
  TerminalPlan, return_live_duplicate, return_reservation_without_tuple, stage_reserved_tuple,
  cancel_older_and_reserve, reserve_new_tuple, reject,
}
use ariava.Adapter.Registry.{StateStore}
use ariava.Adapter.Registry.Action.{Action, pure, ◌>>◌, write}
use ariava.Adapter.Registry.Terminal.{no_options, cancel_terminal_retry}
use ariava.Adapter.Registry.Push.{
  committed_event, duplicate_event, stage, promote_when, return_duplicate, reserve_and_stage,
  stage_reserved, follow, reservation_for,
}
use ariava.Adapter.Registry.Slots.Queues.{
  KeepsQueues, bind-KeepsQueues, cancel-queues, promote-queues,
}

module _ {S : Type 0} (store : StateStore S) (now : Timestamp) (fresh_id i : String)
    (input : EventInput) where
  pub promote_when-queues :
      (promote_now : Bool) (t : PendingTerminal)
      → KeepsQueues (promote_when store now fresh_id promote_now i t input)
  unfolding promote_when
  promote_when-queues true t = promote-queues store now i t (store.fingerprint input)
  promote_when-queues false t = λ r. refl

  promoted-queues :
      {A : Type 0} (promote_now : Bool) (t : PendingTerminal) (value : A)
      → KeepsQueues (promote_when store now fresh_id promote_now i t input >> pure value)
  promoted-queues {A} promote_now t value =
      bind-KeepsQueues {B = A} (promote_when store now fresh_id promote_now i t input)
        (λ done. pure value) (promote_when-queues promote_now t) (λ done r. refl)

  staged-queues :
      {A : Type 0} (promote_now : Bool) (t : PendingTerminal) (reserve : Action S (Unit {0}))
      (value : A)
      → KeepsQueues reserve
      → KeepsQueues (
          stage store now fresh_id i t
          >> (reserve >> (promote_when store now fresh_id promote_now i t input >> pure value)))
  unfolding stage
  staged-queues promote_now t reserve value kept =
      bind-KeepsQueues (stage store now fresh_id i t)
        (λ done. reserve >> (promote_when store now fresh_id promote_now i t input >> pure value))
        (λ r. refl)
        λ done.
          bind-KeepsQueues reserve
            (λ done. promote_when store now fresh_id promote_now i t input >> pure value) kept
            (λ done. promoted-queues promote_now t value)

  reserve-queues :
      (t : PendingTerminal) (promote_now : Bool) (reserve : Action S (Unit {0}))
      → KeepsQueues reserve
      → KeepsQueues (reserve_and_stage store now fresh_id i input t promote_now reserve)
  unfolding reserve_and_stage
  reserve-queues t promote_now reserve kept =
      bind-KeepsQueues (write (λ s. store.reserve_tuple s t (store.fingerprint input)))
        (λ done.
          stage store now fresh_id i t
          >> (reserve
              >> (promote_when store now fresh_id promote_now i t input
                  >> pure (t.event.event_id, committed_event))))
        (λ r. refl)
        (λ done. staged-queues promote_now t reserve (t.event.event_id, committed_event) kept)

  module _ (reserve take_up : Reservation → Action S (Unit {0}))
      (reserve_queues : (v : Reservation) → KeepsQueues (reserve v))
      (take_up_queues : (v : Reservation) → KeepsQueues (take_up v)) where
    duplicate-queues :
        (promote_now : Bool) (pending : Option PendingTerminal)
        → KeepsQueues (return_duplicate store now fresh_id promote_now i input pending)
    unfolding return_duplicate
    duplicate-queues promote_now none = λ r. refl
    duplicate-queues promote_now (some t) =
        promoted-queues promote_now t (t.event.event_id, duplicate_event)

    reserved-queues :
        (t : PendingTerminal) (promote_now : Bool) (v : Option Reservation)
        → KeepsQueues (stage_reserved store now fresh_id reserve take_up i input t promote_now v)
    unfolding stage_reserved
    reserved-queues t promote_now none = λ r. refl
    reserved-queues t promote_now (some v) =
        staged-queues promote_now t (take_up v) (v.event_id, committed_event) (take_up_queues v)

    pub follow-queues :
        (plan : TerminalPlan) → KeepsQueues (follow store now fresh_id reserve take_up i input plan)
    unfolding follow
    follow-queues (reject error) = λ r. refl
    follow-queues (return_reservation_without_tuple event_id) = λ r. refl
    follow-queues (return_live_duplicate promote_now) =
        λ r. duplicate-queues promote_now (lookup r.delayed_terminal_events i) r
    follow-queues (stage_reserved_tuple t promote_now) =
        λ r. reserved-queues t promote_now (reservation_for store now fresh_id r i input) r
    follow-queues (reserve_new_tuple t v promote_now) =
        reserve-queues t promote_now (reserve v) (reserve_queues v)
    follow-queues (cancel_older_and_reserve t v promote_now) =
        bind-KeepsQueues (cancel_terminal_retry store now i no_options)
          (λ done. reserve_and_stage store now fresh_id i input t promote_now (reserve v))
          (cancel-queues store now i no_options)
          (λ done. reserve-queues t promote_now (reserve v) (reserve_queues v))
