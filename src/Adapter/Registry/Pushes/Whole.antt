-- ===== src/Adapter/Registry/Pushes/Whole.antt =====
-- A push touches one session, and one that returns leaves every staged event waited for.
use ariava.Prelude.{String, Bool, not, ◌≡◌, refl, Option, none, some, ◌!=◌, string_eq, ok}
use ariava.Prelude.Dict.{lookup, lookup-insert_ne}
use ariava.Store.State.{Timestamp, Reservation}
use ariava.Adapter.{RegisteredSession, PendingTerminal, EventInput, SessionFields}
use ariava.Adapter.Codec.{assert_context_matches}
use ariava.Adapter.Plan.{
  TerminalPlan, return_live_duplicate, return_reservation_without_tuple, stage_reserved_tuple,
  cancel_older_and_reserve, reserve_new_tuple, reject, PlanInput, plan_terminal_event, plan_at,
  plan_reserved, plan_new,
}
use ariava.Adapter.Plan.Duplicates.{for-cases}
use ariava.Adapter.Registry.{Registry, StateStore}
use ariava.Adapter.Registry.Action.{Action, pure, fail, ◌>>◌, write, raise}
use ariava.Adapter.Registry.Terminal.{
  no_options, has_pending_command_work, cancel_terminal_retry, promote_pending_terminal,
}
use ariava.Adapter.Registry.Push.{
  Disposition, committed_event, duplicate_event, check_event, stage, promote_when, return_duplicate,
  reserve_and_stage, stage_reserved, follow, follow_plan, plan_input, reservation_for,
}
use ariava.Adapter.Registry.Slots.{
  slot, Waits, Frames-Waits, if-elim, Frames, Quiet, bind-Frames, when-Frames, kept-owned,
}
use ariava.Adapter.Registry.Slots.Retries.{promote-Frames, cancel-Frames}
use ariava.Adapter.Registry.Slots.Queues.{KeepsQueues}
use ariava.Adapter.Registry.Pushes.Queues.{follow-queues}
use ariava.Adapter.Registry.Pushes.{PromotesBy, works, follow-Returns}

plan_reserved-PromotesBy :
    (fingerprint : EventInput → String) (snapshot : PlanInput) (session : SessionFields)
    (reservation : Option Reservation) (tuple : Option PendingTerminal)
    → PromotesBy snapshot.has_pending_command_work
        (plan_reserved fingerprint snapshot session reservation tuple)
unfolding plan_reserved plan_new
plan_reserved-PromotesBy fingerprint snapshot session (some r) none = tt
plan_reserved-PromotesBy fingerprint snapshot session (some r) (some t) = refl
plan_reserved-PromotesBy fingerprint snapshot session none tuple = of_live snapshot.live_pending
  where
    of_live :
        (live : Option PendingTerminal)
        → PromotesBy snapshot.has_pending_command_work (
            plan_new fingerprint live session snapshot.input snapshot.event_id
              (not snapshot.has_pending_command_work))
    of_live none = refl
    of_live (some live) = refl

-- Every plan promotes at once exactly when no command work is pending.
plan-PromotesBy :
    (fingerprint : EventInput → String) (snapshot : PlanInput)
    → PromotesBy snapshot.has_pending_command_work (plan_terminal_event fingerprint snapshot)
unfolding plan_terminal_event plan_at
plan-PromotesBy fingerprint snapshot = of_session snapshot.session
  where
    of_session :
        (session : Option SessionFields)
        → PromotesBy snapshot.has_pending_command_work (plan_at fingerprint snapshot session)
    of_session none = tt
    of_session (some session) =
        for-cases fingerprint (PromotesBy snapshot.has_pending_command_work) snapshot session
          (λ error. tt) refl (λ accepted. plan_reserved-PromotesBy fingerprint snapshot session _ _)

module _ {S : Type 0} (store : StateStore S) (now : Timestamp) (fresh_id i : String)
    (input : EventInput) where
  pub stage-Frames : (t : PendingTerminal) → Frames i (stage store now fresh_id i t)
  unfolding stage
  stage-Frames t r j other = rw (lookup-insert_ne r.delayed_terminal_events i j t other) refl

  pub when_promoted-Frames :
      (promote_now : Bool) (t : PendingTerminal)
      → Frames i (promote_when store now fresh_id promote_now i t input)
  unfolding promote_when
  when_promoted-Frames promote_now t =
      when-Frames i promote_now (promote_pending_terminal store now i t (store.fingerprint input))
        (promote-Frames store now i t (store.fingerprint input))

  promoted-Frames :
      {A : Type 0} (promote_now : Bool) (t : PendingTerminal) (value : A)
      → Frames i (promote_when store now fresh_id promote_now i t input >> pure value)
  promoted-Frames {A} promote_now t value =
      bind-Frames {B = A} i (promote_when store now fresh_id promote_now i t input)
        (λ done. pure value) (when_promoted-Frames promote_now t) λ done r j other. refl

  staged-Frames :
      {A : Type 0} (promote_now : Bool) (t : PendingTerminal) (reserve : Action S (Unit {0}))
      (value : A)
      → Quiet reserve
      → Frames i (
          stage store now fresh_id i t
          >> (reserve >> (promote_when store now fresh_id promote_now i t input >> pure value)))
  staged-Frames promote_now t reserve value quiet =
      bind-Frames i (stage store now fresh_id i t)
        (λ done. reserve >> (promote_when store now fresh_id promote_now i t input >> pure value))
        (stage-Frames t)
        λ done.
          bind-Frames i reserve
            (λ done. promote_when store now fresh_id promote_now i t input >> pure value)
            (λ r j other. quiet r j) (λ done. promoted-Frames promote_now t value)

  reserve-Frames :
      (t : PendingTerminal) (promote_now : Bool) (reserve : Action S (Unit {0}))
      → Quiet reserve
      → Frames i (reserve_and_stage store now fresh_id i input t promote_now reserve)
  unfolding reserve_and_stage
  reserve-Frames t promote_now reserve quiet =
      bind-Frames i (write (λ s. store.reserve_tuple s t (store.fingerprint input)))
        (λ done.
          stage store now fresh_id i t
          >> (reserve
              >> (promote_when store now fresh_id promote_now i t input
                  >> pure (t.event.event_id, committed_event))))
        (λ r j other. refl)
        (λ done. staged-Frames promote_now t reserve (t.event.event_id, committed_event) quiet)

  module _ (reserve take_up : Reservation → Action S (Unit {0}))
      (reserve_quiet : (v : Reservation) → Quiet (reserve v))
      (take_up_quiet : (v : Reservation) → Quiet (take_up v))
      (reserve_queues : (v : Reservation) → KeepsQueues (reserve v))
      (take_up_queues : (v : Reservation) → KeepsQueues (take_up v)) where
    duplicate-Frames :
        (promote_now : Bool) (pending : Option PendingTerminal)
        → Frames i (return_duplicate store now fresh_id promote_now i input pending)
    unfolding return_duplicate
    duplicate-Frames promote_now none = λ r j other. refl
    duplicate-Frames promote_now (some t) =
        promoted-Frames promote_now t (t.event.event_id, duplicate_event)

    reserved-Frames :
        (t : PendingTerminal) (promote_now : Bool) (v : Option Reservation)
        → Frames i (stage_reserved store now fresh_id reserve take_up i input t promote_now v)
    unfolding stage_reserved
    reserved-Frames t promote_now none = λ r j other. refl
    reserved-Frames t promote_now (some v) =
        staged-Frames promote_now t (take_up v) (v.event_id, committed_event) (take_up_quiet v)

    follow-Frames :
        (plan : TerminalPlan) → Frames i (follow store now fresh_id reserve take_up i input plan)
    unfolding follow
    follow-Frames (reject error) = λ r j other. refl
    follow-Frames (return_reservation_without_tuple event_id) = λ r j other. refl
    follow-Frames (return_live_duplicate promote_now) =
        λ r. duplicate-Frames promote_now (lookup r.delayed_terminal_events i) r
    follow-Frames (stage_reserved_tuple t promote_now) =
        λ r. reserved-Frames t promote_now (reservation_for store now fresh_id r i input) r
    follow-Frames (reserve_new_tuple t v promote_now) =
        reserve-Frames t promote_now (reserve v) (reserve_quiet v)
    follow-Frames (cancel_older_and_reserve t v promote_now) =
        bind-Frames i (cancel_terminal_retry store now i no_options)
          (λ done. reserve_and_stage store now fresh_id i input t promote_now (reserve v))
          (cancel-Frames store now i no_options)
          (λ done. reserve-Frames t promote_now (reserve v) (reserve_quiet v))

    by_work :
        (session : RegisteredSession) (r : Registry S)
        → PromotesBy (works (slot r i)) (
            plan_terminal_event store.fingerprint (plan_input store now fresh_id r i input session))
    unfolding plan_input has_pending_command_work
    by_work session r =
        plan-PromotesBy store.fingerprint (plan_input store now fresh_id r i input session)

    -- A plan that is followed to its end.
    pub follow_plan-Waits :
        (session : RegisteredSession) (r : Registry S) (out : String × Disposition)
        → Waits r
        → lookup r.sessions i ≡ some session
        → (follow_plan store now fresh_id reserve take_up i input session r).result ≡ ok out
        → Waits (follow_plan store now fresh_id reserve take_up i input session r).registry
    unfolding follow_plan
    follow_plan-Waits session r out waits live h =
        Frames-Waits i r (follow store now fresh_id reserve take_up i input plan r).registry
          (follow-Frames plan r)
          (follow-Returns store now fresh_id i input reserve take_up reserve_quiet take_up_quiet
            plan r (waits i).0 (by_work session r) session live out h)
          (kept-owned i r (follow store now fresh_id reserve take_up i input plan r).registry
            (follow-queues store now fresh_id i input reserve take_up reserve_queues take_up_queues
              plan r)
            waits)
          waits
      where
        plan : TerminalPlan
        plan =
            plan_terminal_event store.fingerprint (plan_input store now fresh_id r i input session)

  pub check-Quiet :
      (session : RegisteredSession) → Quiet (check_event store now fresh_id i input session)
  unfolding check_event
  check-Quiet session r j =
      if-elim (λ (m : Action S (Unit {0})). slot (m r).registry j ≡ slot r j)
        (input.session_id != i) (fail _) _ (λ h. refl)
        λ h.
          if-elim (λ (m : Action S (Unit {0})). slot (m r).registry j ≡ slot r j)
            (input.provider != session.fields.provider) (fail _)
            (raise (assert_context_matches input session.fields)) (λ h. refl) (λ h. refl)
