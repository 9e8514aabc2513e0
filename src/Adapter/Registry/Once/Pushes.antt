-- ===== src/Adapter/Registry/Once/Pushes.antt =====
-- A push on a command that the registry no longer has.
use ariava.Prelude.{
  ℕ, String, Bool, true, false, not, ◌&&◌, Option, none, some, ◌==◌, ◌!=◌, string_eq, Result, ok,
  throw,
}
use ariava.Prelude.Dict.{lookup}
use ariava.Store.State.{Timestamp, Reservation, Checkpoint}
use ariava.Adapter.{RegisteredSession, PendingTerminal, EventInput}
use ariava.Adapter.Plan.{
  TerminalPlan, return_live_duplicate, return_reservation_without_tuple, stage_reserved_tuple,
  cancel_older_and_reserve, reserve_new_tuple, reject,
}
use ariava.Adapter.Registry.{Registry, StateStore, committed}
use ariava.Adapter.Registry.Action.{
  Action, pure, fail, ◌>>=◌, ◌>>◌, write, rethrow, modify, emit, raise,
}
use ariava.Adapter.Registry.Terminal.{
  no_options, cancel_terminal_retry, commit_current, commit_pending_terminal,
  promote_pending_terminal, schedule_terminal_retry, commit_terminal_session,
  from_canonical_terminal_session, has_pending_command_work,
}
use ariava.Adapter.Registry.Push.{
  committed_event, duplicate_event, check_event, follow_plan, plan_input, push_to, push_event,
  commit_source, is_not_after, resume_tuple, resume_reserved, repeat_source, push_source_new,
  push_source_after, push_source_to, push_event_source, Response, stage, promote_when,
  return_duplicate, reserve_and_stage, stage_reserved, follow, reservation_for,
}
use ariava.Adapter.Codec.{assert_context_matches}
use ariava.Adapter.Plan.{plan_terminal_event}
use ariava.Adapter.Registry.Slots.{if-elim, bind-keep}
use ariava.Adapter.Registry.Once.{Gone}
use ariava.Adapter.Registry.Once.Flushes.{cancel-Gone, schedule-Gone}

module _ (c : String) {S : Type 0} where
  -- The method keeps the command away.
  abbrev pub KeepsGone : {A : Type 0} → Action S A → Type 0
  KeepsGone m = (r : Registry S) → Gone c r → Gone c (m r).registry

  pub bind-KeepsGone :
      {A B : Type 0} (m : Action S A) (k : A → Action S B)
      → KeepsGone m
      → ((a : A) → KeepsGone (k a))
      → KeepsGone (m >>= k)
  bind-KeepsGone m k first next r gone =
      bind-keep (Gone c) m k r (first r gone) (λ a kept. next a _ kept)

  module _ (store : StateStore S) (now : Timestamp) (i : String) where
    commit-KeepsGone :
        (pending : PendingTerminal) (fingerprint : String) (session : Option RegisteredSession)
        → KeepsGone (commit_current store now i pending fingerprint session)
    unfolding commit_current commit_terminal_session
    commit-KeepsGone pending fingerprint none r gone = gone
    commit-KeepsGone pending fingerprint (some current) r gone =
        bind-keep {B = Unit} (Gone c) (write (λ s. store.queue_pending_event s pending fingerprint))
          (λ done.
            emit (committed pending.event.event_id)
            >> (modify (
                  commit_terminal_session store now i current
                    (from_canonical_terminal_session store now current pending.session))
                >> cancel_terminal_retry store now i (record no_options { is_committed = true })))
          r gone (λ done kept. cancel-Gone c store now i _ _ kept)

    pub promote-KeepsGone :
        (pending : PendingTerminal) (fingerprint : String)
        → KeepsGone (promote_pending_terminal store now i pending fingerprint)
    unfolding promote_pending_terminal commit_pending_terminal
    promote-KeepsGone pending fingerprint r gone =
        of_result (commit_current store now i pending fingerprint (lookup r.sessions i) r).result _
          (commit-KeepsGone pending fingerprint (lookup r.sessions i) r gone)
      where
        of_result :
            (result : Result String (Unit {0})) (after : Registry S)
            → Gone c after
            → Gone c (rethrow after result (modify (schedule_terminal_retry store now i))).registry
        of_result (ok done) after kept = kept
        of_result (throw error) after kept = schedule-Gone c store now i _ kept

  module _ (store : StateStore S) (now : Timestamp) (fresh_id i : String) (input : EventInput) where
    pub promote_when-KeepsGone :
        (promote_now : Bool) (t : PendingTerminal)
        → KeepsGone (promote_when store now fresh_id promote_now i t input)
    unfolding promote_when
    promote_when-KeepsGone true t = promote-KeepsGone store now i t (store.fingerprint input)
    promote_when-KeepsGone false t = λ r gone. gone

    promoted-KeepsGone :
        {A : Type 0} (promote_now : Bool) (t : PendingTerminal) (value : A)
        → KeepsGone (promote_when store now fresh_id promote_now i t input >> pure value)
    promoted-KeepsGone {A} promote_now t value =
        bind-KeepsGone {B = A} (promote_when store now fresh_id promote_now i t input)
          (λ done. pure value) (promote_when-KeepsGone promote_now t) (λ done r gone. gone)

    staged-KeepsGone :
        {A : Type 0} (promote_now : Bool) (t : PendingTerminal) (reserve : Action S (Unit {0}))
        (value : A)
        → KeepsGone reserve
        → KeepsGone (
            stage store now fresh_id i t
            >> (reserve >> (promote_when store now fresh_id promote_now i t input >> pure value)))
    unfolding stage
    staged-KeepsGone promote_now t reserve value kept =
        bind-KeepsGone (stage store now fresh_id i t)
          (λ done. reserve >> (promote_when store now fresh_id promote_now i t input >> pure value))
          (λ r gone. gone)
          λ done.
            bind-KeepsGone reserve
              (λ done. promote_when store now fresh_id promote_now i t input >> pure value) kept
              (λ done. promoted-KeepsGone promote_now t value)

    reserve-KeepsGone :
        (t : PendingTerminal) (promote_now : Bool) (reserve : Action S (Unit {0}))
        → KeepsGone reserve
        → KeepsGone (reserve_and_stage store now fresh_id i input t promote_now reserve)
    unfolding reserve_and_stage
    reserve-KeepsGone t promote_now reserve kept =
        bind-KeepsGone (write (λ s. store.reserve_tuple s t (store.fingerprint input)))
          (λ done.
            stage store now fresh_id i t
            >> (reserve
                >> (promote_when store now fresh_id promote_now i t input
                    >> pure (t.event.event_id, committed_event))))
          (λ r gone. gone)
          (λ done. staged-KeepsGone promote_now t reserve (t.event.event_id, committed_event) kept)

    module _ (reserve take_up : Reservation → Action S (Unit {0}))
        (reserve_gone : (v : Reservation) → KeepsGone (reserve v))
        (take_up_gone : (v : Reservation) → KeepsGone (take_up v)) where
      duplicate-KeepsGone :
          (promote_now : Bool) (pending : Option PendingTerminal)
          → KeepsGone (return_duplicate store now fresh_id promote_now i input pending)
      unfolding return_duplicate
      duplicate-KeepsGone promote_now none = λ r gone. gone
      duplicate-KeepsGone promote_now (some t) =
          promoted-KeepsGone promote_now t (t.event.event_id, duplicate_event)

      reserved-KeepsGone :
          (t : PendingTerminal) (promote_now : Bool) (v : Option Reservation)
          → KeepsGone (stage_reserved store now fresh_id reserve take_up i input t promote_now v)
      unfolding stage_reserved
      reserved-KeepsGone t promote_now none = λ r gone. gone
      reserved-KeepsGone t promote_now (some v) =
          staged-KeepsGone promote_now t (take_up v) (v.event_id, committed_event) (take_up_gone v)

      pub follow-KeepsGone :
          (plan : TerminalPlan) → KeepsGone (follow store now fresh_id reserve take_up i input plan)
      unfolding follow
      follow-KeepsGone (reject error) = λ r gone. gone
      follow-KeepsGone (return_reservation_without_tuple event_id) = λ r gone. gone
      follow-KeepsGone (return_live_duplicate promote_now) =
          λ r gone. duplicate-KeepsGone promote_now (lookup r.delayed_terminal_events i) r gone
      follow-KeepsGone (stage_reserved_tuple t promote_now) = λ r gone.
          reserved-KeepsGone t promote_now (reservation_for store now fresh_id r i input) r gone
      follow-KeepsGone (reserve_new_tuple t v promote_now) =
          reserve-KeepsGone t promote_now (reserve v) (reserve_gone v)
      follow-KeepsGone (cancel_older_and_reserve t v promote_now) =
          bind-KeepsGone (cancel_terminal_retry store now i no_options)
            (λ done. reserve_and_stage store now fresh_id i input t promote_now (reserve v))
            (λ r gone. cancel-Gone c store now i no_options r gone)
            (λ done. reserve-KeepsGone t promote_now (reserve v) (reserve_gone v))

      follow_plan-KeepsGone :
          (session : RegisteredSession)
          → KeepsGone (follow_plan store now fresh_id reserve take_up i input session)
      unfolding follow_plan
      follow_plan-KeepsGone session r gone =
          follow-KeepsGone
            (plan_terminal_event store.fingerprint
              (plan_input store now fresh_id r i input session))
            r gone

    check-Gone :
        (session : RegisteredSession) → KeepsGone (check_event store now fresh_id i input session)
    unfolding check_event
    check-Gone session r gone =
        if-elim (λ (m : Action S (Unit {0})). Gone c (m r).registry) (input.session_id != i)
          (fail _) _ (λ h. gone)
          λ h.
            if-elim (λ (m : Action S (Unit {0})). Gone c (m r).registry)
              (input.provider != session.fields.provider) (fail _) _ (λ h. gone)
              (λ h. raised (assert_context_matches input session.fields))
      where
        raised : (result : Result String (Unit {0})) → Gone c (raise result r).registry
        raised (ok done) = gone
        raised (throw error) = gone

    push_to-Gone :
        (session : Option RegisteredSession)
        → KeepsGone (push_to store now fresh_id i input session)
    unfolding push_to
    push_to-Gone none r gone = gone
    push_to-Gone (some session) r gone =
        bind-keep (Gone c) (check_event store now fresh_id i input session) _ r
          (check-Gone session r gone)
          λ done kept.
            bind-keep (Gone c)
              (follow_plan store now fresh_id (λ v. write (λ s. store.reserve_event s v))
                (λ v. pure tt) i input session)
              _ _
              (follow_plan-KeepsGone (λ v. write (λ s. store.reserve_event s v)) (λ v. pure tt)
                (λ v r gone. gone) (λ v r gone. gone) session _ kept)
              (λ done kept. kept)

    pub push-Gone : KeepsGone (push_event store now fresh_id i input)
    unfolding push_event
    push-Gone r gone = push_to-Gone (lookup r.sessions i) r gone

    module _ (order_of : String → Option ℕ) (producer_event_id producer_event_order : String) where
      abbrev committing : Reservation → Action S (Unit {0})
      committing =
          commit_source store now fresh_id order_of producer_event_id producer_event_order i input

      committing-Gone : (v : Reservation) → KeepsGone (committing v)
      unfolding commit_source
      committing-Gone v r gone = gone

      new-Gone :
          (session : RegisteredSession)
          → KeepsGone (
              push_source_new store now fresh_id order_of producer_event_id producer_event_order i
                input session)
      unfolding push_source_new
      new-Gone session r gone =
          bind-keep (Gone c) (follow_plan store now fresh_id committing committing i input session)
            _ r
            (follow_plan-KeepsGone committing committing committing-Gone committing-Gone session r
              gone)
            (λ done kept. kept)

      resume-Gone :
          (tuple : Option PendingTerminal)
          → KeepsGone (
              resume_tuple store now fresh_id order_of producer_event_id producer_event_order i
                input tuple)
      unfolding resume_tuple stage
      resume-Gone none r gone = gone
      resume-Gone (some t) r gone =
          promote_when-KeepsGone
            (not (has_pending_command_work (stage store now fresh_id i t r).registry i)) t
            (stage store now fresh_id i t r).registry gone

      resume_reserved-Gone :
          (checkpoint : Checkpoint) (v : Option Reservation)
          → KeepsGone (
              resume_reserved store now fresh_id order_of producer_event_id producer_event_order i
                input checkpoint v)
      unfolding resume_reserved
      resume_reserved-Gone checkpoint none r gone = gone
      resume_reserved-Gone checkpoint (some v) r gone =
          if-elim (λ (m : Action S (Unit {0})). Gone c (m r).registry)
            (v.event_id != checkpoint.event_id) (fail _) _ (λ h. gone)
            (λ h.
              resume-Gone (store.get_tuple r.store checkpoint.event_id (store.fingerprint input)) r
                gone)

      repeat-Gone :
          (checkpoint : Checkpoint)
          → KeepsGone (
              repeat_source store now fresh_id order_of producer_event_id producer_event_order i
                input checkpoint)
      unfolding repeat_source
      repeat-Gone checkpoint r gone =
          if-elim (λ (m : Action S Response). Gone c (m r).registry)
            (checkpoint.fingerprint != store.fingerprint input) (fail _) _ (λ h. gone)
            λ h.
              bind-keep (Gone c)
                (λ r.
                  resume_reserved store now fresh_id order_of producer_event_id producer_event_order
                    i input checkpoint (store.get_reservation r.store i (store.fingerprint input))
                    r)
                _ r
                (resume_reserved-Gone checkpoint
                  (store.get_reservation r.store i (store.fingerprint input)) r gone)
                (λ done kept. kept)

      after-Gone :
          (session : RegisteredSession) (checkpoint : Option Checkpoint)
          → KeepsGone (
              push_source_after store now fresh_id order_of producer_event_id producer_event_order i
                input session checkpoint)
      unfolding push_source_after
      after-Gone session none r gone = new-Gone session r gone
      after-Gone session (some checkpoint) r gone =
          if-elim (λ (m : Action S Response). Gone c (m r).registry)
            (checkpoint.producer_event_id == producer_event_id
              && checkpoint.producer_event_order == producer_event_order)
            _ _ (λ h. repeat-Gone checkpoint r gone)
            λ h.
              if-elim (λ (m : Action S Response). Gone c (m r).registry)
                (is_not_after store now fresh_id order_of producer_event_id producer_event_order
                  (order_of checkpoint.producer_event_order) (order_of producer_event_order))
                (fail _) _ (λ h. gone) (λ h. new-Gone session r gone)

      source_to-Gone :
          (session : Option RegisteredSession)
          → KeepsGone (
              push_source_to store now fresh_id order_of producer_event_id producer_event_order i
                input session)
      unfolding push_source_to
      source_to-Gone none r gone = gone
      source_to-Gone (some session) r gone =
          bind-keep (Gone c) (check_event store now fresh_id i input session) _ r
            (check-Gone session r gone) λ done kept. after-Gone session _ _ kept

      pub source-Gone : KeepsGone (
          push_event_source store now fresh_id order_of producer_event_id producer_event_order i
            input)
      unfolding push_event_source
      source-Gone r gone = source_to-Gone (lookup r.sessions i) r gone
