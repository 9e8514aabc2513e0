-- ===== src/Adapter/Registry/Push.antt =====
-- Terminal events that a driver pushes, apps/bridge/src/agent-adapter/registry.ts, `pushEvent` and
-- `pushEventSource`, on an event that the codec has parsed. `fresh_id` is the id that is drawn.
use ariava.Prelude.{
  ℕ, String, Bool, true, not, ◌&&◌, Option, none, some, if◌then◌else◌, leb, ◌==◌, ◌!=◌, string_eq,
  option_eq,
}
use ariava.Prelude.Dict.{lookup, insert}
use ariava.Store.State.{Timestamp, Reservation, Checkpoint}
use ariava.Adapter.{RegisteredSession, EventInput, PendingTerminal}
use ariava.Adapter.Codec.{assert_context_matches}
use ariava.Adapter.Plan.{
  TerminalPlan, return_live_duplicate, return_reservation_without_tuple, stage_reserved_tuple,
  cancel_older_and_reserve, reserve_new_tuple, reject, PlanInput, plan_terminal_event,
  is_live_duplicate,
}
use ariava.Adapter.Registry.{Registry, StateStore}
use ariava.Adapter.Registry.Action.{
  Action, pure, fail, raise, ◌>>=◌, ◌>>◌, modify, reading, write, when_,
}
use ariava.Adapter.Registry.Terminal.{
  no_options, cancel_terminal_retry, promote_pending_terminal, has_pending_command_work,
}

pub data Disposition : Type 0 where
  committed_event duplicate_event : Disposition

pub record Response : Type 0 where
  pub event_id : String
  pub producer_event_id : String
  pub producer_event_order : String
  pub disposition : Disposition

module _ {S : Type 0} (store : StateStore S) (now : Timestamp) (fresh_id : String) where
  -- The session that an event is pushed to, and that the event is one of its own.
  unfoldable pub check_event : String → EventInput → RegisteredSession → Action S (Unit {0})
  check_event session_id input session =
      if input.session_id != session_id
      then fail "canonical Event sessionId does not match the request path"
      else if input.provider != session.fields.provider
      then fail "canonical Event provider does not match the registered Session"
      else raise (assert_context_matches input session.fields)

  -- Nothing is looked up for an event that is the pending one.
  unfoldable pub reservation_for : Registry S → String → EventInput → Option Reservation
  reservation_for r session_id input =
      if is_live_duplicate store.fingerprint (lookup r.delayed_terminal_events session_id) input
      then none
      else store.get_reservation r.store session_id (store.fingerprint input)

  unfoldable pub tuple_for : Registry S → EventInput → Option Reservation → Option PendingTerminal
  tuple_for r input none = none
  tuple_for r input (some reservation) =
      store.get_tuple r.store reservation.event_id (store.fingerprint input)

  unfoldable pub event_id_for :
      Registry S → String → EventInput → Option PendingTerminal → Option Reservation → String
  event_id_for r session_id input none none = fresh_id
  event_id_for r session_id input none (some reservation) = reservation.event_id
  event_id_for r session_id input (some pending) reservation =
      if is_live_duplicate store.fingerprint (some pending) input
      then pending.event.event_id
      else reserved_id reservation
    where
      reserved_id : Option Reservation → String
      reserved_id none = fresh_id
      reserved_id (some reservation) = reservation.event_id

  unfoldable pub plan_input : Registry S → String → EventInput → RegisteredSession → PlanInput
  plan_input r session_id input session = record {
    session = some session.fields;
    live_pending = lookup r.delayed_terminal_events session_id;
    persisted_reservation = reservation_for r session_id input;
    persisted_tuple = tuple_for r input (reservation_for r session_id input);
    has_pending_command_work = has_pending_command_work r session_id;
    input = input;
    event_id =
        event_id_for r session_id input (lookup r.delayed_terminal_events session_id)
          (reservation_for r session_id input);
  }

  unfoldable pub stage : String → PendingTerminal → Action S (Unit {0})
  stage session_id pending = modify (λ r. record r {
    delayed_terminal_events = insert r.delayed_terminal_events session_id pending;
  })

  unfoldable pub promote_when : Bool → String → PendingTerminal → EventInput → Action S (Unit {0})
  promote_when promote_now session_id pending input =
      when_ promote_now
        (promote_pending_terminal store now session_id pending (store.fingerprint input))

  -- `existing!`, which a live duplicate has.
  unfoldable pub return_duplicate :
      Bool → String → EventInput → Option PendingTerminal → Action S (String × Disposition)
  return_duplicate promote_now session_id input none = fail "no pending terminal event"
  return_duplicate promote_now session_id input (some pending) = do
    promote_when promote_now session_id pending input
    pure (pending.event.event_id, duplicate_event)

  -- A new tuple is reserved, staged and promoted; `reserve` makes the reservation durable.
  unfoldable pub reserve_and_stage :
      String
      → EventInput
      → PendingTerminal
      → Bool
      → Action S (Unit {0})
      → Action S (String × Disposition)
  reserve_and_stage session_id input tuple promote_now reserve = do
    write (λ s. store.reserve_tuple s tuple (store.fingerprint input))
    stage session_id tuple
    reserve
    promote_when promote_now session_id tuple input
    pure (tuple.event.event_id, committed_event)

  -- The steps for a plan, which the two kinds of push share: what each writes for a new reservation,
  -- and for one that is taken up again.
  module _ (reserve take_up : Reservation → Action S (Unit {0})) where
    unfoldable pub stage_reserved :
        String
        → EventInput
        → PendingTerminal
        → Bool
        → Option Reservation
        → Action S (String × Disposition)
    stage_reserved session_id input tuple promote_now none = fail "no reservation"
    stage_reserved session_id input tuple promote_now (some reservation) = do
      stage session_id tuple
      take_up reservation
      promote_when promote_now session_id tuple input
      pure (reservation.event_id, committed_event)

    unfoldable pub follow : String → EventInput → TerminalPlan → Action S (String × Disposition)
    follow session_id input (reject error) = fail error
    follow session_id input (return_live_duplicate promote_now) =
        reading (λ r. lookup r.delayed_terminal_events session_id)
          (return_duplicate promote_now session_id input)
    follow session_id input (return_reservation_without_tuple event_id) =
        pure (event_id, duplicate_event)
    follow session_id input (stage_reserved_tuple tuple promote_now) =
        reading (λ r. reservation_for r session_id input)
          (stage_reserved session_id input tuple promote_now)
    follow session_id input (cancel_older_and_reserve tuple reservation promote_now) = do
      cancel_terminal_retry store now session_id no_options
      reserve_and_stage session_id input tuple promote_now (reserve reservation)
    follow session_id input (reserve_new_tuple tuple reservation promote_now) =
        reserve_and_stage session_id input tuple promote_now (reserve reservation)

    unfoldable pub follow_plan :
        String → EventInput → RegisteredSession → Action S (String × Disposition)
    follow_plan session_id input session =
        reading (λ r. plan_terminal_event store.fingerprint (plan_input r session_id input session))
          (follow session_id input)

  unfoldable pub push_to : String → EventInput → Option RegisteredSession → Action S String
  push_to session_id input none = fail "Session is not registered"
  push_to session_id input (some session) = do
    check_event session_id input session
    (event_id, disposition) ←
        follow_plan (λ reservation. write (λ s. store.reserve_event s reservation))
          (λ reservation. pure tt) session_id input session
    pure event_id

  -- `pushEvent`
  unfoldable pub push_event : String → EventInput → Action S String
  push_event session_id input =
      reading (λ r. lookup r.sessions session_id) (push_to session_id input)

  -- `order_of` is producerEventOrderAsBigInt.
  module _ (order_of : String → Option ℕ) (producer_event_id producer_event_order : String) where
    -- `commitProducerEventSource`
    unfoldable pub commit_source : String → EventInput → Reservation → Action S (Unit {0})
    commit_source session_id input reservation = write (λ s.
        store.accept_source s reservation (record {
          session_id = session_id;
          producer_event_id = producer_event_id;
          producer_event_order = producer_event_order;
          event_id = reservation.event_id;
          fingerprint = store.fingerprint input;
          created_at = now;
        }))

    unfoldable pub respond : String → Disposition → Response
    respond event_id disposition = record {
      event_id = event_id;
      producer_event_id = producer_event_id;
      producer_event_order = producer_event_order;
      disposition = disposition;
    }

    -- `currentOrder <= previousOrder`, or one of them is no number.
    unfoldable pub is_not_after : Option ℕ → Option ℕ → Bool
    is_not_after (some previous) (some current) = leb current previous
    is_not_after none current = true
    is_not_after (some previous) none = true

    unfoldable pub resume_tuple : String → EventInput → Option PendingTerminal → Action S (Unit {0})
    resume_tuple session_id input none =
        fail "accepted Event checkpoint is missing its durable terminal tuple"
    resume_tuple session_id input (some tuple) = do
      stage session_id tuple
      reading (λ r. not (has_pending_command_work r session_id))
          λ promote_now. promote_when promote_now session_id tuple input

    unfoldable pub resume_reserved :
        String → EventInput → Checkpoint → Option Reservation → Action S (Unit {0})
    resume_reserved session_id input checkpoint none = pure tt
    resume_reserved session_id input checkpoint (some reservation) =
        if reservation.event_id != checkpoint.event_id
        then fail "accepted Event checkpoint conflicts with its reservation"
        else reading (λ r. store.get_tuple r.store checkpoint.event_id (store.fingerprint input))
            (resume_tuple session_id input)

    -- The same source tuple again.
    unfoldable pub repeat_source : String → EventInput → Checkpoint → Action S Response
    repeat_source session_id input checkpoint =
        if checkpoint.fingerprint != store.fingerprint input then fail "order_conflict" else do
          reading (λ r. store.get_reservation r.store session_id (store.fingerprint input))
              (resume_reserved session_id input checkpoint)
          pure (respond checkpoint.event_id duplicate_event)

    unfoldable pub push_source_new : String → EventInput → RegisteredSession → Action S Response
    push_source_new session_id input session = do
      (event_id, disposition) ←
          follow_plan (commit_source session_id input) (commit_source session_id input) session_id
            input session
      pure (respond event_id disposition)

    unfoldable pub push_source_after :
        String → EventInput → RegisteredSession → Option Checkpoint → Action S Response
    push_source_after session_id input session none = push_source_new session_id input session
    push_source_after session_id input session (some checkpoint) =
        if checkpoint.producer_event_id == producer_event_id
          && checkpoint.producer_event_order == producer_event_order
        then repeat_source session_id input checkpoint
        else if is_not_after (order_of checkpoint.producer_event_order)
            (order_of producer_event_order)
        then fail "order_conflict"
        else push_source_new session_id input session

    unfoldable pub push_source_to :
        String → EventInput → Option RegisteredSession → Action S Response
    push_source_to session_id input none = fail "session_not_found"
    push_source_to session_id input (some session) = do
      check_event session_id input session
      reading (λ r. store.get_checkpoint r.store session_id)
          (push_source_after session_id input session)

    -- `pushEventSource`
    unfoldable pub push_event_source : String → EventInput → Action S Response
    push_event_source session_id input =
        reading (λ r. lookup r.sessions session_id) (push_source_to session_id input)
