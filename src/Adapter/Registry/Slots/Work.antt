-- ===== src/Adapter/Registry/Slots/Work.antt =====
-- Commands that are queued, handed over, answered or abandoned: they touch one session's slot, and
-- its staged event stays waited for.
use mathlib.Core.Path.{subst}
use ariava.Prelude.{
  ℕ, String, true, false, ◌≡◌, refl, sym, ◌∙◌, Option, none, some, List, [], ◌∷◌, ◌++◌, ◌==◌,
  string_eq, arith, eq_iff, nat_eq,
}
use ariava.Prelude.Dict.{lookup, lookup-insert_self, lookup-insert_ne, contains}
use ariava.Adapter.{RegisteredSession}
use ariava.Adapter.Codec.{or_else}
use ariava.Adapter.Registry.{Registry, CommandEnvelope, polled}
use ariava.Adapter.Registry.Action.{Action, Ran, pure, fail, ◌>>◌, modify, reading, emit}
use ariava.Adapter.Registry.Terminal.{is_filled}
use ariava.Adapter.Registry.Queue.{
  put_filled, add_id, assert_command_dispatch_ready, is_dispatch_ready, bind_command, fly,
  mark_live, queue_command, poll_later, mark_command_in_flight, hand_over, bind_registered,
  enqueue_command, take_command, dequeue_command,
}
use ariava.Adapter.Registry.Slots.{
  is_ready, is_held, slot, if-elim, Frames, Quiet, bind-Frames, bind-keep, ready-held, is_owned,
  lookup-put_filled_ne,
}

add_id-filled : (ids : List String) (id : String) → is_filled (some (add_id ids id)) ≡ true
unfolding add_id
add_id-filled [] id = refl
add_id-filled (j ∷ ids) id =
    if-elim (λ xs. is_filled (some xs) ≡ true) (contains (j ∷ ids) id) (j ∷ ids)
      (j ∷ ids ++ (id ∷ [])) (λ h. refl) (λ h. refl)

append-filled : {A : Type 0} (xs : List A) (x : A) → is_filled (some (xs ++ (x ∷ []))) ≡ true
append-filled [] x = refl
append-filled (y ∷ ys) x = refl

head-owned :
    (session_id : String) (c : CommandEnvelope) (cs : List CommandEnvelope)
    → is_owned session_id (some (c ∷ cs)) ≡ true
    → c.session_id ≡ session_id
head-owned session_id c cs own = ground (arith, eq_iff c.session_id session_id)

module _ {S : Type 0} where
  fly-slot :
      (command : CommandEnvelope) (r : Registry S) (j : String)
      → (command.session_id == j) ≡ false
      → slot (fly command r) j ≡ slot r j
  unfolding fly
  fly-slot command r j other =
      rw (lookup-insert_ne r.in_flight_commands command.session_id j _ other) refl

  mark-Frames :
      (command : CommandEnvelope) (session : Option RegisteredSession)
      → Frames command.session_id (mark_live {S = S} command session)
  unfolding mark_live bind_command
  mark-Frames command none = λ r j other. refl
  mark-Frames command (some session) =
      λ r j other. fly-slot command (bind_command command session r) j other

  -- A command is in flight, so work is pending; without its session nothing is staged.
  mark-Ready :
      (command : CommandEnvelope) (session : Option RegisteredSession) (r : Registry S)
      → lookup r.sessions command.session_id ≡ session
      → is_held (slot r command.session_id) ≡ true
      → is_ready (slot (mark_live command session r).registry command.session_id) ≡ true
  unfolding mark_live fly bind_command
  mark-Ready command none r live held = ground arith
  mark-Ready command (some session) r live held =
      rw
        (
          lookup-insert_self r.in_flight_commands command.session_id (
              add_id (or_else (lookup r.in_flight_commands command.session_id) [])
                command.command_id),
          live,
        )
        (ground (
          arith,
          add_id-filled (or_else (lookup r.in_flight_commands command.session_id) [])
              command.command_id,
        ))

  queue-slot :
      (command : CommandEnvelope) (r : Registry S) (j : String)
      → (command.session_id == j) ≡ false
      → slot (queue_command command r) j ≡ slot r j
  unfolding queue_command
  queue-slot command r j other =
      rw (lookup-insert_ne r.command_queues command.session_id j _ other) refl

  queue-Ready :
      (command : CommandEnvelope) (r : Registry S)
      → is_held (slot r command.session_id) ≡ true
      → is_ready (slot (queue_command command r) command.session_id) ≡ true
  unfolding queue_command
  queue-Ready command r held =
      rw
        (lookup-insert_self r.command_queues command.session_id
          (or_else (lookup r.command_queues command.session_id) [] ++ (command ∷ [])))
        (ground
          (arith, append-filled (or_else (lookup r.command_queues command.session_id) []) command))

  hand_over-Frames :
      (command : CommandEnvelope) (waiters : Option (List ℕ))
      → Frames command.session_id (hand_over {S = S} command waiters)
  unfolding hand_over mark_command_in_flight
  hand_over-Frames command none = queue-slot command
  hand_over-Frames command (some []) = queue-slot command
  hand_over-Frames command (some (waiter ∷ waiters)) = λ r j other.
      bind-Frames command.session_id (mark_command_in_flight command)
        (λ done. emit (polled waiter (some command)))
        (λ r. mark-Frames command (lookup r.sessions command.session_id) r) (λ done r j other. refl)
        (record r { command_waiters = put_filled r.command_waiters command.session_id waiters }) j
        other

  hand_over-Ready :
      (command : CommandEnvelope) (waiters : Option (List ℕ)) (r : Registry S)
      → is_held (slot r command.session_id) ≡ true
      → is_ready (slot (hand_over command waiters r).registry command.session_id) ≡ true
  unfolding hand_over mark_command_in_flight
  hand_over-Ready command none r held = queue-Ready command r held
  hand_over-Ready command (some []) r held = queue-Ready command r held
  hand_over-Ready command (some (waiter ∷ waiters)) r held =
      bind-keep (λ r. is_ready (slot r command.session_id) ≡ true) (mark_command_in_flight command)
        (λ done. emit (polled waiter (some command)))
        (record r { command_waiters = put_filled r.command_waiters command.session_id waiters })
        (mark-Ready command (lookup r.sessions command.session_id) _ refl held)
        (λ done ready. ready)

  assert_ready-Quiet :
      (command : CommandEnvelope) → Quiet (assert_command_dispatch_ready {S = S} command)
  unfolding assert_command_dispatch_ready
  assert_ready-Quiet command r j =
      if-elim (λ (x : Ran S (Unit {0})). slot x.registry j ≡ slot r j) r.disposed (fail _ r) _
        (λ h. refl)
        λ h.
          if-elim (λ (x : Ran S (Unit {0})). slot x.registry j ≡ slot r j)
            (is_dispatch_ready r command (lookup r.sessions command.session_id)) (pure tt r)
            (fail _ r) (λ h. refl) (λ h. refl)

  bind_registered-slot :
      (command : CommandEnvelope) (session : Option RegisteredSession) (r : Registry S) (j : String)
      → slot (bind_registered command session r) j ≡ slot r j
  unfolding bind_registered bind_command
  bind_registered-slot command none r j = refl
  bind_registered-slot command (some session) r j = refl

  -- The rest of enqueueCommand, once the command may be dispatched.
  abbrev dispatch : CommandEnvelope → Action S (Unit {0})
  dispatch command = do
    reading (λ r. lookup r.sessions command.session_id)
        λ session. modify (bind_registered command session)
    reading (λ r. lookup r.command_waiters command.session_id) (hand_over command)

  dispatch-Frames : (command : CommandEnvelope) → Frames command.session_id (dispatch command)
  dispatch-Frames command = λ r j other.
      hand_over-Frames command (lookup (bound r).command_waiters command.session_id) (bound r) j
        other
      ∙ bind_registered-slot command (lookup r.sessions command.session_id) r j
    where
      bound : Registry S → Registry S
      bound r = bind_registered command (lookup r.sessions command.session_id) r

  pub enqueue-Frames :
      (command : CommandEnvelope) → Frames command.session_id (enqueue_command {S = S} command)
  unfolding enqueue_command
  enqueue-Frames command =
      bind-Frames command.session_id (assert_command_dispatch_ready command)
        (λ done. dispatch command) (λ r j other. assert_ready-Quiet command r j)
        (λ done. dispatch-Frames command)

  pub enqueue-Ready :
      (command : CommandEnvelope) (r : Registry S)
      → is_ready (slot r command.session_id) ≡ true
      → is_ready (slot (enqueue_command command r).registry command.session_id) ≡ true
  unfolding enqueue_command
  enqueue-Ready command r ready =
      bind-keep (λ r. is_ready (slot r command.session_id) ≡ true)
        (assert_command_dispatch_ready command) (λ done. dispatch command) r
        (subst (λ s. is_ready s ≡ true) (sym (assert_ready-Quiet command r command.session_id))
          ready)
        λ done ready. hand_over-Ready command _ _ (
          subst (λ s. is_held s ≡ true) (sym (bind_registered-slot command _ _ command.session_id))
            (ready-held _ ready))

  later-Quiet :
      (waiter : ℕ) (session_id : String) (timeout_ms : ℕ)
      → Quiet (poll_later {S = S} waiter session_id timeout_ms)
  unfolding poll_later
  later-Quiet waiter session_id timeout_ms r j =
      if-elim (λ (m : Action S (Unit {0})). slot (m r).registry j ≡ slot r j) (timeout_ms == 0)
        (emit (polled waiter none)) (modify _) (λ h. refl) (λ h. refl)

  abbrev take_queue : String → List CommandEnvelope → Registry S → Registry S
  take_queue session_id queue r = record r {
    command_queues = put_filled r.command_queues session_id queue;
  }

  -- A poll that the queue answers: the queue's commands are the session's.
  module _ (waiter : ℕ) (session_id : String) (timeout_ms : ℕ) where
    take-Frames :
        (queue : Option (List CommandEnvelope))
        → is_owned session_id queue ≡ true
        → Frames session_id (take_command {S = S} waiter session_id timeout_ms queue)
    unfolding take_command mark_command_in_flight
    take-Frames none own = λ r j other. later-Quiet waiter session_id timeout_ms r j
    take-Frames (some []) own = λ r j other. later-Quiet waiter session_id timeout_ms r j
    take-Frames (some (c ∷ cs)) own = λ r j other.
        bind-Frames session_id (mark_command_in_flight c) (λ done. emit (polled waiter (some c)))
          (λ r j other.
            mark-Frames c (lookup r.sessions c.session_id) r j
              (subst (λ i. (i == j) ≡ false) (sym (head-owned session_id c cs own)) other))
          (λ done r j other. refl) (take_queue session_id cs r) j other
        ∙ took r j other
      where
        took :
            (r : Registry S) (j : String)
            → (session_id == j) ≡ false
            → slot (take_queue session_id cs r) j ≡ slot r j
        took r j other = rw (lookup-put_filled_ne r.command_queues session_id j cs other) refl

    take-Ready :
        (queue : Option (List CommandEnvelope)) (r : Registry S)
        → is_owned session_id queue ≡ true
        → is_ready (slot r session_id) ≡ true
        → is_ready (slot (take_command waiter session_id timeout_ms queue r).registry session_id)
          ≡ true
    unfolding take_command mark_command_in_flight
    take-Ready none r own ready =
        subst (λ s. is_ready s ≡ true) (sym (later-Quiet waiter session_id timeout_ms r session_id))
          ready
    take-Ready (some []) r own ready =
        subst (λ s. is_ready s ≡ true) (sym (later-Quiet waiter session_id timeout_ms r session_id))
          ready
    take-Ready (some (c ∷ cs)) r own ready =
        bind-keep (λ r. is_ready (slot r session_id) ≡ true) (mark_command_in_flight c)
          (λ done. emit (polled waiter (some c))) (take_queue session_id cs r)
          (subst
            (λ i.
              is_ready (
                slot
                  (mark_live c (lookup r.sessions c.session_id)
                    (take_queue session_id cs r)).registry
                  i)
              ≡ true)
            (head-owned session_id c cs own)
            (mark-Ready c (lookup r.sessions c.session_id) (take_queue session_id cs r) refl (
              subst (λ i. is_held (slot r i) ≡ true) (sym (head-owned session_id c cs own))
                (ready-held (slot r session_id) ready))))
          (λ done ready. ready)

    pub dequeue-Frames :
        (r : Registry S) (j : String)
        → is_owned session_id (lookup r.command_queues session_id) ≡ true
        → (session_id == j) ≡ false
        → slot (dequeue_command waiter session_id timeout_ms r).registry j ≡ slot r j
    unfolding dequeue_command
    dequeue-Frames r j own other =
        if-elim (λ (ran : Ran S (Unit {0})). slot ran.registry j ≡ slot r j) r.disposed
          (emit (polled waiter none) r)
          (take_command waiter session_id timeout_ms (lookup r.command_queues session_id) r)
          (λ h. refl) (λ h. take-Frames (lookup r.command_queues session_id) own r j other)

    pub dequeue-Ready :
        (r : Registry S)
        → is_owned session_id (lookup r.command_queues session_id) ≡ true
        → is_ready (slot r session_id) ≡ true
        → is_ready (slot (dequeue_command waiter session_id timeout_ms r).registry session_id)
          ≡ true
    unfolding dequeue_command
    dequeue-Ready r own ready =
        if-elim (λ (ran : Ran S (Unit {0})). is_ready (slot ran.registry session_id) ≡ true)
          r.disposed (emit (polled waiter none) r)
          (take_command waiter session_id timeout_ms (lookup r.command_queues session_id) r)
          (λ h. ready) (λ h. take-Ready (lookup r.command_queues session_id) r own ready)
