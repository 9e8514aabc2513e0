-- ===== src/Adapter/Registry/Register.antt =====
-- The registration of a session by a driver instance: `register` and
-- `restorePersistedTerminalForRegistration`, apps/bridge/src/agent-adapter/registry.ts.
use ariava.Prelude.{
  ℕ, String, Bool, false, not, ◌&&◌, Option, none, some, List, [], ◌∷◌, if◌then◌else◌, ltb, ◌==◌,
  ◌!=◌, string_eq, option_eq, pair_eq,
}
use ariava.Prelude.Sorting.{sort_by}
use ariava.Prelude.Dict.{lookup, has_key}
use ariava.Store.State.{
  Timestamp, need_human, status_eq, CanonicalSession, CanonicalEvent, Reservation,
}
use ariava.Adapter.{SessionFields, RegisteredSession, RegisterInput, PendingTerminal, register, ttl}
use ariava.Adapter.Codec.{or_else, is_missing, Context, canonical_context, event_status, input_of}
use ariava.Adapter.Registration.{
  Persistence, durable_cancel_terminal, durable_set_session_driver, authorize_registration,
  Authorization, authorized, collision, reduce_registration, requested_context,
  RegistrationTransition,
}
use ariava.Adapter.Plan.{to_canonical_session_state}
use ariava.Adapter.Registry.{StateStore, mutated}
use ariava.Adapter.Registry.Action.{Action, pure, fail, ◌>>=◌, ◌>>◌, reading, emit, write, when_}
use ariava.Adapter.Registry.Terminal.{no_options, cancel_terminal_retry}
use ariava.Adapter.Registry.Owner.{has_expired, lose_ownership, assert_storable, set_session}

pub data Recovery : Type 0 where
  pending_again : (terminal : PendingTerminal) → Recovery
  committed_before : (session : CanonicalSession) → Recovery

-- `persistedSession && context differs`
abbrev belongs_elsewhere : Option CanonicalSession → Context → Bool
belongs_elsewhere none context = false
belongs_elsewhere (some s) context = canonical_context s != context

module _ {S : Type 0} (store : StateStore S) where
  -- A stored tuple that this registration can take up again.
  unfoldable pub is_resumable : RegisterInput → Reservation → PendingTerminal → Bool
  is_resumable input reservation tuple =
      tuple.event.session_id == input.session_id
      && event_status tuple.event.kind == need_human
      && tuple.session.status == need_human
      && tuple.session.last_event_id == some tuple.event.event_id
      && store.fingerprint (input_of tuple.event) == reservation.fingerprint
      && canonical_context tuple.session == requested_context input

  -- A recent event that was committed under this reservation.
  unfoldable pub is_committed_event : RegisterInput → Reservation → CanonicalEvent → Bool
  is_committed_event input reservation event =
      event.session_id == input.session_id
      && event_status event.kind == need_human
      && store.fingerprint (input_of event) == reservation.fingerprint
      && ◌==◌ {T = Context}
          (
            or_else event.project_name "",
            (or_else event.working_directory "", or_else event.harness_provider event.provider),
          )
          (requested_context input)

  unfoldable pub session_of_event : RegisterInput → CanonicalEvent → CanonicalSession
  session_of_event input event = record {
    session_id = input.session_id;
    host_id = event.host_id;
    provider = input.provider;
    project_name = input.project_name;
    name_text = input.name_text;
    opening_text = input.opening_text;
    latest_activity_text = some event.agent_text;
    working_directory = some input.cwd;
    harness_provider = input.harness_provider;
    status = need_human;
    updated_at = event.created_at;
    last_event_id = some event.event_id;
    snoozed_until = none;
  }

  abbrev passes {ℓ} : {A : Type ℓ} → (A → Bool) → Option A → Bool
  passes test none = false
  passes test (some a) = test a

  unfoldable pub recover_from :
      RegisterInput
      → Reservation
      → Option PendingTerminal
      → Option CanonicalEvent
      → Option Recovery
      → Option Recovery
  recover_from input reservation (some tuple) none rest =
      if is_resumable input reservation tuple then some (pending_again tuple) else rest
  recover_from input reservation none none rest = rest
  recover_from input reservation none (some event) rest =
      if is_committed_event input reservation event
      then some (committed_before (session_of_event input event))
      else rest
  recover_from input reservation (some tuple) (some event) rest =
      if is_resumable input reservation tuple
      then some (pending_again tuple)
      else if is_committed_event input reservation event
      then some (committed_before (session_of_event input event))
      else rest

  -- The loop over the reservations.
  unfoldable pub recover_first : S → RegisterInput → List Reservation → Option Recovery
  recover_first s input [] = none
  recover_first s input (reservation ∷ reservations) =
      let rest = recover_first s input reservations in
      recover_from input reservation
        (store.get_tuple s reservation.event_id reservation.fingerprint)
        (store.get_recent_event s reservation.event_id) rest

  -- Newest first.
  unfoldable pub restore_persisted_terminal :
      S → RegisterInput → Option CanonicalSession → Option Recovery
  restore_persisted_terminal s input persisted =
      if belongs_elsewhere persisted (requested_context input)
      then none
      else recover_first s input (
          sort_by (λ left right. ltb right.created_at left.created_at)
            (store.list_reservations s input.session_id))

  -- The persisted session already stands at a terminal event.
  unfoldable pub is_terminal_evidence : Option CanonicalSession → Bool
  is_terminal_evidence none = false
  is_terminal_evidence (some s) = s.status == need_human && not (is_missing s.last_event_id)

  unfoldable pub take_up : Option Recovery → String → Action S (Unit {0})
  take_up none session_id = pure tt
  take_up (some (pending_again terminal)) session_id =
      write
        (λ s. store.queue_pending_event s terminal (store.fingerprint (input_of terminal.event)))
  take_up (some (committed_before session)) session_id =
      write (λ s. store.set_session_driver s session_id "agent-adapter" session)

  unfoldable pub recover_terminal : Option RegisteredSession → RegisterInput → Action S (Unit {0})
  recover_terminal (some previous) input = pure tt
  recover_terminal none input =
      reading (λ r. store.get_session r.store input.session_id)
        λ persisted.
          when_ (input.status == some need_human && not (is_terminal_evidence persisted)) (
            reading (λ r. restore_persisted_terminal r.store input persisted)
              λ recovery. take_up recovery input.session_id)

  unfoldable pub check_authorized : Authorization → Action S (Unit {0})
  check_authorized authorized = pure tt
  check_authorized (collision session_id) = fail "session_id_collision"

  module _ (fits : CanonicalSession → Bool) (now : Timestamp) (monotonic : ℕ)
      (fresh_lease host_id : String) where
    -- A lease that has run out is revoked; one that has not keeps other instances away.
    unfoldable pub contend : Option RegisteredSession → RegisterInput → Action S (Unit {0})
    contend none input = pure tt
    contend (some previous) input =
        if has_expired monotonic previous
        then lose_ownership store now previous.fields.session_id ttl
        else if previous.driver_instance_id != input.driver_instance_id
        then fail "owner_conflict"
        else pure tt

    unfoldable pub persist_registration :
        String → RegistrationTransition → Persistence → Action S (Unit {0})
    persist_registration session_id transition durable_set_session_driver = write (λ s.
        store.set_session_driver s session_id "agent-adapter"
          (to_canonical_session_state transition.next_session))
    persist_registration session_id transition (durable_cancel_terminal driver cancellation) =
        cancel_terminal_retry store now session_id (record no_options {
          next_driver_name = some driver;
          persisted_cancellation = some cancellation;
          replacement_session = some (to_canonical_session_state transition.next_session);
        })

    -- The lease goes on for the instance that holds it and still lives.
    unfoldable pub lease_for : Option RegisteredSession → RegisterInput → Bool → String
    lease_for none input lives = fresh_lease
    lease_for (some previous) input lives =
        if previous.driver_instance_id == input.driver_instance_id && lives
        then previous.owner_lease
        else fresh_lease

    abbrev pub fields_of : Option RegisteredSession → Option SessionFields
    fields_of none = none
    fields_of (some s) = some s.fields

    unfoldable pub owned_session :
        Option RegisteredSession → RegisterInput → RegistrationTransition → Bool → RegisteredSession
    owned_session previous input transition lives = record {
      fields = transition.next_session;
      driver_instance_id = input.driver_instance_id;
      owner_lease = lease_for previous input lives;
      last_owner_lease_monotonic = monotonic;
    }

    unfoldable pub store_registration :
        Option RegisteredSession
        → RegisterInput
        → RegistrationTransition
        → Action S RegisteredSession
    store_registration previous input transition = do
      assert_storable store now fits transition.next_session
      persist_registration input.session_id transition transition.persistence
      lives ← reading (λ r. has_key r.sessions input.session_id) pure
      let owned = owned_session previous input transition lives
      set_session input.session_id owned
      when_ transition.semantic_changed (emit (mutated register))
      pure owned

    unfoldable pub register_over :
        RegisterInput → Option RegisteredSession → Action S RegisteredSession
    register_over input previous = do
      recover_terminal previous input
      persisted ← reading (λ r. store.get_session r.store input.session_id) pure
      check_authorized (authorize_registration (fields_of previous) persisted input)
      contend previous input
      cancellation ← reading (λ r. store.get_cancellation r.store input.session_id) pure
      store_registration previous input (
          reduce_registration
            (record {
              previous_live = fields_of previous;
              persisted_session = persisted;
              terminal_cancellation = cancellation;
            })
            input host_id now)

    -- `register`
    unfoldable pub register_session : RegisterInput → Action S RegisteredSession
    register_session input =
        if input.driver_instance_id == ""
        then fail "driverInstanceId is required"
        else reading (λ r. lookup r.sessions input.session_id) (register_over input)
