-- ===== src/Store/Events/Reservations.antt =====
-- A reservation, once made, is found again: apps/bridge/src/state-store/event-transitions.ts.
use ariava.Prelude.{
  ◌≡◌, refl, sym, ap, ◌∙◌, true, false, none, some, ◌!=◌, ok, throw, string_eq, nat_eq, arith,
  eq_iff, Option-cases, Bool-cases, ok-injective, inl, inr,
}
use ariava.Prelude.Dict.{lookup, length-insert, lookup-drop-insert, lookup-insert_self}
use ariava.Store.State.{
  Reservation, Checkpoint, BridgeState, StateTransition, unchanged, replaced, after,
  checkpoint_session_mismatch, reservation_conflict,
}
use ariava.Store.Events.{
  key_of, with_reservation, is_conflict, reserve_producer_event,
  reserve_producer_event_with_checkpoint, checkpointed,
}

no_conflict : (r : Reservation) → is_conflict r r ≡ false
no_conflict r = ground (arith, eq_iff r.event_id r.event_id)

found_again :
    (s : BridgeState) (r : Reservation)
    → lookup s.producer_event_reservations (key_of r) ≡ none
    → lookup (with_reservation s r) (key_of r) ≡ some r
found_again s r fresh =
    lookup-drop-insert s.producer_event_reservations (key_of r) r _
      (omega (arith, length-insert s.producer_event_reservations (key_of r) r fresh)) fresh

stored_already :
    (s : BridgeState) (r e : Reservation)
    → lookup s.producer_event_reservations (key_of r) ≡ some e
    → is_conflict e r ≡ false
    → reserve_producer_event s r ≡ ok (record { state = unchanged; result = tt })
unfolding reserve_producer_event
stored_already s r e has fine = rw (reserve_producer_event, has, fine) refl

newly_stored :
    (s : BridgeState) (r : Reservation)
    → lookup s.producer_event_reservations (key_of r) ≡ none
    → reserve_producer_event s r
      ≡ ok (record {
        state = replaced (record s { producer_event_reservations = with_reservation s r });
        result = tt;
      })
unfolding reserve_producer_event
newly_stored s r fresh = rw (reserve_producer_event, fresh) refl

reserved_after :
    (s : BridgeState) (r : Reservation) (t : StateTransition (Unit {0}))
    → reserve_producer_event s r ≡ ok t
    → (e : Reservation) × (lookup (after s t).producer_event_reservations (key_of r) ≡ some e)
      × (is_conflict e r ≡ false)
unfolding reserve_producer_event
reserved_after s r t h = elim (Option-cases (lookup s.producer_event_reservations (key_of r))) [
  | inl fresh ↦
      let made = ok-injective (sym (newly_stored s r fresh) ∙ h) in
      (
        r,
        ap (λ x. lookup (after s x).producer_event_reservations (key_of r)) (sym made)
            ∙ found_again s r fresh,
        no_conflict r,
      )
  | inr (e, has) ↦ elim (Bool-cases (is_conflict e r)) [
    | inl bad ↦ ground arith
    | inr fine ↦
        let made = ok-injective (sym (stored_already s r e has fine) ∙ h) in
        (
          e,
          ap (λ x. lookup (after s x).producer_event_reservations (key_of r)) (sym made) ∙ has,
          fine,
        )
  ]
]

-- Making a reservation again, when it succeeded, succeeds and writes nothing.
pub reserve-again :
    (s : BridgeState) (r : Reservation) (t : StateTransition (Unit {0}))
    → reserve_producer_event s r ≡ ok t
    → reserve_producer_event (after s t) r ≡ ok (record { state = unchanged; result = tt })
reserve-again s r t h =
    let (e, has, fine) = reserved_after s r t h in stored_already (after s t) r e has fine

-- The branches of `reserve_producer_event_with_checkpoint`.
module _ (s : BridgeState) (r : Reservation) (c : Checkpoint) where
  mismatched :
      (c.session_id != r.session_id) ≡ true
      → reserve_producer_event_with_checkpoint s r c ≡ throw checkpoint_session_mismatch
  unfolding reserve_producer_event_with_checkpoint
  mismatched other = rw (reserve_producer_event_with_checkpoint, other) refl

  checkpoint_new :
      (c.session_id != r.session_id) ≡ false
      → lookup s.producer_event_reservations (key_of r) ≡ none
      → reserve_producer_event_with_checkpoint s r c ≡ ok (checkpointed s (with_reservation s r) c)
  unfolding reserve_producer_event_with_checkpoint
  checkpoint_new own fresh = rw (reserve_producer_event_with_checkpoint, own, fresh) refl

  module _ (e : Reservation) (own : (c.session_id != r.session_id) ≡ false)
      (has : lookup s.producer_event_reservations (key_of r) ≡ some e) where
    checkpoint_conflict :
        is_conflict e r ≡ true
        → reserve_producer_event_with_checkpoint s r c ≡ throw reservation_conflict
    unfolding reserve_producer_event_with_checkpoint
    checkpoint_conflict bad = rw (reserve_producer_event_with_checkpoint, own, has, bad) refl

    checkpoint_stored :
        is_conflict e r ≡ false
        → reserve_producer_event_with_checkpoint s r c
          ≡ ok (checkpointed s s.producer_event_reservations c)
    unfolding reserve_producer_event_with_checkpoint
    checkpoint_stored fine = rw (reserve_producer_event_with_checkpoint, own, has, fine) refl

-- When reserving with a checkpoint succeeds, the sessions agree, the checkpoint stands under its
-- session, and the reservation alone succeeds too and leaves the same reservations.
pub checkpoint-agrees :
    (s : BridgeState) (r : Reservation) (c : Checkpoint) (t : StateTransition (Unit {0}))
    → reserve_producer_event_with_checkpoint s r c ≡ ok t
    → (c.session_id ≡ r.session_id)
      × (lookup (after s t).producer_event_checkpoints c.session_id ≡ some c)
      × ((u : StateTransition (Unit {0})) × (reserve_producer_event s r ≡ ok u)
          × ((after s t).producer_event_reservations ≡ (after s u).producer_event_reservations))
checkpoint-agrees s r c t h = elim (Bool-cases (c.session_id != r.session_id)) [
  | inl other ↦
      let thrown : throw checkpoint_session_mismatch ≡ ok t = rw (sym (mismatched s r c other)) h in
      cc
  | inr own ↦
      let named : c.session_id ≡ r.session_id = ground (arith, eq_iff c.session_id r.session_id) in
      elim (Option-cases (lookup s.producer_event_reservations (key_of r))) [
        | inl fresh ↦
            let made = ok-injective (sym (checkpoint_new s r c own fresh) ∙ h) in
            rw (sym made) (
              named,
              lookup-insert_self s.producer_event_checkpoints c.session_id c,
              (_, newly_stored s r fresh, refl),
            )
        | inr (e, has) ↦ elim (Bool-cases (is_conflict e r)) [
          | inl bad ↦
              let thrown : throw reservation_conflict ≡ ok t =
                rw (sym (checkpoint_conflict s r c e own has bad)) h in
              cc
          | inr fine ↦
              let made = ok-injective (sym (checkpoint_stored s r c e own has fine) ∙ h) in
              rw (sym made) (
                named,
                lookup-insert_self s.producer_event_checkpoints c.session_id c,
                (_, stored_already s r e has fine, refl),
              )
        ]
      ]
]
