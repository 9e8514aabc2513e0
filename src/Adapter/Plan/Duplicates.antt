-- ===== src/Adapter/Plan/Duplicates.antt =====
-- The plans for terminal events: what they stage, and what follows when an event is pushed again.
use mathlib.Core.Path.{subst}
use ariava.Prelude.{
  String, Bool, true, false, not, ◌≡◌, refl, sym, ap, ◌∙◌, Option, none, some, ◌!=◌, if◌then◌else◌,
  string_eq, Result, ok, throw, same_refl, Option-cases, Bool-cases, ◌⊎◌, inl, inr, eq_iff, arith,
}
use ariava.Store.State.{Reservation}
use ariava.Adapter.{SessionFields, EventInput, PendingTerminal}
use ariava.Adapter.Codec.{
  assert_context_matches, event_status, input_of, canonical_context, producer_context,
}
use ariava.Adapter.Plan.{
  TerminalPlan, return_live_duplicate, return_reservation_without_tuple, stage_reserved_tuple,
  cancel_older_and_reserve, reserve_new_tuple, reject, PlanInput, terminal_tuple, reservation_of,
  plan_terminal_event, plan_at, plan_for, plan_new, plan_reserved, is_live_duplicate, rejected,
}

-- A plan that reserves a new event: what it stages belongs together.
pub record Coherent (fingerprint : EventInput → String) (session : SessionFields)
    (input : EventInput) (tuple : PendingTerminal) (reservation : Reservation) : Type 0 where
  pub same_input : input_of tuple.event ≡ input
  pub same_host : tuple.event.host_id ≡ session.host_id
  pub names_event : tuple.session.last_event_id ≡ some tuple.event.event_id
  pub has_status : tuple.session.status ≡ event_status tuple.event.kind
  pub same_session : tuple.event.session_id ≡ tuple.session.session_id
  pub same_context : canonical_context tuple.session ≡ producer_context session
  pub reserves_event : reservation.event_id ≡ tuple.event.event_id
  pub reserves_session : reservation.session_id ≡ tuple.session.session_id
  pub reserves_content : reservation.fingerprint ≡ fingerprint (input_of tuple.event)

-- Of a plan that reserves nothing there is nothing to ask.
abbrev pub PlansCoherently :
    (EventInput → String) → SessionFields → EventInput → TerminalPlan → Type 0
PlansCoherently fingerprint session input (reserve_new_tuple tuple reservation promote) =
    Coherent fingerprint session input tuple reservation
PlansCoherently fingerprint session input (cancel_older_and_reserve tuple reservation promote) =
    Coherent fingerprint session input tuple reservation
PlansCoherently fingerprint session input (return_live_duplicate promote) = Unit
PlansCoherently fingerprint session input (return_reservation_without_tuple event_id) = Unit
PlansCoherently fingerprint session input (stage_reserved_tuple tuple promote) = Unit
PlansCoherently fingerprint session input (reject error) = Unit

not_differs : (a b : String) → (a != b) ≡ false → a ≡ b
not_differs a b h = ground (arith, eq_iff a b)

-- The plan stages this tuple as a new one.
abbrev pub StagesNew : TerminalPlan → PendingTerminal → Type 0
StagesNew (reserve_new_tuple tuple reservation promote) staged = tuple ≡ staged
StagesNew (cancel_older_and_reserve tuple reservation promote) staged = tuple ≡ staged
StagesNew (return_live_duplicate promote) staged = ⊥
StagesNew (return_reservation_without_tuple event_id) staged = ⊥
StagesNew (stage_reserved_tuple tuple promote) staged = ⊥
StagesNew (reject error) staged = ⊥

-- The session accepts the event: it is one of the session's.
pub record Accepted (input : EventInput) (session : SessionFields) : Type 0 where
  pub same_id : (input.session_id != session.session_id) ≡ false
  pub same_provider : (input.provider != session.provider) ≡ false
  pub context_matches : assert_context_matches input session ≡ ok tt

module _ (fingerprint : EventInput → String) where
  -- A property of the plans for a session's event, by the plan's branches.
  pub for-cases :
      (P : TerminalPlan → Type 0) (snapshot : PlanInput) (session : SessionFields)
      → ((error : String) → P (reject error))
      → P (return_live_duplicate (not snapshot.has_pending_command_work))
      → (Accepted snapshot.input session
          → P (
              plan_reserved fingerprint snapshot session snapshot.persisted_reservation
                snapshot.persisted_tuple))
      → P (plan_for fingerprint snapshot session)
  unfolding plan_for
  for-cases P snapshot session rejects live reserved =
      by_tests (snapshot.input.session_id != session.session_id)
        (snapshot.input.provider != session.provider)
        (assert_context_matches snapshot.input session)
        (is_live_duplicate fingerprint snapshot.live_pending snapshot.input) refl refl refl
    where
      by_tests :
          (a b : Bool) (m : Result String (Unit {0})) (c : Bool)
          → (snapshot.input.session_id != session.session_id) ≡ a
          → (snapshot.input.provider != session.provider) ≡ b
          → assert_context_matches snapshot.input session ≡ m
          → P (
              if a
              then reject "canonical Event sessionId does not match the request path"
              else if b
              then reject "canonical Event provider does not match the registered Session"
              else rejected fingerprint m (
                  if c
                  then return_live_duplicate (not snapshot.has_pending_command_work)
                  else plan_reserved fingerprint snapshot session snapshot.persisted_reservation
                      snapshot.persisted_tuple))
      by_tests true b m c h i e = rejects _
      by_tests false true m c h i e = rejects _
      by_tests false false (throw error) c h i e = rejects error
      by_tests false false (ok done) true h i e = live
      by_tests false false (ok done) false h i e =
          reserved (record { same_id = h; same_provider = i; context_matches = e })

  coherent :
      (session : SessionFields) (input : EventInput) (event_id : String)
      → input.session_id ≡ session.session_id
      → Coherent fingerprint session input
          (terminal_tuple session input event_id)
          (reservation_of fingerprint session input event_id)
  unfolding terminal_tuple reservation_of canonical_context producer_context
  coherent session input event_id same = record {
    same_input = refl;
    same_host = refl;
    names_event = refl;
    has_status = refl;
    same_session = same;
    same_context = refl;
    reserves_event = refl;
    reserves_session = refl;
    reserves_content = refl;
  }

  reserved-Coherent :
      (snapshot : PlanInput) (session : SessionFields) (reservation : Option Reservation)
      (tuple : Option PendingTerminal)
      → snapshot.input.session_id ≡ session.session_id
      → PlansCoherently fingerprint session snapshot.input
          (plan_reserved fingerprint snapshot session reservation tuple)
  unfolding plan_reserved plan_new
  reserved-Coherent snapshot session (some r) none same = tt
  reserved-Coherent snapshot session (some r) (some t) same = tt
  reserved-Coherent snapshot session none tuple same = elim (Option-cases snapshot.live_pending) [
    | inl e ↦ rw e (coherent session snapshot.input snapshot.event_id same)
    | inr (live, e) ↦ rw e (coherent session snapshot.input snapshot.event_id same)
  ]

  of_session :
      (snapshot : PlanInput) (session : SessionFields)
      → snapshot.session ≡ some session
      → plan_terminal_event fingerprint snapshot ≡ plan_for fingerprint snapshot session
  unfolding plan_terminal_event plan_at
  of_session snapshot session has = ap (plan_at fingerprint snapshot) has

  -- What a plan stages anew belongs together: the event is the input with its id and Host; the
  -- session that goes with it has that event as its last, the event's status and the registered
  -- session's context; and the reservation is for that event, session and content.
  pub plan-Coherent :
      (snapshot : PlanInput) (session : SessionFields)
      → snapshot.session ≡ some session
      → PlansCoherently fingerprint session snapshot.input
          (plan_terminal_event fingerprint snapshot)
  plan-Coherent snapshot session has =
      subst (PlansCoherently fingerprint session snapshot.input)
        (sym (of_session snapshot session has))
        (for-cases (PlansCoherently fingerprint session snapshot.input) snapshot session (λ e. tt)
          tt
          (λ accepted.
            reserved-Coherent snapshot session snapshot.persisted_reservation
              snapshot.persisted_tuple
              (not_differs snapshot.input.session_id session.session_id accepted.same_id)))

  reserved-input :
      (snapshot : PlanInput) (session : SessionFields) (reservation : Option Reservation)
      (persisted : Option PendingTerminal) (staged : PendingTerminal)
      → StagesNew (plan_reserved fingerprint snapshot session reservation persisted) staged
      → input_of staged.event ≡ snapshot.input
  unfolding plan_reserved plan_new terminal_tuple
  reserved-input snapshot session (some r) none staged stages = elim stages [ ]
  reserved-input snapshot session (some r) (some t) staged stages = elim stages [ ]
  reserved-input snapshot session none persisted staged stages =
      of_pending snapshot.live_pending stages
    where
      of_pending :
          (live : Option PendingTerminal)
          → StagesNew
              (plan_new fingerprint live session snapshot.input snapshot.event_id
                (not snapshot.has_pending_command_work))
              staged
          → input_of staged.event ≡ snapshot.input
      of_pending none stages = ap (λ t. input_of t.event) (sym stages)
      of_pending (some live) stages = ap (λ t. input_of t.event) (sym stages)

  -- A plan that stages nothing anew for the event of this tuple.
  abbrev pub Repeats : PendingTerminal → PlanInput → TerminalPlan → Type 0
  Repeats staged later plan =
      ((is_live_duplicate fingerprint later.live_pending later.input ≡ true)
        × (plan ≡ return_live_duplicate (not later.has_pending_command_work)))
      ⊎ ((is_live_duplicate fingerprint later.live_pending later.input ≡ false)
          × (((later.persisted_tuple ≡ none)
                × (plan ≡ return_reservation_without_tuple staged.event.event_id))
              ⊎ ((later.persisted_tuple ≡ some staged)
                  × (plan ≡ stage_reserved_tuple staged (not later.has_pending_command_work)))))

  pending_duplicate :
      (later : PlanInput) (staged : PendingTerminal)
      → input_of staged.event ≡ later.input
      → later.live_pending ≡ some staged
      → is_live_duplicate fingerprint later.live_pending later.input ≡ true
  unfolding is_live_duplicate
  pending_duplicate later staged same pending =
      rw (pending, is_live_duplicate, same) (same_refl (fingerprint later.input))

  -- The plan for an accepted event, by whether it is the pending one.
  live_plan :
      (snapshot : PlanInput) (session : SessionFields)
      → Accepted snapshot.input session
      → is_live_duplicate fingerprint snapshot.live_pending snapshot.input ≡ true
      → plan_for fingerprint snapshot session
        ≡ return_live_duplicate (not snapshot.has_pending_command_work)
  unfolding plan_for
  live_plan snapshot session accepted same =
      rw (accepted.same_id, accepted.same_provider, accepted.context_matches, same) refl

  other_plan :
      (snapshot : PlanInput) (session : SessionFields)
      → Accepted snapshot.input session
      → is_live_duplicate fingerprint snapshot.live_pending snapshot.input ≡ false
      → plan_for fingerprint snapshot session
        ≡ plan_reserved fingerprint snapshot session snapshot.persisted_reservation
            snapshot.persisted_tuple
  unfolding plan_for
  other_plan snapshot session accepted other =
      rw (accepted.same_id, accepted.same_provider, accepted.context_matches, other) refl

  -- The tuple is the pending one, or a reservation of its id is stored, without a tuple or with it.
  abbrev pub IsKnown : PendingTerminal → PlanInput → Type 0
  IsKnown staged later =
      (later.live_pending ≡ some staged)
      ⊎ ((v : Reservation) × (later.persisted_reservation ≡ some v)
          × (v.event_id ≡ staged.event.event_id)
          × ((later.persisted_tuple ≡ none) ⊎ (later.persisted_tuple ≡ some staged)))

  repeated :
      (later : PlanInput) (session : SessionFields) (staged : PendingTerminal)
      → Accepted later.input session
      → input_of staged.event ≡ later.input
      → IsKnown staged later
      → Repeats staged later (plan_for fingerprint later session)
  unfolding plan_reserved
  repeated later session staged accepted same known =
      elim (Bool-cases (is_live_duplicate fingerprint later.live_pending later.input)) [
        | inl live ↦ inl (live, live_plan later session accepted live)
        | inr other ↦ of_known other known
      ]
    where
      of_known :
          is_live_duplicate fingerprint later.live_pending later.input ≡ false
          → IsKnown staged later
          → Repeats staged later (plan_for fingerprint later session)
      of_known other (inl pending) = cc (pending_duplicate later staged same pending)
      of_known other (inr (v, reserved, names, inl gone)) = inr (
        other,
        inl (
          gone,
          other_plan later session accepted other
              ∙ rw (reserved, gone) (ap return_reservation_without_tuple names),
        ),
      )
      of_known other (inr (v, reserved, names, inr kept)) =
          inr
            (other, inr (kept, other_plan later session accepted other ∙ rw (reserved, kept) refl))

  -- Once a new tuple is staged for a session's event, a later push of that event, which the session
  -- as it is by then still accepts, stages nothing anew as long as the tuple is the pending one or a
  -- reservation of the tuple's id is stored for the event, without a tuple or with this one. If the
  -- pending tuple is of the same content, the push is its live duplicate; if not, it returns the
  -- event's id when no tuple is stored, and stages the stored tuple again when one is. Such a push
  -- is to be promoted exactly when no command work is pending.
  pub plan-again :
      (snapshot later : PlanInput) (session since : SessionFields) (staged : PendingTerminal)
      → snapshot.session ≡ some session
      → later.session ≡ some since
      → StagesNew (plan_terminal_event fingerprint snapshot) staged
      → later.input ≡ snapshot.input
      → Accepted later.input since
      → IsKnown staged later
      → Repeats staged later (plan_terminal_event fingerprint later)
  plan-again snapshot later session since staged has has_later stages same_input accepted known =
      subst (Repeats staged later) (sym (of_session later since has_later)) (
        repeated later since staged accepted
          (for-cases
              (λ (p : TerminalPlan). StagesNew p staged → input_of staged.event ≡ snapshot.input)
              snapshot session (λ error stages. elim stages [ ]) (λ stages. elim stages [ ])
              (λ before stages.
                reserved-input snapshot session snapshot.persisted_reservation
                  snapshot.persisted_tuple staged stages)
              (subst (λ plan. StagesNew plan staged) (of_session snapshot session has) stages)
            ∙ sym same_input)
          known)
