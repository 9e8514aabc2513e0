-- ===== src/Adapter/Registry/Pushes.antt =====
-- A push that returns leaves its event committed, or waited for: the session that it is pushed to.
pub mod Whole
pub mod Returned
pub mod Queues
use mathlib.Core.Path.{subst}
use ariava.Prelude.{
  ℕ, String, Bool, true, false, not, ◌&&◌, ◌||◌, ◌≡◌, refl, sym, ap, ◌∙◌, Option, none, some, List,
  [], ◌∷◌, ◌++◌, if◌then◌else◌, ◌==◌, ◌!=◌, string_eq, Result, ok, throw, arith, eq_iff,
}
use ariava.Prelude.Dict.{Dict, lookup, insert, remove, lookup-insert_ne, lookup-insert_self}
use ariava.Store.State.{Timestamp, Reservation}
use ariava.Adapter.{RegisteredSession, PendingTerminal, EventInput, SessionFields}
use ariava.Adapter.Codec.{assert_context_matches}
use ariava.Adapter.Plan.{
  TerminalPlan, return_live_duplicate, return_reservation_without_tuple, stage_reserved_tuple,
  cancel_older_and_reserve, reserve_new_tuple, reject, PlanInput, plan_terminal_event, plan_for,
  plan_at, plan_reserved, plan_new,
}
use ariava.Adapter.Plan.Duplicates.{for-cases}
use ariava.Adapter.Registry.{Registry, StateStore}
use ariava.Adapter.Registry.Action.{
  Action, Ran, pure, fail, continue, ◌>>=◌, ◌>>◌, modify, reading, emit, write, when_,
}
use ariava.Adapter.Registry.Terminal.{
  no_options, is_filled, has_pending_command_work, clear_retry, cancel_terminal_retry,
  promote_pending_terminal,
}
use ariava.Adapter.Registry.Push.{
  Disposition, committed_event, duplicate_event, check_event, stage, promote_when, return_duplicate,
  reserve_and_stage, stage_reserved, follow, follow_plan, plan_input, reservation_for,
}
use ariava.Adapter.Registry.Slots.{
  Slot, is_ready, is_some, slot, Waits, Quiet-Waits, Frames-Waits, if-elim, Frames, Quiet,
  bind-Frames, bind-keep, when-Frames,
}
use ariava.Adapter.Registry.Slots.Retries.{promote-Frames, cancel-Frames}
use ariava.Adapter.Registry.Slots.Ready.{cancel_cases, clear-Ready, promote-Ready}

-- What a plan is to promote now, if anything, goes by the pending command work.
abbrev pub PromotesBy : Bool → TerminalPlan → Type 0
PromotesBy work (return_live_duplicate promote_now) = promote_now ≡ not work
PromotesBy work (return_reservation_without_tuple event_id) = Unit
PromotesBy work (stage_reserved_tuple tuple promote_now) = promote_now ≡ not work
PromotesBy work (cancel_older_and_reserve tuple reservation promote_now) = promote_now ≡ not work
PromotesBy work (reserve_new_tuple tuple reservation promote_now) = promote_now ≡ not work
PromotesBy work (reject error) = Unit

-- The command work of a slot.
abbrev pub works : Slot → Bool
works s = is_filled s.queue || is_filled s.in_flight

module _ {S : Type 0} (store : StateStore S) (now : Timestamp) (fresh_id i : String)
    (input : EventInput) where
  -- The registry is one where the session is live, and promotion goes by its command work.
  pub record At (promote_now : Bool) (r : Registry S) : Type 0 where
    pub current : RegisteredSession
    pub is_live : lookup r.sessions i ≡ some current
    pub promotes : promote_now ≡ not (works (slot r i))

  -- If the method returns, the session's staged event is waited for.
  abbrev pub Returns : {A : Type 0} → Ran S A → Type 0
  Returns {A} ran = (a : A) → ran.result ≡ ok a → is_ready (slot ran.registry i) ≡ true

  same-At :
      (promote_now : Bool) (r after : Registry S)
      → slot after i ≡ slot r i
      → At promote_now r
      → At promote_now after
  same-At promote_now r after same at = record {
    current = at.current;
    is_live = ap (λ s. s.session) same ∙ at.is_live;
    promotes = at.promotes ∙ ap (λ s. not (works s)) (sym same);
  }

  pub promote-ready :
      (promote_now : Bool) (t : PendingTerminal) (r : Registry S)
      → At promote_now r
      → is_ready (slot (promote_when store now fresh_id promote_now i t input r).registry i) ≡ true
  unfolding promote_when
  promote-ready true t r at =
      promote-Ready store now i t (store.fingerprint input) at.current r at.is_live
  promote-ready false t r at = ground (arith, at.promotes, at.is_live)

  pub stage-At :
      (promote_now : Bool) (t : PendingTerminal) (r : Registry S)
      → At promote_now r
      → At promote_now (stage store now fresh_id i t r).registry
  unfolding stage
  stage-At promote_now t r at = record {
    current = at.current;
    is_live = at.is_live;
    promotes = at.promotes;
  }

  bind-Returns :
      {A B : Type 0} (m : Action S A) (k : A → Action S B) (r : Registry S)
      → ((a : A) → Returns (k a (m r).registry))
      → Returns ((m >>= k) r)
  bind-Returns {A} {B} m k r next = of_result (m r).result
    where
      of_result : (result : Result String A) → Returns (continue (m r).registry result k)
      of_result (ok a) = next a
      of_result (throw e) = λ value h. cc

  promoted-Returns :
      {A : Type 0} (promote_now : Bool) (t : PendingTerminal) (value : A) (r : Registry S)
      → At promote_now r
      → Returns ((promote_when store now fresh_id promote_now i t input >> pure value) r)
  promoted-Returns promote_now t value r at out h =
      bind-keep (λ r. is_ready (slot r i) ≡ true)
        (promote_when store now fresh_id promote_now i t input) (λ done. pure value) r
        (promote-ready promote_now t r at) (λ done ready. ready)

  -- Stage, a write, promotion.
  staged-Returns :
      {A : Type 0} (promote_now : Bool) (t : PendingTerminal) (reserve : Action S (Unit {0}))
      (value : A) (r : Registry S)
      → Quiet reserve
      → At promote_now r
      → Returns (
          (stage store now fresh_id i t
              >> (reserve >> (promote_when store now fresh_id promote_now i t input >> pure value)))
            r)
  staged-Returns promote_now t reserve value r quiet at =
      bind-Returns (stage store now fresh_id i t)
        (λ done. reserve >> (promote_when store now fresh_id promote_now i t input >> pure value)) r
        λ done.
          bind-Returns reserve
            (λ done. promote_when store now fresh_id promote_now i t input >> pure value)
            (stage store now fresh_id i t r).registry
            λ done. promoted-Returns promote_now t value _ (
              same-At promote_now (stage store now fresh_id i t r).registry _ (quiet _ i)
                (stage-At promote_now t r at))

  reserve-Returns :
      (t : PendingTerminal) (promote_now : Bool) (reserve : Action S (Unit {0})) (r : Registry S)
      → Quiet reserve
      → At promote_now r
      → Returns (reserve_and_stage store now fresh_id i input t promote_now reserve r)
  unfolding reserve_and_stage
  reserve-Returns t promote_now reserve r quiet at =
      bind-Returns (write (λ s. store.reserve_tuple s t (store.fingerprint input))) _ r λ done.
        staged-Returns promote_now t reserve (t.event.event_id, committed_event) _ quiet
          (same-At promote_now r _ refl at)

  clear-At :
      (promote_now : Bool) (r : Registry S) (s : S)
      → At promote_now r
      → At promote_now (clear_retry store now i (record r { store = s }))
  unfolding clear_retry
  clear-At promote_now r s at = record {
    current = at.current;
    is_live = at.is_live;
    promotes = at.promotes;
  }

  module _ (reserve take_up : Reservation → Action S (Unit {0}))
      (reserve_quiet : (v : Reservation) → Quiet (reserve v))
      (take_up_quiet : (v : Reservation) → Quiet (take_up v)) where
    duplicate-Returns :
        (promote_now : Bool) (pending : Option PendingTerminal) (r : Registry S)
        → At promote_now r
        → Returns (return_duplicate store now fresh_id promote_now i input pending r)
    unfolding return_duplicate
    duplicate-Returns promote_now none r at = λ value h. cc
    duplicate-Returns promote_now (some pending) r at =
        promoted-Returns promote_now pending (pending.event.event_id, duplicate_event) r at

    reserved-Returns :
        (t : PendingTerminal) (promote_now : Bool) (v : Option Reservation) (r : Registry S)
        → At promote_now r
        → Returns (stage_reserved store now fresh_id reserve take_up i input t promote_now v r)
    unfolding stage_reserved
    reserved-Returns t promote_now none r at = λ value h. cc
    reserved-Returns t promote_now (some v) r at =
        staged-Returns promote_now t (take_up v) (v.event_id, committed_event) r (take_up_quiet v)
          at

    pub follow-Returns :
        (plan : TerminalPlan) (r : Registry S)
        → is_ready (slot r i) ≡ true
        → PromotesBy (works (slot r i)) plan
        → (current : RegisteredSession) → lookup r.sessions i ≡ some current
        → Returns (follow store now fresh_id reserve take_up i input plan r)
    unfolding follow
    follow-Returns (reject error) r ready promotes current live = λ value h. cc
    follow-Returns (return_live_duplicate promote_now) r ready promotes current live =
        duplicate-Returns promote_now (lookup r.delayed_terminal_events i) r
          (record { current = current; is_live = live; promotes = promotes })
    follow-Returns (return_reservation_without_tuple event_id) r ready promotes current live =
        λ value h. ready
    follow-Returns (stage_reserved_tuple t promote_now) r ready promotes current live =
        reserved-Returns t promote_now (reservation_for store now fresh_id r i input) r
          (record { current = current; is_live = live; promotes = promotes })
    follow-Returns (reserve_new_tuple t v promote_now) r ready promotes current live =
        reserve-Returns t promote_now (reserve v) r (reserve_quiet v)
          (record { current = current; is_live = live; promotes = promotes })
    follow-Returns (cancel_older_and_reserve t v promote_now) r ready promotes current live =
        cancel_cases store now i
          (λ ran. Returns (
            continue ran.registry ran.result
              λ done. reserve_and_stage store now fresh_id i input t promote_now (reserve v)))
          no_options r (λ s error value h. cc)
          λ s.
            reserve-Returns t promote_now (reserve v)
              (clear_retry store now i (record r { store = s })) (reserve_quiet v)
              (clear-At promote_now r s
                (record { current = current; is_live = live; promotes = promotes }))
