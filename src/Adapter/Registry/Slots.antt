-- ===== src/Adapter/Registry/Slots.antt =====
-- What the registry holds of one session, and the methods that leave it alone for every other.
pub mod Retries
pub mod Ready
pub mod Work
pub mod Results
pub mod Owners
pub mod Renewals
pub mod Queues
pub mod Commands
pub mod Others
use mathlib.Core.Path.{subst}
use ariava.Prelude.{
  ℕ, String, Bool, true, false, not, ◌&&◌, ◌||◌, ◌≡◌, refl, sym, ap, ◌∙◌, Option, none, some, List,
  [], ◌∷◌, ◌++◌, if◌then◌else◌, ◌==◌, string_eq, Result, ok, throw, arith, eq_iff, Bool-cases, inl,
  inr, same_of, all,
}
use ariava.Prelude.Dict.{
  Dict, lookup, insert, remove, has_key, lookup-insert_ne, lookup-remove_ne, lookup-insert_self,
}
use ariava.Adapter.{RegisteredSession, PendingTerminal}
use ariava.Adapter.Registry.{Registry, CommandEnvelope, Wrote, Effect}
use ariava.Adapter.Registry.Action.{
  Action, Ran, pure, fail, continue, ◌>>=◌, ◌>>◌, modify, reading, emit, write, when_, on_throw,
  rethrow, catching, recover,
}
use ariava.Adapter.Registry.Terminal.{is_filled}
use ariava.Adapter.Registry.Queue.{put_filled}

-- A session's place in the maps that a staged event depends on.
pub record Slot : Type 0 where
  pub is_disposed : Bool
  pub pending : Option PendingTerminal
  pub session : Option RegisteredSession
  pub queue : Option (List CommandEnvelope)
  pub in_flight : Option (List String)
  pub timer : Option ℕ

abbrev pub is_some {ℓ} : {A : Type ℓ} → Option A → Bool
is_some none = false
is_some (some a) = true

-- A staged event is waited for: its session is live, and command work is pending or a retry is.
abbrev pub is_ready : Slot → Bool
is_ready s =
    s.is_disposed
    || not (is_some s.pending)
    || (is_some s.session && (is_filled s.queue || is_filled s.in_flight || is_some s.timer))

-- The part of it that clearing the command work leaves.
abbrev pub is_held : Slot → Bool
is_held s = s.is_disposed || not (is_some s.pending) || is_some s.session

-- A property of what a test leaves, by the test.
pub if-elim :
    {A : Type 0} (P : A → Type 0) (b : Bool) (x y : A)
    → (b ≡ true → P x)
    → (b ≡ false → P y)
    → P (if b then x else y)
if-elim P true x y taken passed = taken refl
if-elim P false x y taken passed = passed refl

-- A session's queue holds commands for that session.
abbrev pub is_owned : String → Option (List CommandEnvelope) → Bool
is_owned session_id none = true
is_owned session_id (some queue) = all (λ c. c.session_id == session_id) queue

pub ready-held : (s : Slot) → is_ready s ≡ true → is_held s ≡ true
ready-held s ready = ground arith

module _ {S : Type 0} where
  abbrev pub slot : Registry S → String → Slot
  slot r j = record {
    is_disposed = r.disposed;
    pending = lookup r.delayed_terminal_events j;
    session = lookup r.sessions j;
    queue = lookup r.command_queues j;
    in_flight = lookup r.in_flight_commands j;
    timer = lookup r.terminal_retry_timers j;
  }

  -- The method changes no other session's slot, whether it returns or throws.
  abbrev pub Frames : String → {A : Type 0} → Action S A → Type 0
  Frames session_id m =
      (r : Registry S) (j : String) → (session_id == j) ≡ false → slot (m r).registry j ≡ slot r j

  -- The method changes no slot at all.
  abbrev pub Quiet : {A : Type 0} → Action S A → Type 0
  Quiet m = (r : Registry S) (j : String) → slot (m r).registry j ≡ slot r j

  continue-slot :
      {A B : Type 0} (k : A → Action S B) (r : Registry S) (result : Result String A) (j : String)
      → ((a : A) → slot (k a r).registry j ≡ slot r j)
      → slot (continue r result k).registry j ≡ slot r j
  continue-slot k r (ok a) j same = same a
  continue-slot k r (throw e) j same = refl

  pub bind-Frames :
      {A B : Type 0} (i : String) (m : Action S A) (k : A → Action S B)
      → Frames i m
      → ((a : A) → Frames i (k a))
      → Frames i (m >>= k)
  bind-Frames i m k first next r j other =
      continue-slot k (m r).registry (m r).result j (λ a. next a (m r).registry j other)
      ∙ first r j other

  pub bind-Quiet :
      {A B : Type 0} (m : Action S A) (k : A → Action S B)
      → Quiet m
      → ((a : A) → Quiet (k a))
      → Quiet (m >>= k)
  bind-Quiet m k first next r j =
      continue-slot k (m r).registry (m r).result j (λ a. next a (m r).registry j) ∙ first r j

  -- Every staged event is waited for, and every queue is its session's.
  abbrev pub Waits : Registry S → Type 0
  Waits r =
      (j : String) → (is_ready (slot r j) ≡ true) × (is_owned j (lookup r.command_queues j) ≡ true)

  pub Quiet-Waits :
      (r after : Registry S) → ((j : String) → slot after j ≡ slot r j) → Waits r → Waits after
  Quiet-Waits r after same waits j =
      subst (λ s. (is_ready s ≡ true) × (is_owned j s.queue ≡ true)) (sym (same j)) (waits j)

  pub Frames-Waits :
      (i : String) (r after : Registry S)
      → ((j : String) → (i == j) ≡ false → slot after j ≡ slot r j)
      → is_ready (slot after i) ≡ true
      → is_owned i (lookup after.command_queues i) ≡ true
      → Waits r
      → Waits after
  Frames-Waits i r after same ready own waits j = elim (Bool-cases (i == j)) [
    | inl here ↦
        subst
          (λ k.
            (is_ready (slot after k) ≡ true) × (is_owned k (lookup after.command_queues k) ≡ true))
          (same_of i j here) (ready, own)
    | inr other ↦
        subst (λ s. (is_ready s ≡ true) × (is_owned j s.queue ≡ true)) (sym (same j other))
          (waits j)
  ]

  -- The queues are the same ones.
  pub kept-owned :
      (i : String) (r after : Registry S)
      → after.command_queues ≡ r.command_queues
      → Waits r
      → is_owned i (lookup after.command_queues i) ≡ true
  kept-owned i r after kept waits =
      subst (λ d. is_owned i (lookup d i) ≡ true) (sym kept) (waits i).1

  -- A session that is written over, or anew, is there.
  pub insert-Waits :
      (i : String) (session : RegisteredSession) (r : Registry S)
      → Waits r
      → Waits (record r { sessions = insert r.sessions i session })
  insert-Waits i session r waits =
      Frames-Waits i r (record r { sessions = insert r.sessions i session })
        (λ j other. rw (lookup-insert_ne r.sessions i j session other) refl)
        (rw (lookup-insert_self r.sessions i session) (ground (arith, (waits i).0))) (waits i).1
        waits

  -- A property that the first part establishes and the rest keeps.
  pub bind-keep :
      {A B : Type 0} (P : Registry S → Type 0) (m : Action S A) (k : A → Action S B)
      (r : Registry S)
      → P (m r).registry
      → ((a : A) → P (m r).registry → P (k a (m r).registry).registry)
      → P ((m >>= k) r).registry
  bind-keep {A = A} P m k r first next = of_result (m r).result
    where
      of_result : (result : Result String A) → P (continue (m r).registry result k).registry
      of_result (ok a) = next a first
      of_result (throw e) = first

  rethrow-slot :
      {A : Type 0} (h : Action S (Unit {0})) (r : Registry S) (result : Result String A)
      (j : String)
      → slot (h r).registry j ≡ slot r j
      → slot (rethrow r result h).registry j ≡ slot r j
  rethrow-slot h r (ok a) j same = refl
  rethrow-slot h r (throw e) j same = same

  pub on_throw-Frames :
      {A : Type 0} (i : String) (m : Action S A) (h : Action S (Unit {0}))
      → Frames i m
      → Frames i h
      → Frames i (on_throw m h)
  on_throw-Frames i m h first handled r j other =
      rethrow-slot h (m r).registry (m r).result j (handled (m r).registry j other)
      ∙ first r j other

  recover-slot :
      {A : Type 0} (h : Action S A) (r : Registry S) (result : Result String A) (j : String)
      → slot (h r).registry j ≡ slot r j
      → slot (recover r result h).registry j ≡ slot r j
  recover-slot h r (ok a) j same = refl
  recover-slot h r (throw e) j same = same

  pub catching-Frames :
      {A : Type 0} (i : String) (m h : Action S A)
      → Frames i m
      → Frames i h
      → Frames i (catching m h)
  catching-Frames i m h first handled r j other =
      recover-slot h (m r).registry (m r).result j (handled (m r).registry j other)
      ∙ first r j other

  pub when-Frames :
      (i : String) (b : Bool) (m : Action S (Unit {0})) → Frames i m → Frames i (when_ b m)
  when-Frames i true m frames r j other = frames r j other
  when-Frames i false m frames r j other = refl

pub lookup-put_filled_ne {ℓ} :
    {A : Type ℓ} (d : Dict (List A)) (k j : String) (xs : List A)
    → (k == j) ≡ false
    → lookup (put_filled d k xs) j ≡ lookup d j
unfolding put_filled
lookup-put_filled_ne d k j [] other = lookup-remove_ne d k j other
lookup-put_filled_ne d k j (x ∷ xs) other = lookup-insert_ne d k j (x ∷ xs) other
