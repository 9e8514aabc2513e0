-- ===== src/Adapter/Registry/Action.antt =====
-- A method of the registry: it changes the registry and returns or throws.
use ariava.Prelude.{String, [], ◌∷◌, ◌++◌, Result, ok, throw, Bool, true, false}
use ariava.Adapter.Registry.{Registry, Wrote, Effect}

pub record Ran (S A : Type 0) : Type 0 where
  pub registry : Registry S
  pub result : Result String A

abbrev pub Action : Type 0 → Type 0 → Type 0
Action S A = Registry S → Ran S A

module _ {S : Type 0} where
  abbrev pub pure : {A : Type 0} → A → Action S A
  pure a r = record { registry = r; result = ok a }

  abbrev pub fail : {A : Type 0} → String → Action S A
  fail error r = record { registry = r; result = throw error }

  -- Code outside the registry that returned or threw.
  abbrev pub raise : {A : Type 0} → Result String A → Action S A
  raise result r = record { registry = r; result = result }

  -- The rest of a method, once its first part has returned or thrown.
  abbrev pub continue : {A B : Type 0} → Registry S → Result String A → (A → Action S B) → Ran S B
  continue r (ok a) next = next a r
  continue r (throw error) next = record { registry = r; result = throw error }

  infixl 5 ◌>>=◌ ◌>>◌
  abbrev pub ◌>>=◌ : {A B : Type 0} → Action S A → (A → Action S B) → Action S B
  ◌>>=◌ first next r = continue (first r).registry (first r).result next

  abbrev pub ◌>>◌ : {B : Type 0} → Action S (Unit {0}) → Action S B → Action S B
  first >> next = first >>= λ done. next

  abbrev pub modify : (Registry S → Registry S) → Action S (Unit {0})
  modify change r = record { registry = change r; result = ok tt }

  -- A method that goes on by what the registry is.
  abbrev pub reading : {A B : Type 0} → (Registry S → A) → (A → Action S B) → Action S B
  reading look next r = next (look r) r

  abbrev pub emit : Effect → Action S (Unit {0})
  emit e = modify (λ r. record r { effects = r.effects ++ (e ∷ []) })

  -- A write of the state store, which may throw after it has changed it.
  abbrev pub write : (S → Wrote S) → Action S (Unit {0})
  write operation r = record {
    registry = record r { store = (operation r.store).next };
    result = (operation r.store).result;
  }

  abbrev pub when_ : Bool → Action S (Unit {0}) → Action S (Unit {0})
  when_ true action = action
  when_ false action = pure tt

  abbrev pub rethrow : {A : Type 0} → Registry S → Result String A → Action S (Unit {0}) → Ran S A
  rethrow r (ok a) handler = record { registry = r; result = ok a }
  rethrow r (throw error) handler = record { registry = (handler r).registry; result = throw error }

  -- `try { action } catch (error) { handler; throw error }`, for a handler that does not throw.
  abbrev pub on_throw : {A : Type 0} → Action S A → Action S (Unit {0}) → Action S A
  on_throw action handler r = rethrow (action r).registry (action r).result handler

  abbrev pub recover : {A : Type 0} → Registry S → Result String A → Action S A → Ran S A
  recover r (ok a) handler = record { registry = r; result = ok a }
  recover r (throw error) handler = handler r

  -- `try { action } catch { handler }`
  abbrev pub catching : {A : Type 0} → Action S A → Action S A → Action S A
  catching action handler r = recover (action r).registry (action r).result handler
