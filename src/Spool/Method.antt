-- ===== src/Spool/Method.antt =====
-- A method of the spool: it changes the spool, its environment with it, and returns or throws.
use ariava.Prelude.{Result, ok, throw}
use ariava.Spool.{Spool, SpoolError}

pub record Ran (E A : Type 0) : Type 0 where
  pub spool : Spool E
  pub result : Result SpoolError A

abbrev pub Method : Type 0 → Type 0 → Type 0
Method E A = Spool E → Ran E A

module _ {E : Type 0} where
  abbrev pub pure : {A : Type 0} → A → Method E A
  pure a s = record { spool = s; result = ok a }

  abbrev pub raise : {A : Type 0} → Result SpoolError A → Method E A
  raise result s = record { spool = s; result = result }

  abbrev pub fail : {A : Type 0} → SpoolError → Method E A
  fail error s = record { spool = s; result = throw error }

  -- The rest of a method, once its first part has returned or thrown.
  abbrev pub continue : {A B : Type 0} → Spool E → Result SpoolError A → (A → Method E B) → Ran E B
  continue s (ok a) next = next a s
  continue s (throw error) next = record { spool = s; result = throw error }

  infixl 5 ◌>>=◌ ◌>>◌
  abbrev pub ◌>>=◌ : {A B : Type 0} → Method E A → (A → Method E B) → Method E B
  ◌>>=◌ first next s = continue (first s).spool (first s).result next

  abbrev pub ◌>>◌ : {B : Type 0} → Method E (Unit {0}) → Method E B → Method E B
  first >> next = first >>= λ done. next

  abbrev pub modify : (Spool E → Spool E) → Method E (Unit {0})
  modify change s = record { spool = change s; result = ok tt }

  -- A method that goes on by what the spool is.
  abbrev pub reading : {A B : Type 0} → (Spool E → A) → (A → Method E B) → Method E B
  reading look next s = next (look s) s
