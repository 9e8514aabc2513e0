-- ===== src/Spool/Writes.antt =====
-- Writing the spool's file, whatever it throws: apps/bridge/src/e2e/local-spool.ts, persist.
use mathlib.Core.Path.{subst}
use ariava.Prelude.{
  String, true, false, ◌≡◌, refl, ap, ◌∙◌, ◌⊎◌, inl, inr, Option, none, some, List, [], string_eq,
  option_eq, same_refl, Result, ok, throw, arith, eq_iff,
}
use ariava.Spool.{Item, SpoolError, stored, Environment, Cipher, Settings, Spool}
use ariava.Spool.Method.{Ran, continue}
use ariava.Spool.Items.{target, is_installed, is_returned}
use ariava.Spool.Operations.{load, settle, persist_under, persist, assert_access}
use ariava.Spool.Reached.{IsAtomic}
use ariava.Spool.Reloads.{
  if-cases, same_items_refl, same_items_eq, AllValid, OnDisk, InStep, load-target, load-absent,
}

module _ {E Key : Type 0} (environment : Environment E Key) (cipher : Cipher Key)
    (settings : Settings) (atomic : IsAtomic environment) where
  installed-target :
      (key_id : String) (items : List Item)
      → is_installed key_id items (ok (items, some key_id)) ≡ true
  unfolding is_installed
  installed-target key_id items = rw (same_refl key_id, same_items_refl items) refl

  installed-eq :
      (key_id known : String) (items found : List Item)
      → is_installed key_id items (ok (found, some known)) ≡ true
      → (known ≡ key_id) × (found ≡ items)
  unfolding is_installed
  installed-eq key_id known items found h =
      ground (arith, eq_iff known key_id, same_items_eq found items)

  not_installed :
      (key_id : String) (items found : List Item)
      → is_installed key_id items (ok (found, none)) ≡ true
      → ⊥
  unfolding is_installed
  not_installed key_id items found h = cc

  -- What the file is, once a write that threw is found to have installed it or not.
  module _ (key_id : String) (items : List Item) (valid : AllValid cipher settings items)
      (s : Spool E) (in_step : InStep environment cipher settings s)
      (allowed : environment.check_access s.environment ≡ ok tt) where
    after : E
    after = (environment.write_file s.environment (target settings key_id items)).next

    after-allowed : environment.check_access after ≡ ok tt
    unfolding after
    after-allowed = atomic.write_access s.environment (target settings key_id items) ∙ allowed

    found-reads :
        is_installed key_id items (load environment cipher settings after) ≡ true
        → environment.read_file after ≡ environment.read_file s.environment
        → OnDisk cipher settings s.items s.key_id (environment.read_file s.environment)
        → environment.read_file after ≡ stored (target settings key_id items)
    found-reads found same (inl (reads, empty)) =
        elim (not_installed key_id items [] (
          subst (λ loaded. is_installed key_id items loaded ≡ true)
            (load-absent environment cipher settings after after-allowed (same ∙ reads)) found)) [ ]
    found-reads found same (inr (known, has, reads)) =
        let e = installed-eq key_id known items s.items (
          subst (λ loaded. is_installed key_id items loaded ≡ true)
            (load-target environment cipher settings after known s.items after-allowed
              (same ∙ reads) in_step.valid)
            found) in
        same
        ∙ reads
        ∙ ap (λ k. stored (target settings k s.items)) e.0
        ∙ ap (λ xs. stored (target settings key_id xs)) e.1

    lost-reads :
        is_installed key_id items (load environment cipher settings after) ≡ false
        → environment.read_file after ≡ stored (target settings key_id items)
        → ⊥
    lost-reads lost reads =
        let e =
          subst (λ loaded. is_installed key_id items loaded ≡ false)
            (load-target environment cipher settings after key_id items after-allowed reads valid)
            lost in
        let e' = installed-target key_id items in cc

    -- A write throws and leaves the file as it was, or it returns and the file is the new one.
    settle-cases :
        (P : Ran E (Unit {0}) → Type 0)
        → ((error : SpoolError)
            → environment.read_file after ≡ environment.read_file s.environment
            → P (record { spool = record s { environment = after }; result = throw error }))
        → (environment.read_file after ≡ stored (target settings key_id items)
            → P (record { spool = record s { environment = after }; result = ok tt }))
        → P (
            settle environment cipher settings key_id items
              (environment.write_file s.environment (target settings key_id items)).result
              (record s { environment = after }))
    unfolding settle after
    settle-cases P thrown returned =
        of_result (environment.write_file s.environment (target settings key_id items)).result
          (atomic.write_reads s.environment (target settings key_id items))
      where
        of_found :
            (result : Result SpoolError (Unit {0}))
            → is_installed key_id items (load environment cipher settings after) ≡ true
            → ((environment.read_file after ≡ stored (target settings key_id items))
                ⊎ ((environment.read_file after ≡ environment.read_file s.environment)
                    × (is_returned result ≡ false)))
            → environment.read_file after ≡ stored (target settings key_id items)
        of_found result found (inl reads) = reads
        of_found result found (inr (same, threw)) = found-reads found same in_step.on_disk

        of_lost :
            (result : Result SpoolError (Unit {0}))
            → is_installed key_id items (load environment cipher settings after) ≡ false
            → ((environment.read_file after ≡ stored (target settings key_id items))
                ⊎ ((environment.read_file after ≡ environment.read_file s.environment)
                    × (is_returned result ≡ false)))
            → environment.read_file after ≡ environment.read_file s.environment
        of_lost result lost (inl reads) = elim (lost-reads lost reads) [ ]
        of_lost result lost (inr (same, threw)) = same

        of_result :
            (result : Result SpoolError (Unit {0}))
            → ((environment.read_file after ≡ stored (target settings key_id items))
                ⊎ ((environment.read_file after ≡ environment.read_file s.environment)
                    × (is_returned result ≡ false)))
            → P (
                settle environment cipher settings key_id items result
                  (record s { environment = after }))
        of_result (ok done) (inl reads) = returned reads
        of_result (ok done) (inr (same, threw)) = cc
        of_result (throw error) outcome =
            if-cases P (is_installed key_id items (load environment cipher settings after)) _ _
              (λ found. returned (of_found (throw error) found outcome))
              (λ lost. thrown error (of_lost (throw error) lost outcome))

    -- The whole write, by the access check and the key that is known.
    persisted-cases :
        (P : Ran E (Unit {0}) → Type 0)
        → ((error : SpoolError)
            → environment.read_file after ≡ environment.read_file s.environment
            → P (record { spool = record s { environment = after }; result = throw error }))
        → (environment.read_file after ≡ stored (target settings key_id items)
            → P (record { spool = record s { environment = after }; result = ok tt }))
        → P (persist_under environment cipher settings items (some key_id) s)
    unfolding persist_under after
    persisted-cases = settle-cases

  -- A write throws and leaves the spool and its file as they were, or it returns and the file has the
  -- new items; nothing else of the spool changes.
  pub persist-cases :
      (P : Ran E (Unit {0}) → Type 0) (items : List Item) (s : Spool E)
      → AllValid cipher settings items
      → InStep environment cipher settings s
      → ((e : E) (error : SpoolError)
          → environment.read_file e ≡ environment.read_file s.environment
          → P (record { spool = record s { environment = e }; result = throw error }))
      → ((e : E) (key_id : String)
          → s.key_id ≡ some key_id
          → environment.read_file e ≡ stored (target settings key_id items)
          → P (record { spool = record s { environment = e }; result = ok tt }))
      → P (persist environment cipher settings items s)
  unfolding persist assert_access persist_under
  persist-cases P items s valid in_step thrown returned =
      of_access (environment.check_access s.environment) refl
    where
      of_key :
          (key_id : Option String)
          → s.key_id ≡ key_id
          → environment.check_access s.environment ≡ ok tt
          → P (persist_under environment cipher settings items key_id s)
      of_key none has allowed = thrown s.environment _ refl
      of_key (some key_id) has allowed =
          persisted-cases key_id items valid s in_step allowed P
            (λ error same. thrown (after key_id items valid s in_step allowed) error same)
            (λ reads. returned (after key_id items valid s in_step allowed) key_id has reads)

      of_access :
          (access : Result SpoolError (Unit {0}))
          → environment.check_access s.environment ≡ access
          → P (
              continue s access
                λ done t. persist_under environment cipher settings items t.key_id t)
      of_access (throw error) e = thrown s.environment error refl
      of_access (ok done) e = of_key s.key_id refl e
