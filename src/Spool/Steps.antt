-- ===== src/Spool/Steps.antt =====
-- What keeps the spool in memory and its file in step, by the parts of the methods:
-- apps/bridge/src/e2e/local-spool.ts.
use mathlib.Core.Path.{subst}
use ariava.Prelude.{
  ◌≤◌, String, Bool, true, false, not, ◌≡◌, refl, sym, ap, ◌∙◌, inl, inr, Option, none, some, List,
  [], ◌∷◌, ◌++◌, length, string_eq, nat_eq, option_eq, any, all, keep_if, All, Result, ok, throw,
  arith, eq_iff, ok-injective, same_refl,
}
use ariava.Spool.{
  Bytes, Item, SpoolInput, SpoolError, recovery_required, authentication, other_error, Disk, stored,
  Used, Environment, Cipher, Settings, Spool,
}
use ariava.Spool.Method.{Method, Ran, continue, ◌>>=◌}
use ariava.Spool.Items.{
  valid_item, metadata, sealed, target, has_tag, is_other, add_all, readable, keep_readable, has_id,
  open_with_key,
}
use ariava.Spool.Operations.{adopt, take_key, load_verified_key, persist, assert_access}
use ariava.Spool.Reached.{IsAtomic, IsSound, IsWellFormed}
use ariava.Spool.Reloads.{if-cases, AllValid, OnDisk, InStep}
use ariava.Spool.Writes.{persist-cases}

pub all-append :
    {A : Type 0} (p : A → Bool) (xs : List A) (x : A)
    → all p xs ≡ true
    → p x ≡ true
    → all p (xs ++ (x ∷ [])) ≡ true
all-append p [] x valid h = rw h refl
all-append p (y ∷ ys) x valid h = ground (arith, all-append p ys x)

pub all-keep_if :
    {A : Type 0} (p q : A → Bool) (xs : List A) → all p xs ≡ true → all p (keep_if q xs) ≡ true
all-keep_if p q [] valid = refl
all-keep_if p q (x ∷ xs) valid = ground (arith, all-keep_if p q xs)

long_enough : (bytes : Bytes) → 16 ≤ length bytes → has_tag (ok bytes) ≡ true
long_enough bytes h = ground arith

module _ {Key : Type 0} (cipher : Cipher Key) (settings : Settings) (sound : IsSound cipher) where
  pub sealed-valid :
      (key : Key) (input : SpoolInput)
      → IsWellFormed input
      → valid_item cipher settings (sealed cipher settings key input) ≡ true
  unfolding valid_item sealed metadata
  sealed-valid key input well =
      rw
        (
          same_refl settings.host_id,
          well.has_kind,
          sound.decode_nonce input.nonce well.has_nonce,
          sound.decode_text _,
        )
        (long_enough _ (sound.holds_tag key input.nonce input.plaintext _))

  pub add_all-valid :
      (key : Key) (inputs : List SpoolInput) (items next : List Item)
      → All IsWellFormed inputs
      → AllValid cipher settings items
      → add_all cipher settings key inputs items ≡ ok next
      → AllValid cipher settings next
  unfolding add_all
  add_all-valid key [] items next well valid h =
      subst (AllValid cipher settings) (ok-injective h) valid
  add_all-valid key (input ∷ inputs) items next well valid h =
      if-cases
        (λ (result : Result SpoolError (List Item)).
          result ≡ ok next → AllValid cipher settings next)
        (any (has_id input.spool_item_id) items) _ _ (λ found e. cc)
        (λ fresh e.
          add_all-valid key inputs _ next well.1
            (all-append (valid_item cipher settings) items _ valid (sealed-valid key input well.0))
            e)
        h

  pub readable-valid :
      (key : Key) (items found : List Item)
      → AllValid cipher settings items
      → readable cipher settings key items ≡ ok found
      → AllValid cipher settings found
  unfolding readable
  readable-valid key [] found valid h = subst (AllValid cipher settings) (ok-injective h) refl
  readable-valid key (item ∷ items) found valid h =
      of_results (open_with_key cipher settings key item) (readable cipher settings key items) found
        (λ others e. readable-valid key items others (ground arith) e) h
    where
      of_results :
          (bytes : Result SpoolError Bytes) (rest : Result SpoolError (List Item))
          (found : List Item)
          → ((others : List Item) → rest ≡ ok others → AllValid cipher settings others)
          → keep_readable cipher settings item bytes rest ≡ ok found
          → AllValid cipher settings found
      of_results (ok bytes) (ok others) found valid_rest h =
          let others-valid = valid_rest others refl in
          subst (AllValid cipher settings) (ok-injective h) (ground arith)
      of_results (ok bytes) (throw error) found valid_rest h = cc
      of_results (throw authentication) rest found valid_rest h = valid_rest found h
      of_results (throw (recovery_required message)) rest found valid_rest h = cc
      of_results (throw (other_error message)) rest found valid_rest h = cc

module _ {E Key : Type 0} (environment : Environment E Key) (cipher : Cipher Key)
    (settings : Settings) where
  pub bind-Kept :
      {A B : Type 0} (m : Method E A) (k : A → Method E B) (s : Spool E)
      → InStep environment cipher settings (m s).spool
      → ((a : A) → (m s).result ≡ ok a → InStep environment cipher settings (k a (m s).spool).spool)
      → InStep environment cipher settings ((m >>= k) s).spool
  bind-Kept {A} m k s first next = of_result (m s).result next
    where
      of_result :
          (result : Result SpoolError A)
          → ((a : A) → result ≡ ok a → InStep environment cipher settings (k a (m s).spool).spool)
          → InStep environment cipher settings (continue (m s).spool result k).spool
      of_result (ok a) next = next a refl
      of_result (throw error) next = first

  pub moved :
      (s : Spool E) (e : E)
      → InStep environment cipher settings s
      → environment.read_file e ≡ environment.read_file s.environment
      → InStep environment cipher settings (record s { environment = e })
  moved s e in_step same = record {
    valid = in_step.valid;
    on_disk = subst (OnDisk cipher settings s.items s.key_id) (sym same) in_step.on_disk;
  }

  -- The key that is adopted is the one that is known, if one is.
  adopted :
      (items : List Item) (known : Option String) (id : String) (disk : Disk)
      → is_other known id ≡ false
      → OnDisk cipher settings items known disk
      → OnDisk cipher settings items (some id) disk
  adopted items known id disk same (inl nothing) = inl nothing
  adopted items none id disk same (inr (k, has, reads)) = cc
  adopted items (some k0) id disk same (inr (k, has, reads)) =
      inr (k, ap some (sym (ground (arith, eq_iff k0 id))) ∙ has, reads)

  module _ (atomic : IsAtomic environment) where
    key-cases :
        (P : Ran E Key → Type 0) (s : Spool E)
        → InStep environment cipher settings s
        → ((t : Spool E) (result : Result SpoolError Key)
            → t.items ≡ s.items
            → InStep environment cipher settings t
            → P (record { spool = t; result = result }))
        → P (load_verified_key environment cipher settings s)
    unfolding load_verified_key take_key assert_access adopt
    key-cases P s in_step goes = of_access (environment.check_access s.environment)
      where
        used : Used E Key
        used = environment.load_or_create s.environment settings.host_id (not s.has_persisted_items)

        loaded : InStep environment cipher settings (record s { environment = used.next })
        loaded = moved s used.next in_step (atomic.load_reads s.environment settings.host_id _)

        of_key :
            (result : Result SpoolError Key)
            → P (adopt environment cipher settings result (record s { environment = used.next }))
        of_key (throw error) = goes _ _ refl loaded
        of_key (ok key) =
            if-cases P (is_other s.key_id (cipher.key_id key)) _ _ (λ other. goes _ _ refl loaded)
              (λ same. goes _ _ refl (record {
                valid = in_step.valid;
                on_disk = adopted s.items s.key_id (cipher.key_id key) _ same loaded.on_disk;
              }))

        of_access :
            (access : Result SpoolError (Unit {0}))
            → P (
                continue s access λ done t.
                  take_key environment cipher settings
                    (environment.load_or_create t.environment settings.host_id
                      (not t.has_persisted_items))
                    t)
        of_access (throw error) = goes s _ refl in_step
        of_access (ok done) = of_key used.result

    pub key-bind :
        {A : Type 0} (k : Key → Method E A) (s : Spool E)
        → InStep environment cipher settings s
        → ((key : Key) (t : Spool E)
            → t.items ≡ s.items
            → InStep environment cipher settings t
            → InStep environment cipher settings (k key t).spool)
        → InStep environment cipher settings
            ((load_verified_key environment cipher settings >>= k) s).spool
    key-bind k s in_step next =
        key-cases
          (λ ran. InStep environment cipher settings (continue ran.spool ran.result k).spool) s
          in_step of_key
      where
        of_key :
            (t : Spool E) (result : Result SpoolError Key)
            → t.items ≡ s.items
            → InStep environment cipher settings t
            → InStep environment cipher settings (continue t result k).spool
        of_key t (ok key) same kept = next key t same kept
        of_key t (throw error) same kept = kept

    pub persist-Kept :
        {A : Type 0} (k : Unit {0} → Method E A) (items : List Item) (s : Spool E)
        → AllValid cipher settings items
        → InStep environment cipher settings s
        → ((t : Spool E) (key_id : String)
            → t.key_id ≡ some key_id
            → environment.read_file t.environment ≡ stored (target settings key_id items)
            → InStep environment cipher settings (k tt t).spool)
        → InStep environment cipher settings
            ((persist environment cipher settings items >>= k) s).spool
    persist-Kept k items s valid in_step next =
        persist-cases environment cipher settings atomic
          (λ ran. InStep environment cipher settings (continue ran.spool ran.result k).spool) items
          s valid in_step (λ e error same. moved s e in_step same)
          (λ e key_id has reads. next (record s { environment = e }) key_id has reads)
