-- ===== src/Spool/Opens.antt =====
-- What is put into the spool is read from it again: apps/bridge/src/e2e/local-spool.ts.
use mathlib.Core.Path.{subst}
use ariava.Prelude.{
  String, Bool, true, false, not, ◌≡◌, refl, sym, ◌∙◌, none, some, List, [], ◌∷◌, ◌++◌, string_eq,
  find, Result, ok, throw, arith, eq_iff, same_refl, ok-injective,
}
use ariava.Spool.{Bytes, Item, SpoolInput, SpoolError, Environment, Cipher, Settings, Spool}
use ariava.Spool.Method.{Method, Ran, continue}
use ariava.Spool.Items.{
  valid_item, metadata, sealed, spool_aad, open_with_key, has_id, is_other, is_installed, target,
}
use ariava.Spool.Operations.{
  load, adopt, take_key, load_verified_key, settle, persist_under, persist, append_item,
  enqueue_over, enqueue, open_stored, open_item, assert_access,
}
use ariava.Spool.Reached.{IsAtomic, KeepsKeys, IsSound, IsWellFormed}
use ariava.Spool.Reloads.{if-cases, same_item_refl}
use ariava.Spool.Steps.{sealed-valid}

find-append :
    (id : String) (xs : List Item) (x : Item)
    → find (has_id id) xs ≡ none
    → x.spool_item_id ≡ id
    → find (has_id id) (xs ++ (x ∷ [])) ≡ some x
find-append id [] x h same = ground (arith, eq_iff x.spool_item_id id)
find-append id (y ∷ ys) x h same =
    if_found (has_id id y) h (λ later. find-append id ys x later same)
  where
    if_found :
        (b : Bool)
        → elim b [ true ↦ some y | false ↦ find (has_id id) ys ] ≡ none
        → (find (has_id id) ys ≡ none → find (has_id id) (ys ++ (x ∷ [])) ≡ some x)
        → elim b [ true ↦ some y | false ↦ find (has_id id) (ys ++ (x ∷ [])) ] ≡ some x
    if_found true h later = cc
    if_found false h later = later h

module _ {E Key : Type 0} (environment : Environment E Key) (cipher : Cipher Key)
    (settings : Settings) where
  -- An item that is stored opens with the known key.
  open-stored :
      (s : Spool E) (item : Item) (key : Key) (bytes : Bytes)
      → environment.check_access s.environment ≡ ok tt
      → find (has_id item.spool_item_id) s.items ≡ some item
      → valid_item cipher settings item ≡ true
      → (environment.load_or_create s.environment settings.host_id
          (not s.has_persisted_items)).result
        ≡ ok key
      → s.key_id ≡ some (cipher.key_id key)
      → open_with_key cipher settings key item ≡ ok bytes
      → (open_item environment cipher settings item s).result ≡ ok bytes
  unfolding open_item assert_access open_stored load_verified_key take_key adopt
  open-stored s item key bytes allowed has valid loads known opens =
      rw
        (
          allowed,
          has,
          same_item_refl item,
          valid,
          allowed,
          loads,
          known,
          same_refl (cipher.key_id key),
          opens,
        )
        refl

  sealed-id :
      (key : Key) (input : SpoolInput)
      → (sealed cipher settings key input).spool_item_id ≡ input.spool_item_id
  unfolding sealed metadata
  sealed-id key input = refl

  module _ (sound : IsSound cipher) where
    open-sealed :
        (key : Key) (input : SpoolInput)
        → IsWellFormed input
        → open_with_key cipher settings key (sealed cipher settings key input) ≡ ok input.plaintext
    unfolding open_with_key sealed metadata spool_aad
    open-sealed key input well =
        rw (sound.decode_nonce input.nonce well.has_nonce, sound.decode_text _)
          (sound.open_seal key input.nonce input.plaintext _)

  module _ (atomic : IsAtomic environment) (keeps : KeepsKeys environment) (sound : IsSound cipher)
      (input : SpoolInput) (well : IsWellFormed input) (item : Item) where
    -- What a run leaves: where it returned the item, the item opens.
    abbrev Reads : Ran E Item → Type 0
    Reads ran =
        ran.result ≡ ok item
        → (open_item environment cipher settings item ran.spool).result ≡ ok input.plaintext

    module _ (s : Spool E) (allowed : environment.check_access s.environment ≡ ok tt)
        (fresh : find (has_id input.spool_item_id) s.items ≡ none) (key : Key)
        (loads : (environment.load_or_create s.environment settings.host_id
            (not s.has_persisted_items)).result
          ≡ ok key) where
      loaded : E
      loaded =
          (environment.load_or_create s.environment settings.host_id
            (not s.has_persisted_items)).next

      new_items : List Item
      new_items = s.items ++ (sealed cipher settings key input ∷ [])

      written : E
      written = (environment.write_file loaded (target settings (cipher.key_id key) new_items)).next

      loaded-allowed : environment.check_access loaded ≡ ok tt
      unfolding loaded
      loaded-allowed = keeps.load_access s.environment settings.host_id _ ∙ allowed

      done-Reads : Reads (record {
        spool = record s {
          items = new_items;
          key_id = some (cipher.key_id key);
          has_persisted_items = true;
          environment = written;
        };
        result = ok (sealed cipher settings key input);
      })
      unfolding new_items written loaded sealed
      done-Reads returned =
          subst
            (λ opened.
              (open_item environment cipher settings opened after).result ≡ ok input.plaintext)
            (ok-injective returned)
            (open-stored after (sealed cipher settings key input) key input.plaintext
              (atomic.write_access loaded _ ∙ loaded-allowed)
              (find-append input.spool_item_id s.items (sealed cipher settings key input) fresh
                (sealed-id key input))
              (sealed-valid cipher settings sound key input well)
              (keeps.load_again s.environment settings.host_id (not s.has_persisted_items) false _
                key loads)
              refl (open-sealed sound key input well))
        where
          after : Spool E
          after = record s {
            items = new_items;
            key_id = some (cipher.key_id key);
            has_persisted_items = true;
            environment = written;
          }

      append-Reads : Reads (
          append_item environment cipher settings
            (sealed cipher settings key input)
            (record s { environment = loaded; key_id = some (cipher.key_id key) }))
      unfolding append_item persist assert_access persist_under settle written new_items
      append-Reads = rw loaded-allowed (
          settled
            (environment.write_file loaded (target settings (cipher.key_id key) new_items)).result)
        where
          stays : Spool E
          stays = record s { environment = written; key_id = some (cipher.key_id key) }

          settled :
              (result : Result SpoolError (Unit {0}))
              → Reads (
                  continue
                    (settle environment cipher settings
                      (cipher.key_id key)
                      new_items
                      result
                      stays).spool
                    (settle environment cipher settings
                      (cipher.key_id key)
                      new_items
                      result
                      stays).result
                    (λ done t. record {
                      spool = record t {
                        items = t.items ++ (sealed cipher settings key input ∷ []);
                        has_persisted_items = true;
                      };
                      result = ok (sealed cipher settings key input);
                    }))
          settled (ok done) = done-Reads
          settled (throw error) =
              if-cases
                (λ (ran : Ran E (Unit {0})). Reads (
                  continue ran.spool ran.result (λ done t. record {
                    spool = record t {
                      items = t.items ++ (sealed cipher settings key input ∷ []);
                      has_persisted_items = true;
                    };
                    result = ok (sealed cipher settings key input);
                  })))
                (is_installed (cipher.key_id key) new_items
                  (load environment cipher settings written))
                _ _ (λ found. done-Reads) (λ lost h. cc)

      adopted-Reads : Reads (
          continue {B = Item}
            (adopt environment cipher settings (ok key) (record s { environment = loaded })).spool
            (adopt environment cipher settings (ok key) (record s { environment = loaded })).result
            (λ k. append_item environment cipher settings (sealed cipher settings k input)))
      unfolding adopt
      adopted-Reads =
          if-cases
            (λ (ran : Ran E Key). Reads (
              continue ran.spool ran.result
                (λ k. append_item environment cipher settings (sealed cipher settings k input))))
            (is_other s.key_id (cipher.key_id key)) _ _ (λ other h. cc) (λ same. append-Reads)

    fresh-Reads :
        (s : Spool E)
        → environment.check_access s.environment ≡ ok tt
        → find (has_id input.spool_item_id) s.items ≡ none
        → Reads (enqueue_over environment cipher settings input none s)
    unfolding enqueue_over load_verified_key assert_access take_key loaded adopt
    fresh-Reads s allowed fresh = rw allowed (of_key _ refl)
      where
        next : E
        next =
            (environment.load_or_create s.environment settings.host_id
              (not s.has_persisted_items)).next

        of_key :
            (result : Result SpoolError Key)
            → (environment.load_or_create s.environment settings.host_id
                (not s.has_persisted_items)).result
              ≡ result
            → Reads (
                continue {B = Item}
                  (adopt environment cipher settings result (record s { environment = next })).spool
                  (adopt environment cipher settings result
                    (record s { environment = next })).result
                  (λ k. append_item environment cipher settings (sealed cipher settings k input)))
        of_key (ok key) loads h = adopted-Reads s allowed fresh key loads h
        of_key (throw error) loads h = cc

    -- What is enqueued under an id that is not in the spool yet, when enqueue returns, is read by open
    -- as it was given, also when the write threw after it had installed the file. The payload has a
    -- kind that there is and a nonce of twelve bytes; decoding and opening undo encoding and sealing;
    -- the key store keeps its keys, files are written atomically, and access is not lost by either.
    pub enqueue_opens :
        (s : Spool E)
        → find (has_id input.spool_item_id) s.items ≡ none
        → let ran = enqueue environment cipher settings input s in
          ran.result ≡ ok item
          → (open_item environment cipher settings item ran.spool).result ≡ ok input.plaintext
    unfolding enqueue assert_access
    enqueue_opens s fresh = of_access (environment.check_access s.environment) refl
      where
        found : Method E Item
        found s =
            enqueue_over environment cipher settings input
              (find (has_id input.spool_item_id) s.items) s

        of_access :
            (access : Result SpoolError (Unit {0}))
            → environment.check_access s.environment ≡ access
            → Reads (continue s access (λ done. found))
        of_access (throw error) allowed h = cc
        of_access (ok done) allowed h =
            subst (λ existing. Reads (enqueue_over environment cipher settings input existing s))
              (sym fresh) (fresh-Reads s allowed fresh) h
