-- ===== src/Spool/Reloads.antt =====
-- The spool in memory and its file: apps/bridge/src/e2e/local-spool.ts.
use ariava.Prelude.{
  String, Bool, true, false, ◌≡◌, refl, ap, ◌⊎◌, Option, none, some, List, [], ◌∷◌, if◌then◌else◌,
  string_eq, nat_eq, option_eq, pair_eq, same_refl, same_of, all, ok, arith,
}
use ariava.Spool.{Item, Disk, absent, stored, Environment, Cipher, Settings, Spool}
use ariava.Spool.Items.{
  Spelled, spelled, same_item, same_items, valid_item, is_current, of_disk, target,
}
use ariava.Spool.Operations.{load}

pub if-cases :
    {A : Type 0} (P : A → Type 0) (b : Bool) (x y : A)
    → (b ≡ true → P x)
    → (b ≡ false → P y)
    → P (if b then x else y)
if-cases P true x y taken passed = taken refl
if-cases P false x y taken passed = passed refl

unspelled : Spelled → Item
unspelled
      (
        (version, (spool_item_id, (host_id, (session_id, event_id)))),
        (payload_kind, (nonce, (ciphertext, (aad_version, created_at)))),
      ) =
    record {
      version = version;
      spool_item_id = spool_item_id;
      host_id = host_id;
      session_id = session_id;
      event_id = event_id;
      payload_kind = payload_kind;
      nonce = nonce;
      ciphertext = ciphertext;
      aad_version = aad_version;
      created_at = created_at;
    }

pub same_item_eq : (x y : Item) → same_item x y ≡ true → x ≡ y
unfolding unspelled
same_item_eq x y h = ap unspelled (same_of (spelled x) (spelled y) h)

pub same_item_refl : (x : Item) → same_item x x ≡ true
same_item_refl x = same_refl (spelled x)

pub same_items_refl : (xs : List Item) → same_items xs xs ≡ true
same_items_refl [] = refl
same_items_refl (x ∷ xs) = rw (same_refl (spelled x), same_items_refl xs) refl

pub same_items_eq : (xs ys : List Item) → same_items xs ys ≡ true → xs ≡ ys
same_items_eq [] [] h = refl
same_items_eq (x ∷ xs) (y ∷ ys) h = ground (arith, same_item_eq x y, same_items_eq xs ys)
same_items_eq [] (y ∷ ys) h = cc
same_items_eq (x ∷ xs) [] h = cc

module _ {Key : Type 0} (cipher : Cipher Key) (settings : Settings) where
  abbrev pub AllValid : List Item → Type 0
  AllValid items = all (valid_item cipher settings) items ≡ true

  -- The file has the items that are in memory under the known key; where there is no file, there are
  -- no items.
  abbrev pub OnDisk : List Item → Option String → Disk → Type 0
  OnDisk items known disk =
      ((disk ≡ absent) × (items ≡ []))
      ⊎ ((key_id : String) × (known ≡ some key_id) × (disk ≡ stored (target settings key_id items)))

  pub is_current-target :
      (key_id : String) (items : List Item)
      → AllValid items
      → is_current cipher settings (target settings key_id items) ≡ true
  unfolding is_current target
  is_current-target key_id items valid =
      rw
        (
          same_refl settings.runtime_state_schema_version,
          same_refl settings.runtime_reset_epoch,
          same_refl settings.host_id,
          valid,
        )
        refl

module _ {E Key : Type 0} (environment : Environment E Key) (cipher : Cipher Key)
    (settings : Settings) where
  pub record InStep (s : Spool E) : Type 0 where
    pub valid : AllValid cipher settings s.items
    pub on_disk : OnDisk cipher settings s.items s.key_id (environment.read_file s.environment)

  pub load-target :
      (e : E) (key_id : String) (items : List Item)
      → environment.check_access e ≡ ok tt
      → environment.read_file e ≡ stored (target settings key_id items)
      → AllValid cipher settings items
      → load environment cipher settings e ≡ ok (items, some key_id)
  unfolding load of_disk target
  load-target e key_id items allowed reads valid =
      rw (allowed, reads, is_current-target cipher settings key_id items valid) refl

  pub load-absent :
      (e : E)
      → environment.check_access e ≡ ok tt
      → environment.read_file e ≡ absent
      → load environment cipher settings e ≡ ok ([], none)
  unfolding load of_disk
  load-absent e allowed reads = rw (allowed, reads) refl
