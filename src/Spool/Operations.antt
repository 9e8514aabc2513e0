-- ===== src/Spool/Operations.antt =====
-- The methods of the spool: apps/bridge/src/e2e/local-spool.ts, LocalEncryptedSpool.
use ariava.Prelude.{
  ℕ, ◌-◌, String, Bool, true, false, not, ◌&&◌, ◌||◌, Option, none, some, List, [], ◌∷◌, ◌++◌,
  length, if◌then◌else◌, ◌==◌, ◌!=◌, string_eq, nat_eq, option_eq, pair_eq, find, any, keep_if,
  Result, ok, throw,
}
use ariava.Spool.{
  Bytes, Item, SpoolInput, SpoolError, recovery_required, other_error, Used, Environment, Cipher,
  Settings, Spool,
}
use ariava.Spool.Method.{Method, pure, raise, fail, ◌>>=◌, ◌>>◌, modify, reading}
use ariava.Spool.Items.{
  same_item, has_id, conflict_error, wrapped, is_known, is_empty, is_of_kind, is_other, target,
  is_installed, valid_item, sealed, of_disk, open_with_key, add_all, readable,
}

module _ {E Key : Type 0} (environment : Environment E Key) (cipher : Cipher Key)
    (settings : Settings) where
  abbrev pub if_allowed :
      {A : Type 0} → Result SpoolError (Unit {0}) → Result SpoolError A → Result SpoolError A
  if_allowed (ok done) result = result
  if_allowed (throw error) result = throw error

  unfoldable pub load : E → Result SpoolError (List Item × Option String)
  load e =
      if_allowed (environment.check_access e) (of_disk cipher settings (environment.read_file e))

  abbrev pub spool_of :
      E → Result SpoolError (List Item × Option String) → Result SpoolError (Spool E)
  spool_of e (throw error) = throw error
  spool_of e (ok (items, key_id)) = ok (record {
    items = items;
    key_id = key_id;
    has_persisted_items = is_known key_id;
    environment = e;
  })

  -- The constructor.
  unfoldable pub construct : E → Result SpoolError (Spool E)
  construct e = spool_of e (load e)

  unfoldable pub assert_access : Method E (Unit {0})
  assert_access s = raise (environment.check_access s.environment) s

  unfoldable pub adopt : Result SpoolError Key → Method E Key
  adopt (throw error) s = fail (wrapped error) s
  adopt (ok key) s =
      if is_other s.key_id (cipher.key_id key)
      then fail (recovery_required "local spool key does not match; recovery is required") s
      else pure key (record s { key_id = some (cipher.key_id key) })

  unfoldable pub take_key : Used E Key → Method E Key
  take_key used s = adopt used.result (record s { environment = used.next })

  unfoldable pub load_verified_key : Method E Key
  load_verified_key = do
    assert_access
    reading
        (λ s. environment.load_or_create s.environment settings.host_id (not s.has_persisted_items))
        take_key

  unfoldable pub settle : String → List Item → Result SpoolError (Unit {0}) → Method E (Unit {0})
  settle key_id items (ok done) s = pure tt s
  settle key_id items (throw error) s =
      if is_installed key_id items (load s.environment) then pure tt s else fail error s

  unfoldable pub persist_under : List Item → Option String → Method E (Unit {0})
  persist_under items none s =
      fail (recovery_required "local spool key identity is unavailable; recovery is required") s
  persist_under items (some key_id) s =
      let used = environment.write_file s.environment (target settings key_id items) in
      settle key_id items used.result (record s { environment = used.next })

  unfoldable pub persist : List Item → Method E (Unit {0})
  persist items = do assert_access; reading (λ s. s.key_id) (persist_under items)

  unfoldable pub append_item : Item → Method E Item
  append_item item = do
    reading (λ s. s.items ++ (item ∷ [])) persist
    modify (λ s. record s { items = s.items ++ (item ∷ []); has_persisted_items = true })
    pure item

  unfoldable pub enqueue_over : SpoolInput → Option Item → Method E Item
  enqueue_over input none = do
    key ← load_verified_key
    append_item (sealed cipher settings key input)
  enqueue_over input (some existing) =
      if existing.session_id != input.session_id
        || existing.event_id != input.event_id
        || existing.payload_kind != input.payload_kind
      then fail conflict_error
      else pure existing

  unfoldable pub enqueue : SpoolInput → Method E Item
  enqueue input = do
    assert_access
    reading (λ s. find (has_id input.spool_item_id) s.items) (enqueue_over input)

  unfoldable pub list_items : Option String → Method E (List Item)
  list_items kind = do assert_access; reading (λ s. keep_if (is_of_kind kind) s.items) pure

  unfoldable pub get : String → Method E (Option Item)
  get spool_item_id = do assert_access; reading (λ s. find (has_id spool_item_id) s.items) pure

  abbrev is_stored : Option Item → Item → Bool
  is_stored none item = false
  is_stored (some found) item = same_item found item

  unfoldable pub open_stored : Item → Bool → Method E Bytes
  open_stored item true = do key ← load_verified_key; raise (open_with_key cipher settings key item)
  open_stored item false = fail (other_error "local spool item is invalid")

  unfoldable pub open_item : Item → Method E Bytes
  open_item item = do
    assert_access
    reading
        (λ s.
          is_stored (find (has_id item.spool_item_id) s.items) item
          && valid_item cipher settings item)
        (open_stored item)

  -- `if (next.length > 0) this.hasPersistedItems = true`
  unfoldable pub put_items : List Item → Spool E → Spool E
  put_items items s = record s {
    items = items;
    has_persisted_items = s.has_persisted_items || not (is_empty items);
  }

  unfoldable pub replace : List String → List SpoolInput → Method E (Unit {0})
  replace remove_ids additions = do
    assert_access
    reading (λ s. keep_if (λ item. not (any (λ i. i == item.spool_item_id) remove_ids)) s.items)
        λ kept. do
          key ← load_verified_key
          next ← raise (add_all cipher settings key additions kept)
          persist next
          modify (put_items next)

  unfoldable pub drop_unreadable : List Item → ℕ → Method E ℕ
  drop_unreadable items dropped s =
      if dropped == 0
      then pure 0 s
      else (persist items >>= λ done. modify (λ s. record s { items = items }) >> pure dropped) s

  unfoldable pub recover_unreadable : Method E ℕ
  recover_unreadable = do
    assert_access
    key ← load_verified_key
    found ← reading (λ s. readable cipher settings key s.items) raise
    reading (λ s. length s.items - length found) (drop_unreadable found)
