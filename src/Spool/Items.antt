-- ===== src/Spool/Items.antt =====
-- The items of the spool and its file: apps/bridge/src/e2e/local-spool.ts.
use ariava.Prelude.{
  ℕ, String, Bool, true, false, ◌&&◌, Option, none, some, List, [], ◌∷◌, ◌++◌, leb, length,
  if◌then◌else◌, ◌==◌, ◌!=◌, string_eq, nat_eq, option_eq, pair_eq, any, all, Result, ok, throw,
}
use ariava.Spool.{
  Bytes, payload_kinds, Item, SpoolFile, SpoolInput, SpoolError, recovery_required, authentication,
  other_error, Disk, absent, malformed, unreadable, stored, Cipher, Settings,
}

-- What the JSON of an item spells.
abbrev pub Spelled : Type 0
Spelled =
    (ℕ × (String × (String × (String × Option String))))
    × (String × (String × (String × (ℕ × String))))

abbrev pub spelled : Item → Spelled
spelled item = (
  (item.version, (item.spool_item_id, (item.host_id, (item.session_id, item.event_id)))),
  (item.payload_kind, (item.nonce, (item.ciphertext, (item.aad_version, item.created_at)))),
)

-- `JSON.stringify(left) === JSON.stringify(right)`, of items and of lists of them.
abbrev pub same_item : Item → Item → Bool
same_item left right = spelled left == spelled right

abbrev pub same_items : List Item → List Item → Bool
same_items [] [] = true
same_items (x ∷ xs) (y ∷ ys) = same_item x y && same_items xs ys
same_items [] (y ∷ ys) = false
same_items (x ∷ xs) [] = false

abbrev pub has_id : String → Item → Bool
has_id spool_item_id item = item.spool_item_id == spool_item_id

-- An optional text that is absent or empty is left out.
abbrev pub kept_text : Option String → Option String
kept_text none = none
kept_text (some text) = if text == "" then none else some text

abbrev pub is_returned : {A : Type 0} → Result SpoolError A → Bool
is_returned (ok a) = true
is_returned (throw error) = false

abbrev pub has_tag : Result SpoolError Bytes → Bool
has_tag (ok bytes) = leb 16 (length bytes)
has_tag (throw error) = false

abbrev pub is_recognized : String → Bool
is_recognized kind = any (λ k. k == kind) payload_kinds

abbrev pub metadata_error : SpoolError
metadata_error = recovery_required "local spool metadata is invalid; recovery is required"

abbrev pub conflict_error : SpoolError
conflict_error = other_error "local spool item ID conflict"

-- An error of the key store that is no demand for recovery becomes one.
abbrev pub wrapped : SpoolError → SpoolError
wrapped (recovery_required message) = recovery_required message
wrapped authentication = recovery_required "local spool key is unavailable; recovery is required"
wrapped (other_error message) =
    recovery_required "local spool key is unavailable; recovery is required"

abbrev pub text_of : Option String → String
text_of none = ""
text_of (some text) = text

abbrev pub is_known : Option String → Bool
is_known none = false
is_known (some text) = true

abbrev pub is_empty : List Item → Bool
is_empty [] = true
is_empty (x ∷ xs) = false

abbrev pub is_of_kind : Option String → Item → Bool
is_of_kind none item = true
is_of_kind (some kind) item = item.payload_kind == kind

abbrev pub is_other : Option String → String → Bool
is_other none id = false
is_other (some known) id = known != id

unfoldable pub target : Settings → String → List Item → SpoolFile
target settings key_id items = record {
  version = 2;
  runtime_state_schema_version = settings.runtime_state_schema_version;
  runtime_reset_epoch = settings.runtime_reset_epoch;
  host_id = settings.host_id;
  key_id = key_id;
  items = items;
}

-- The file is what was to be written, although the write threw.
unfoldable pub is_installed :
    String → List Item → Result SpoolError (List Item × Option String) → Bool
is_installed key_id items (throw error) = false
is_installed key_id items (ok (found, known)) = known == some key_id && same_items found items

module _ {Key : Type 0} (cipher : Cipher Key) (settings : Settings) where
  unfoldable pub valid_item : Item → Bool
  valid_item item =
      item.version == 1
      && item.host_id == settings.host_id
      && is_recognized item.payload_kind
      && item.aad_version == 1
      && is_returned (cipher.decode item.nonce (some 12))
      && has_tag (cipher.decode item.ciphertext none)

  unfoldable pub spool_aad : Item → Bytes
  spool_aad item = cipher.length_prefixed (
      "ariava-local-spool-v1"
      ∷ item.spool_item_id
      ∷ item.host_id
      ∷ item.session_id
      ∷ text_of item.event_id
      ∷ item.payload_kind
      ∷ cipher.number_text item.aad_version
      ∷ item.created_at
      ∷ [])

  unfoldable pub metadata : SpoolInput → Item
  metadata input = record {
    version = 1;
    spool_item_id = input.spool_item_id;
    host_id = settings.host_id;
    session_id = input.session_id;
    event_id = kept_text input.event_id;
    payload_kind = input.payload_kind;
    nonce = "";
    ciphertext = "";
    aad_version = 1;
    created_at = input.created_at;
  }

  unfoldable pub sealed : Key → SpoolInput → Item
  unfolding metadata
  sealed key input = record (metadata input) {
    nonce = cipher.encode input.nonce;
    ciphertext =
        cipher.encode (cipher.seal key input.nonce input.plaintext (spool_aad (metadata input)));
  }

  unfoldable pub is_current : SpoolFile → Bool
  is_current file =
      file.version == 2
      && file.runtime_state_schema_version == settings.runtime_state_schema_version
      && file.runtime_reset_epoch == settings.runtime_reset_epoch
      && file.host_id == settings.host_id
      && all valid_item file.items

  unfoldable pub of_disk : Disk → Result SpoolError (List Item × Option String)
  of_disk absent = ok ([], none)
  of_disk malformed = throw metadata_error
  of_disk (unreadable error) = throw error
  of_disk (stored file) =
      if is_current file then ok (file.items, some file.key_id) else throw metadata_error

  abbrev opened_nonce :
      Key → Item → Result SpoolError Bytes → Result SpoolError Bytes → Result SpoolError Bytes
  opened_nonce key item (throw error) ciphertext = throw error
  opened_nonce key item (ok nonce) (throw error) = throw error
  opened_nonce key item (ok nonce) (ok ciphertext) =
      cipher.open_sealed key nonce ciphertext (spool_aad item)

  unfoldable pub open_with_key : Key → Item → Result SpoolError Bytes
  open_with_key key item =
      opened_nonce key item (cipher.decode item.nonce (some 12))
        (cipher.decode item.ciphertext none)

  -- The additions of a replacement, one after the other.
  unfoldable pub add_all : Key → List SpoolInput → List Item → Result SpoolError (List Item)
  add_all key [] items = ok items
  add_all key (input ∷ inputs) items =
      let rest = add_all key inputs (items ++ (sealed key input ∷ [])) in
      if any (has_id input.spool_item_id) items then throw conflict_error else rest

  -- The items that are readable with the key; another error than a failed authentication is thrown.
  abbrev pub keep_readable :
      Item → Result SpoolError Bytes → Result SpoolError (List Item) → Result SpoolError (List Item)
  keep_readable item (ok bytes) (ok items) = ok (item ∷ items)
  keep_readable item (ok bytes) (throw error) = throw error
  keep_readable item (throw authentication) rest = rest
  keep_readable item (throw (recovery_required message)) rest = throw (recovery_required message)
  keep_readable item (throw (other_error message)) rest = throw (other_error message)

  unfoldable pub readable : Key → List Item → Result SpoolError (List Item)
  readable key [] = ok []
  readable key (item ∷ items) = keep_readable item (open_with_key key item) (readable key items)
