-- ===== src/Spool.antt =====
-- The local spool of encrypted payloads: apps/bridge/src/e2e/local-spool.ts, LocalEncryptedSpool. The
-- file, the key store, the access check and the cipher are interfaces; that buffers with plaintext
-- and keys are overwritten with zeros at the end is not visible in values.
pub mod Method
pub mod Items
pub mod Operations
pub mod Reached
pub mod Reloads
pub mod Writes
pub mod Steps
pub mod Kept
pub mod Restart
pub mod Opens
mod Tests
use ariava.Prelude.{ℕ, String, Bool, Option, List, [], ◌∷◌, Result}

abbrev pub Bytes : Type 0
Bytes = List ℕ

abbrev pub payload_kinds : List String
payload_kinds =
    "event-source-v3" ∷ "event-reservation-v3" ∷ "event-dead-letter-v3" ∷ "session-source-v3"
    ∷ "event-upload-v3" ∷ "session-upload-v3" ∷ "terminal-cancellation-v3" ∷ []

-- `LocalEncryptedPendingPayloadV1`, as it is read from the file: a text or a number may be any.
pub record Item : Type 0 where
  pub version : ℕ
  pub spool_item_id : String
  pub host_id : String
  pub session_id : String
  pub event_id : Option String
  pub payload_kind : String
  pub nonce : String
  pub ciphertext : String
  pub aad_version : ℕ
  pub created_at : String

-- `LocalSpoolFileV2`
pub record SpoolFile : Type 0 where
  pub version : ℕ
  pub runtime_state_schema_version : ℕ
  pub runtime_reset_epoch : String
  pub host_id : String
  pub key_id : String
  pub items : List Item

-- The argument of enqueue, with the nonce that is drawn for it.
pub record SpoolInput : Type 0 where
  pub spool_item_id : String
  pub session_id : String
  pub event_id : Option String
  pub payload_kind : String
  pub created_at : String
  pub plaintext : Bytes
  pub nonce : Bytes

-- LocalSpoolRecoveryRequiredError, ChaChaPolyAuthenticationError, or another error.
pub data SpoolError : Type 0 where
  recovery_required : (message : String) → SpoolError
  authentication : SpoolError
  other_error : (message : String) → SpoolError

-- What there is under the spool's path. A malformed file has no text as its key id, or no array of
-- items; an unreadable one makes the secure reading throw.
pub data Disk : Type 0 where
  absent : Disk
  malformed : Disk
  unreadable : SpoolError → Disk
  stored : SpoolFile → Disk

-- What a use of the environment leaves.
pub record Used (E A : Type 0) : Type 0 where
  pub next : E
  pub result : Result SpoolError A

-- The access check, the key store and the file of the spool.
pub record Environment (E Key : Type 0) : Type 0 where
  pub check_access : E → Result SpoolError (Unit {0})
  pub load_or_create : E → (host_id : String) → (allow_create : Bool) → Used E Key
  pub read_file : E → Disk
  pub write_file : E → SpoolFile → Used E (Unit {0})

-- The protocol's encodings, the key digest and the platform's ChaCha20-Poly1305. `decode` may ask for
-- a length.
pub record Cipher (Key : Type 0) : Type 0 where
  pub key_id : Key → String
  pub encode : Bytes → String
  pub decode : String → Option ℕ → Result SpoolError Bytes
  pub number_text : ℕ → String
  pub length_prefixed : List String → Bytes
  pub seal : Key → (nonce plaintext aad : Bytes) → Bytes
  pub open_sealed : Key → (nonce ciphertext aad : Bytes) → Result SpoolError Bytes

-- What the constructor of a spool is told.
pub record Settings : Type 0 where
  pub host_id : String
  pub runtime_state_schema_version : ℕ
  pub runtime_reset_epoch : String

pub record Spool (E : Type 0) : Type 0 where
  pub items : List Item
  pub key_id : Option String
  pub has_persisted_items : Bool
  pub environment : E
