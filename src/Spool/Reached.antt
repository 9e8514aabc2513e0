-- ===== src/Spool/Reached.antt =====
-- The spools that are reached: what the runtime does with one, in any order, whatever throws, and what
-- is relied on of the file and of the cipher, apps/bridge/src/e2e/local-spool.ts.
use ariava.Prelude.{◌≤◌, String, Bool, true, false, ◌≡◌, ◌⊎◌, none, some, List, length, All, ok}
use ariava.Spool.{Bytes, Item, SpoolFile, SpoolInput, stored, Environment, Cipher, Settings, Spool}
use ariava.Spool.Items.{is_recognized, is_returned}
use ariava.Spool.Operations.{construct, enqueue, replace, recover_unreadable, open_item}

-- The secure writing of a file is atomic: it installs the file, and may throw nevertheless, or it
-- throws and leaves what was there. A write, also one that throws, leaves the answer of the access
-- check as it was, and what is read after it is the one file or the other: no reading fails for a
-- while, which the reload after a write would swallow. The key store does not touch the file of the
-- spool.
pub record IsAtomic {E Key : Type 0} (environment : Environment E Key) : Type 0 where
  pub write_access :
      (e : E) (file : SpoolFile)
      → environment.check_access (environment.write_file e file).next ≡ environment.check_access e
  pub write_reads :
      (e : E) (file : SpoolFile)
      → (environment.read_file (environment.write_file e file).next ≡ stored file)
        ⊎ ((environment.read_file (environment.write_file e file).next ≡ environment.read_file e)
            × (is_returned (environment.write_file e file).result ≡ false))
  pub load_reads :
      (e : E) (host_id : String) (allow_create : Bool)
      → environment.read_file (environment.load_or_create e host_id allow_create).next
        ≡ environment.read_file e

-- The key store keeps a key that it has handed out, also over a write of the spool's file, and access
-- is not lost by its use.
pub record KeepsKeys {E Key : Type 0} (environment : Environment E Key) : Type 0 where
  pub load_access :
      (e : E) (host_id : String) (allow_create : Bool)
      → environment.check_access (environment.load_or_create e host_id allow_create).next
        ≡ environment.check_access e
  pub load_again :
      (e : E) (host_id : String) (allow_create allowed_later : Bool) (file : SpoolFile) (key : Key)
      → (environment.load_or_create e host_id allow_create).result ≡ ok key
      → (environment.load_or_create
          (environment.write_file
            (environment.load_or_create e host_id allow_create).next
            file).next
          host_id
          allowed_later).result
        ≡ ok key

-- Encoding and sealing are undone by decoding and opening; a sealed text holds a tag of 16 bytes.
pub record IsSound {Key : Type 0} (cipher : Cipher Key) : Type 0 where
  pub decode_nonce :
      (bytes : Bytes) → length bytes ≡ 12 → cipher.decode (cipher.encode bytes) (some 12) ≡ ok bytes
  pub decode_text : (bytes : Bytes) → cipher.decode (cipher.encode bytes) none ≡ ok bytes
  pub holds_tag :
      (key : Key) (nonce plaintext aad : Bytes) → 16 ≤ length (cipher.seal key nonce plaintext aad)
  pub open_seal :
      (key : Key) (nonce plaintext aad : Bytes)
      → cipher.open_sealed key nonce (cipher.seal key nonce plaintext aad) aad ≡ ok plaintext

-- Of a payload kind that there is, with a nonce of twelve bytes.
pub record IsWellFormed (input : SpoolInput) : Type 0 where
  pub has_kind : is_recognized input.payload_kind ≡ true
  pub has_nonce : length input.nonce ≡ 12

module _ {E Key : Type 0} (environment : Environment E Key) (cipher : Cipher Key)
    (settings : Settings) where
  pub data Reached : Spool E → Type 0 where
    starts : (e : E) (s : Spool E) → construct environment cipher settings e ≡ ok s → Reached s
    enqueues :
        (s : Spool E) (input : SpoolInput)
        → Reached s
        → IsWellFormed input
        → Reached (enqueue environment cipher settings input s).spool
    replaces :
        (s : Spool E) (remove_ids : List String) (additions : List SpoolInput)
        → Reached s
        → All IsWellFormed additions
        → Reached (replace environment cipher settings remove_ids additions s).spool
    recovers :
        (s : Spool E) → Reached s → Reached (recover_unreadable environment cipher settings s).spool
    opens :
        (s : Spool E) (item : Item)
        → Reached s
        → Reached (open_item environment cipher settings item s).spool
