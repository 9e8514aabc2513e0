-- ===== src/Spool/Tests.antt =====
-- The spool on a file whose every write is installed and then throws: apps/bridge/src/e2e/local-spool.ts.
use Prim.Native.Char.{code}
use ariava.Prelude.{
  ℕ, zero, suc, ◌+◌, String, true, false, ◌≡◌, refl, ap, ◌∙◌, inl, Option, none, some, [], ◌∷◌,
  ◌++◌, length, drop, ◌==◌, nat_eq, if◌then◌else◌, Result, ok, throw, arith, find,
}
use ariava.Spool.{
  Bytes, Item, SpoolInput, SpoolError, other_error, Disk, absent, stored, Environment, Cipher,
  Settings, Spool,
}
use ariava.Spool.Items.{
  sealed, has_id, is_installed, of_disk, is_current, target, valid_item, metadata, spool_aad,
}
use ariava.Spool.Operations.{
  construct, enqueue, open_item, assert_access, enqueue_over, load_verified_key, take_key, adopt,
  append_item, persist, persist_under, settle, load,
}
use ariava.Spool.Reached.{IsAtomic, KeepsKeys, IsSound, IsWellFormed, Reached, starts, enqueues}
use ariava.Spool.Restart.{construct-again}
use ariava.Spool.Opens.{enqueue_opens}

abbrev environment : Environment Disk ℕ
environment = record {
  check_access = λ e. ok tt;
  load_or_create = λ e host_id allow. record { next = e; result = ok 7 };
  read_file = λ e. e;
  write_file =
      λ e file. record { next = stored file; result = throw (other_error "directory sync failed") };
}

atomic : IsAtomic environment
atomic = record {
  write_access = λ e file. refl;
  write_reads = λ e file. inl refl;
  load_reads = λ e host_id allow. refl;
}

keeps : KeepsKeys environment
keeps = record {
  load_access = λ e host_id allow. refl;
  load_again = λ e host_id allow later file key loads. loads;
}

-- A byte as so many ones and a zero.
abbrev mark : ℕ → String → String
mark zero text = String.◌∷◌ "0" text
mark (suc n) text = String.◌∷◌ "1" (mark n text)

abbrev encode : Bytes → String
encode [] = String.[]
encode (n ∷ ns) = mark n (encode ns)

abbrev parse : ℕ → String → Bytes
parse k String.[] = []
parse k (String.◌∷◌ c text) = elim (code c == b'0') [
  | true ↦ k ∷ parse 0 text
  | false ↦ parse (suc k) text
]

abbrev checked : Bytes → Option ℕ → Result SpoolError Bytes
checked bytes none = ok bytes
checked bytes (some n) =
    if length bytes == n then ok bytes else throw (other_error "length is invalid")

parse-mark : (k n : ℕ) (text : String) → parse k (mark n text) ≡ (n + k) ∷ parse 0 text
parse-mark k zero text = ap (λ m. m ∷ parse 0 text) (omega arith)
parse-mark k (suc n) text = parse-mark (suc k) n text ∙ ap (λ m. m ∷ parse 0 text) (omega arith)

parse-encode : (bytes : Bytes) → parse 0 (encode bytes) ≡ bytes
parse-encode [] = refl
parse-encode (n ∷ ns) =
    parse-mark 0 n (encode ns)
    ∙ ap (λ m. m ∷ parse 0 (encode ns)) (omega arith)
    ∙ ap (λ ms. n ∷ ms) (parse-encode ns)

checked-length : (bytes : Bytes) → length bytes ≡ 12 → checked bytes (some 12) ≡ ok bytes
checked-length bytes h = rw h refl

abbrev tag : Bytes
tag = 0 ∷ 0 ∷ 0 ∷ 0 ∷ 0 ∷ 0 ∷ 0 ∷ 0 ∷ 0 ∷ 0 ∷ 0 ∷ 0 ∷ 0 ∷ 0 ∷ 0 ∷ 0 ∷ []

abbrev cipher : Cipher ℕ
cipher = record {
  key_id = λ key. "key7";
  encode = encode;
  decode = λ text n. checked (parse 0 text) n;
  number_text = λ n. "1";
  length_prefixed = λ texts. [];
  seal = λ key nonce plaintext aad. tag ++ plaintext;
  open_sealed = λ key nonce text aad. ok (drop 16 text);
}

sound : IsSound cipher
sound = record {
  decode_nonce =
      λ bytes h. ap (λ b. checked b (some 12)) (parse-encode bytes) ∙ checked-length bytes h;
  decode_text = λ bytes. ap ok (parse-encode bytes);
  holds_tag = λ key nonce plaintext aad. omega arith;
  open_seal = λ key nonce plaintext aad. refl;
}

abbrev settings : Settings
settings = record {
  host_id = "host1";
  runtime_state_schema_version = 2;
  runtime_reset_epoch = "standalone";
}

abbrev input : SpoolInput
input = record {
  spool_item_id = "spool1";
  session_id = "s1";
  event_id = some "e1";
  payload_kind = "event-source-v3";
  created_at = "2026-01-01T00:00:00.000Z";
  plaintext = 3 ∷ 4 ∷ [];
  nonce = 1 ∷ 2 ∷ 3 ∷ 4 ∷ 5 ∷ 6 ∷ 7 ∷ 8 ∷ 9 ∷ 10 ∷ 11 ∷ 12 ∷ [];
}

well : IsWellFormed input
well = record { has_kind = refl; has_nonce = refl }

abbrev empty_spool : Spool Disk
empty_spool = record {
  items = [];
  key_id = none;
  has_persisted_items = false;
  environment = absent;
}

constructed : construct environment cipher settings absent ≡ ok empty_spool
unfolding construct load of_disk
constructed = refl

abbrev filled : Spool Disk
filled = (enqueue environment cipher settings input empty_spool).spool

reached : Reached environment cipher settings filled
reached = enqueues empty_spool input (starts absent empty_spool constructed) well

allowed : environment.check_access filled.environment ≡ ok tt
unfolding enqueue assert_access enqueue_over load_verified_key take_key adopt append_item persist
    persist_under settle is_installed load of_disk is_current target valid_item sealed metadata
    spool_aad
allowed = refl

construct-again_example :
    (again : Spool Disk) × (construct environment cipher settings filled.environment ≡ ok again)
    × (again.items ≡ filled.items)
construct-again_example =
    construct-again environment cipher settings atomic sound filled reached allowed

abbrev item : Item
item = sealed cipher settings 7 input

fresh : find (has_id "spool1") empty_spool.items ≡ none
fresh = refl

enqueued : (enqueue environment cipher settings input empty_spool).result ≡ ok item
unfolding enqueue assert_access enqueue_over load_verified_key take_key adopt append_item persist
    persist_under settle is_installed load of_disk is_current target valid_item sealed metadata
    spool_aad
enqueued = refl

enqueue_opens_example : (open_item environment cipher settings item filled).result ≡ ok (3 ∷ 4 ∷ [])
enqueue_opens_example =
    enqueue_opens environment cipher settings atomic keeps sound input well item empty_spool fresh
      enqueued
