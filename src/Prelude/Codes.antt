-- ===== src/Prelude/Codes.antt =====
-- The character classes of the regular expressions that the program tests identifiers with.
use Prim.Native.Nat.{ℕ}
use Prim.Native.Char.{code}
use Prim.Native.String.{String}
use mathlib.Core.Bool.{Bool, false, ◌&&◌, ◌||◌}
use mathlib.Core.List.{List, [], ◌∷◌}
use mathlib.Core.Option.{Option, none, some}
use ariava.Prelude.Tests.{leb, if◌then◌else◌}
use ariava.Prelude.Equality.{◌==◌, nat_eq}
use ariava.Prelude.Lists.{length, all}

abbrev pub codes : String → List ℕ
codes String.[] = []
codes (String.◌∷◌ c s) = code c ∷ codes s

abbrev pub is_digit : ℕ → Bool
is_digit c = leb b'0' c && leb c b'9'

abbrev pub is_alnum : ℕ → Bool
is_alnum c = is_digit c || leb b'a' c && leb c b'z' || leb b'A' c && leb c b'Z'

-- [A-Za-z0-9_-]
abbrev pub is_base64url : ℕ → Bool
is_base64url c = is_alnum c || c == b'_' || c == b'-'

-- [a-f0-9]
abbrev pub is_hex : ℕ → Bool
is_hex c = is_digit c || leb b'a' c && leb c b'f'

-- What follows a prefix.
abbrev pub strip : List ℕ → List ℕ → Option (List ℕ)
strip [] cs = some cs
strip (p ∷ ps) [] = none
strip (p ∷ ps) (c ∷ cs) = if p == c then strip ps cs else none

abbrev pub is_key_body : Option (List ℕ) → Bool
is_key_body none = false
is_key_body (some cs) = length cs == 43 && all is_base64url cs

-- /^[A-Za-z0-9_-]{43}$/u: a SHA-256 digest in base64url
unfoldable pub is_verifier : String → Bool
is_verifier s = is_key_body (some (codes s))

-- The prefix, and 43 characters of [A-Za-z0-9_-].
unfoldable pub is_prefixed_key : String → String → Bool
is_prefixed_key prefix s = is_key_body (strip (codes prefix) (codes s))
