-- ===== src/Extension/Chunks.antt =====
-- extension/session.py: `_ResponseChunkBuffer` and `_parse_response_chunk_index`.
use Prim.Native.String.{◌++◌ as join}
use browser_cli.Prelude.{
  ℕ, ◌+◌, ℤ, pos, negsuc, String, List, [], ◌∷◌, Option, none, some, not, ◌||◌, leb, length, ◌==◌,
  nat_eq, if◌then◌else◌,
}
use browser_cli.Prelude.Sort.{sort}
use browser_cli.Prelude.Increasing.{last}
use browser_cli.Dict.{Dict, lookup, keys}
use browser_cli.Json.{JsonOperations}
use browser_cli.Extension.Messages.{max_response_chunk_index}

-- The errors that reach the request; the texts of the messages are left out.
pub data RequestError : Type 0 where
  chunk_incomplete chunk_invalid disconnected not_connected timed_out : RequestError
  refused : Option String → Option String → RequestError

pub data Attempt {ℓ} (A : Type ℓ) : Type ℓ where
  gets : A → Attempt A
  fails : RequestError → Attempt A

infixl 5 ◌>>=◌
abbrev pub ◌>>=◌ {ℓ κ} : {A : Type ℓ} {B : Type κ} → Attempt A → (A → Attempt B) → Attempt B
gets a >>= f = f a
fails e >>= f = fails e

abbrev pub chunk_or_empty : Option String → String
chunk_or_empty none = ""
chunk_or_empty (some t) = t

-- `"".join(self.chunks[index] for index in indexes)`; every index is a key
unfoldable pub join_at : Dict ℕ String → List ℕ → String
join_at chunks [] = ""
join_at chunks (k ∷ ks) = join (chunk_or_empty (lookup k chunks)) (join_at chunks ks)

abbrev pub assemble_sorted : Dict ℕ String → List ℕ → Attempt String
assemble_sorted chunks [] = gets ""
assemble_sorted chunks (k ∷ ks) =
    if not (k == 0) || not (length (k ∷ ks) == last k ks + 1)
    then fails chunk_incomplete
    else gets (join_at chunks (k ∷ ks))

unfoldable pub assemble : Dict ℕ String → Attempt String
assemble chunks = assemble_sorted chunks (sort leb (keys chunks))

abbrev pub in_bounds : Option ℤ → Attempt ℕ
in_bounds none = fails chunk_invalid
in_bounds (some (negsuc _)) = fails chunk_invalid
in_bounds (some (pos n)) = if leb n max_response_chunk_index then gets n else fails chunk_invalid

unfoldable pub parse_response_chunk_index : {J : Type 0} → JsonOperations J → J → Attempt ℕ
parse_response_chunk_index o raw =
    if o.is_bool raw || o.is_none raw then fails chunk_invalid else in_bounds (o.int raw)
