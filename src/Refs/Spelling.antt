-- ===== src/Refs/Spelling.antt =====
-- refs/resolver.py: the ways in which a ref is written.
use browser_cli.Prelude.{
  String, some, true, false, ◌≡◌, ◌≢◌, arith, string_eq, pair_eq, option_eq, list_eq, nat_eq,
}
use Prim.Native.String.{◌++◌ as join}
use browser_cli.Dict.{Dict, lookup}
use browser_cli.Refs.{RefData}
use browser_cli.Refs.Markup.{Python}
use browser_cli.Refs.Resolver.{parse_ref, locator_spec, build_locator_spec}

-- What a ref is, eight hexadecimal digits in lower case, as Python's `str` and `re` see it, bare and
-- behind `@` and `ref=`.
pub record IsRef (py : Python) (ref : String) : Type 0 where
  pub bare : py.strip ref ≡ ref
  pub no_at : py.starts_with "@" ref ≡ false
  pub no_key : py.starts_with "ref=" ref ≡ false
  pub hex : py.is_hex ref ≡ true
  pub lowered : py.lower ref ≡ ref
  pub some_digits : ref ≢ ""
  pub at_bare : py.strip (join "@" ref) ≡ join "@" ref
  pub at_starts : py.starts_with "@" (join "@" ref) ≡ true
  pub at_drop : py.drop 1 (join "@" ref) ≡ ref
  pub key_bare : py.strip (join "ref=" ref) ≡ join "ref=" ref
  pub key_no_at : py.starts_with "@" (join "ref=" ref) ≡ false
  pub key_starts : py.starts_with "ref=" (join "ref=" ref) ≡ true
  pub key_drop : py.drop 4 (join "ref=" ref) ≡ ref

-- The three ways in which a ref is written.
pub data Written (ref : String) : String → Type 0 where
  plain : Written ref ref
  at : Written ref (join "@" ref)
  key : Written ref (join "ref=" ref)

module _ (py : Python) (ref : String) (is_ref : IsRef py ref) where
  parse_ref-Written : (arg : String) → Written ref arg → parse_ref py arg ≡ some ref
  unfolding parse_ref
  parse_ref-Written _ Written.plain =
      simp (is_ref.bare, is_ref.no_at, is_ref.no_key, is_ref.hex, is_ref.lowered)
  parse_ref-Written _ Written.at =
      simp (is_ref.at_bare, is_ref.at_starts, is_ref.at_drop, is_ref.hex, is_ref.lowered)
  parse_ref-Written _ Written.key = simp (
    is_ref.key_bare, is_ref.key_no_at, is_ref.key_starts, is_ref.key_drop, is_ref.hex,
    is_ref.lowered,
  )

  pub build_locator_spec_of :
      (arg : String) (refs : Dict String RefData) (d : RefData)
      → Written ref arg
      → lookup ref refs ≡ some d
      → build_locator_spec py arg refs ≡ some (locator_spec py ref d refs)
  unfolding build_locator_spec
  build_locator_spec_of arg refs d written there =
      rw (parse_ref-Written arg written, build_locator_spec) (ground (arith, is_ref.some_digits))
