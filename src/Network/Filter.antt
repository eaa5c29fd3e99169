-- ===== src/Network/Filter.antt =====
-- network.py: `NetworkRecordFilter`. What Python's `str` and `re` do is a parameter.
use browser_cli.Prelude.{
  String, ℕ, List, [], ◌∷◌, Option, none, some, Bool, false, not, ◌&&◌, any, ◌==◌, string_eq,
  nat_eq, if◌then◌else◌,
}

-- `x in s`, `s.upper()`, `s.lower()`, and `re.compile(p).search(s) is not None`
pub record TextOperations : Type 0 where
  pub contains : String → String → Bool
  pub upper : String → String
  pub lower : String → String
  pub search : String → String → Bool

-- A record is a dict; `rest` is what the store only hands on.
pub record NetworkRecord (D : Type 0) : Type 0 where
  pub url : Option String
  pub method : Option String
  pub status : Option ℕ
  pub resource_type : Option String
  pub mime_type : Option String
  pub rest : D

pub record NetworkRecordFilter : Type 0 where
  pub url_contains : Option String
  pub url_regex : Option String
  pub method : Option String
  pub status : Option ℕ
  pub resource_type : Option String
  pub mime_contains : Option String
  pub include_static : Bool

abbrev pub static_resource_types : List String
static_resource_types = "image" ∷ "stylesheet" ∷ "script" ∷ "font" ∷ "media" ∷ []

-- `str(record.get(...) or "")`, and `record.get("status") or 0`
abbrev pub or_empty : Option String → String
or_empty none = ""
or_empty (some x) = x

abbrev pub or_zero : Option ℕ → ℕ
or_zero none = 0
or_zero (some n) = n

-- `if self.x and ...`: neither `None` nor the empty text asks for anything
abbrev pub asks : Option String → (String → Bool) → Bool
asks none refuses = false
asks (some x) refuses = not (x == "") && refuses x

abbrev pub asks_status : Option ℕ → ℕ → Bool
asks_status none status = false
asks_status (some n) status = not (status == n)

unfoldable pub is_static_resource_type : TextOperations → String → Bool
is_static_resource_type t resource_type =
    any (λ x. t.lower resource_type == x) static_resource_types

module _ {D : Type 0} where
  unfoldable pub matches : TextOperations → NetworkRecordFilter → NetworkRecord D → Bool
  matches t f r =
      let resource_type = or_empty r.resource_type in
      let url = or_empty r.url in
      if not f.include_static && is_static_resource_type t resource_type
      then false
      else if asks f.url_contains (λ x. not (t.contains x url))
      then false
      else if asks f.url_regex (λ x. not (t.search x url))
      then false
      else if asks f.method (λ x. not (t.upper (or_empty r.method) == t.upper x))
      then false
      else if asks_status f.status (or_zero r.status)
      then false
      else if asks f.resource_type (λ x. not (resource_type == x))
      then false
      else not (
          asks f.mime_contains (λ x. not (t.contains (t.lower x) (t.lower (or_empty r.mime_type)))))
