-- ===== src/Json.antt =====
-- What Python does to JSON values, and the phrases with which the code reads their fields.
use browser_cli.Prelude.{ℤ, pos, String, List, [], Option, none, some, Bool, if◌then◌else◌}

infixl 5 ◌>>=◌
abbrev pub ◌>>=◌ {ℓ κ} : {A : Type ℓ} {B : Type κ} → Option A → (A → Option B) → Option B
none >>= f = none
some a >>= f = f a

-- `payload.get(key)`, which gives null for a key that is missing, truth, `is None`,
-- `isinstance(x, bool)`, `isinstance(x, dict)`, `x == text`, `str`, and `int`, `dict`, `list` and
-- `json.loads`, which may raise a `TypeError` or a `ValueError`.
-- The `OverflowError` of `int` for an infinite number is left out.
pub record JsonOperations (J : Type 0) : Type 0 where
  pub get : String → J → J
  pub truthy : J → Bool
  pub is_none : J → Bool
  pub is_bool : J → Bool
  pub is_dict : J → Bool
  pub is_text : J → String → Bool
  pub str : J → String
  pub int : J → Option ℤ
  pub dict : J → Option J
  pub list : J → Option (List J)
  pub empty_dict : J
  pub loads : String → Option J

module _ {J : Type 0} (o : JsonOperations J) where
  -- `str(payload.get(key) or default)`
  abbrev pub text_or : String → String → J → String
  text_or key default payload =
      if o.truthy (o.get key payload) then o.str (o.get key payload) else default

  -- `str(payload[key]) if payload.get(key) is not None else None`
  abbrev pub text_or_none : String → J → Option String
  text_or_none key payload =
      if o.is_none (o.get key payload) then none else some (o.str (o.get key payload))

  -- `dict(payload.get(key) or {})`
  abbrev pub dict_or_empty : String → J → Option J
  dict_or_empty key payload =
      o.dict (if o.truthy (o.get key payload) then o.get key payload else o.empty_dict)

  abbrev pub list_or_empty : String → J → Option (List J)
  list_or_empty key payload =
      if o.truthy (o.get key payload) then o.list (o.get key payload) else some []

  -- `int(payload.get(key) or 0)`
  abbrev pub int_or_zero : String → J → Option ℤ
  int_or_zero key payload =
      if o.truthy (o.get key payload) then o.int (o.get key payload) else some (pos 0)

  -- `int(payload[key]) if payload.get(key) is not None else None`
  abbrev pub int_or_none : String → J → Option (Option ℤ)
  int_or_none key payload =
      if o.is_none (o.get key payload)
      then some none
      else do n ← o.int (o.get key payload); some (some n)
