-- ===== src/Jsonx.antt =====
-- agent/util/jsonx.c: the search for a JSON object in the text of a model, and the typed
-- accessors. cJSON is third-party code: `Json J` holds the calls that the program makes of it.
pub mod Grammar
pub mod Extract
pub mod Repair
use mathlib.Core.Option
use isky.Prelude.{
  ℕ, zero, suc, ◌+◌, ◌-◌, List, [], ◌∷◌, ◌++◌, Bool, true, false, not, ◌&&◌, ◌||◌, Option, none,
  some, ℤ, Text, text, length, take, drop, ◌==◌, if◌then◌else◌,
}

-- `parse` is `cJSON_Parse` of a text, `get` is `cJSON_GetObjectItemCaseSensitive`, `items` the
-- children that `cJSON_ArrayForEach` walks; `make_object` is an object with these fields added in
-- their order. A duplicate of a value is the value.
pub record Json (J : Type 0) : Type 0 where
  pub parse : Text → Option J
  pub print : J → Text
  pub get : J → Text → Option J
  pub as_string : J → Option Text
  pub as_int : J → Option ℤ
  pub as_bool : J → Option Bool
  pub is_object : J → Bool
  pub is_array : J → Bool
  pub items : J → List J
  pub empty_object : J
  pub make_string : Text → J
  pub make_number : ℤ → J
  pub make_bool : Bool → J
  pub make_array : List J → J
  pub make_object : List (Text × J) → J

abbrev pub lbrace : ℕ
lbrace = 123

abbrev pub rbrace : ℕ
rbrace = 125

abbrev pub dquote : ℕ
dquote = 34

abbrev pub backslash : ℕ
backslash = 92

-- `while (*p && *p != '{') p++`
unfoldable pub skip_to_brace : Text → Text
skip_to_brace [] = []
skip_to_brace (c ∷ r) = if c == lbrace then c ∷ r else skip_to_brace r

pub record Scan : Type 0 where
  pub depth : ℕ
  pub in_str : Bool
  pub esc : Bool

abbrev pub scan_start : Scan
scan_start = record { depth = 0; in_str = false; esc = false }

-- One round of the loop of `find_object`. The text starts at a brace, so `depth` is at least 1
-- wherever it is taken down.
unfoldable pub scan_char : Scan → ℕ → Scan
scan_char s c =
    if s.in_str
    then if s.esc
      then record s { esc = false }
      else if c == backslash
      then record s { esc = true }
      else if c == dquote
      then record s { in_str = false }
      else s
    else if c == dquote
    then record s { in_str = true }
    else if c == lbrace
    then record s { depth = s.depth + 1 }
    else if c == rbrace
    then record s { depth = s.depth - 1 }
    else s

-- the test under which the loop returns
unfoldable pub scan_ends : Scan → ℕ → Bool
scan_ends s c = not s.in_str && c == rbrace && s.depth - 1 == 0

-- how far `end` lies behind the start, or none at the end of the text
unfoldable pub scan_object : Scan → Text → Option ℕ
scan_object s [] = none
scan_object s (c ∷ r) =
    let rest = Option.map suc (scan_object (scan_char s c) r) in
    if scan_ends s c then some 1 else rest

-- `start` as the rest of the text from there, with the length of the candidate
unfoldable pub find_object : Text → Option (Text × ℕ)
unfolding skip_to_brace scan_object scan_char scan_ends
find_object t =
    let start = skip_to_brace t in Option.map (λ n. (start, n)) (scan_object scan_start start)

pub record Found (J : Type 0) : Type 0 where
  pub value : J
  pub span : Text

module _ {J : Type 0} (json : Json J) where
  -- The scan goes on one place behind the start of a malformed candidate. The fuel is more than
  -- the length of the text.
  unfoldable pub extract_from : ℕ → Text → Option (Found J)
  extract_from zero t = none
  extract_from (suc fuel) [] = none
  extract_from (suc fuel) (c ∷ r) = elim (find_object (c ∷ r)) [
    | none ↦ none
    | some (start, n) ↦ elim (json.parse (take n start)) [
      | some j ↦ some (record { value = j; span = take n start })
      | none ↦ extract_from fuel (drop 1 start)
    ]
  ]

  unfoldable pub jx_extract_object : Text → Option (Found J)
  unfolding extract_from find_object
  jx_extract_object t = extract_from (length t + 1) t

  unfoldable pub jx_str : J → Text → Option Text
  jx_str obj key = Option.bind (json.get obj key) json.as_string

  unfoldable pub jx_int : J → Text → ℤ → ℤ
  jx_int obj key fallback = Option.get_or (Option.bind (json.get obj key) json.as_int) fallback

  unfoldable pub jx_bool : J → Text → Bool → Bool
  jx_bool obj key fallback = Option.get_or (Option.bind (json.get obj key) json.as_bool) fallback

  unfoldable pub jx_obj : J → Text → Option J
  jx_obj obj key = Option.bind (json.get obj key) (λ v. if json.is_object v then some v else none)

  unfoldable pub jx_arr : J → Text → Option J
  jx_arr obj key = Option.bind (json.get obj key) (λ v. if json.is_array v then some v else none)
