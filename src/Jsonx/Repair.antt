-- ===== src/Jsonx/Repair.antt =====
-- `jx_repair_object` of agent/util/jsonx.c: rewriting almost-JSON, then a strict parse.
use mathlib.Core.List.{reverse}
use mathlib.Core.Option
use isky.Prelude.{
  ℕ, zero, suc, ◌-◌, [], ◌∷◌, ◌++◌, Bool, true, false, not, ◌&&◌, ◌||◌, Option, Text, text, length,
  take, drop, get_or, ◌≡◌, refl, leb, ◌==◌, if◌then◌else◌,
}
use isky.Jsonx.{Json, dquote, backslash, lbrace, rbrace, find_object}

abbrev pub squote : ℕ
squote = 39

abbrev newline : ℕ
newline = 10

abbrev comma : ℕ
comma = 44

-- The character classes of the C locale.
unfoldable pub isspace : ℕ → Bool
isspace c = c == 32 || (leb 9 c && leb c 13)

unfoldable pub isalpha : ℕ → Bool
isalpha c = (leb 65 c && leb c 90) || (leb 97 c && leb c 122)

unfoldable pub isalnum : ℕ → Bool
unfolding isalpha
isalnum c = isalpha c || (leb 48 c && leb c 57)

-- `while (q < end && isspace(*q)) q++`
skip_spaces : Text → Text
unfolding isspace
skip_spaces [] = []
skip_spaces (c ∷ r) = if isspace c then skip_spaces r else c ∷ r

-- how many characters of an identifier stand at the front
ident_length : Text → ℕ
unfolding isalnum
ident_length [] = 0
ident_length (c ∷ r) = let rest = ident_length r in if isalnum c || c == b'_' then suc rest else 0

unfoldable pub starts_with : Text → Text → Bool
starts_with [] t = true
starts_with (x ∷ xs) [] = false
starts_with (x ∷ xs) (y ∷ ys) = x == y && starts_with xs ys

-- the look back: is the last character of the output that is no space a `{` or a `,`?
last_structural : Text → Bool
unfolding isspace
last_structural [] = false
last_structural (b ∷ rest) = if isspace b then last_structural rest else b == lbrace || b == comma

head_is : ℕ → Text → Bool
head_is c [] = false
head_is c (x ∷ r) = x == c

pub record Mode : Type 0 where
  pub in_str : Bool
  pub esc : Bool
  pub quote : ℕ

-- What one round of the loop appends, how far it moves `p`, and the new mode.
pub record Round : Type 0 where
  pub emitted : Text
  pub used : ℕ
  pub mode : Mode

string_round : Mode → ℕ → Round
unfolding text
string_round m c =
    if m.esc
    then record { emitted = c ∷ []; used = 1; mode = record m { esc = false } }
    else if c == backslash
    then record { emitted = c ∷ []; used = 1; mode = record m { esc = true } }
    else if c == m.quote
    then record { emitted = dquote ∷ []; used = 1; mode = record m { in_str = false } }
    else if c == dquote && m.quote == squote
    then record { emitted = backslash ∷ dquote ∷ []; used = 1; mode = m }
    else if c == newline
    then record { emitted = backslash ∷ b'n' ∷ []; used = 1; mode = m }
    else if c == 13
    then record { emitted = []; used = 1; mode = m }
    else if c == 9
    then record { emitted = backslash ∷ b't' ∷ []; used = 1; mode = m }
    else record { emitted = c ∷ []; used = 1; mode = m }

literal : Text → Text → Bool
unfolding starts_with isalnum
literal word p = starts_with word p && not (isalnum (get_or p (length word) 0))

-- `p` is the text from the pointer on, of which `left` bytes stand before `end`; `out` is the
-- output so far, its last byte first.
plain_round : Text → Mode → ℕ → ℕ → Text → Round
unfolding skip_spaces ident_length last_structural head_is literal isalpha text
plain_round out m left c r =
    let p = c ∷ r in
    let keep : Round = record { emitted = c ∷ []; used = 1; mode = m } in
    let n = ident_length (take left p) in
    let after_comma = skip_spaces (take (left - 1) r) in
    if c == dquote || c == squote
    then record { emitted = dquote ∷ []; used = 1; mode = record m { in_str = true; quote = c } }
    else if c == comma
    then if head_is rbrace after_comma || head_is b']' after_comma
      then record { emitted = []; used = 1; mode = m }
      else keep
    else if literal (text "True") p
    then record { emitted = text "true"; used = 4; mode = m }
    else if literal (text "False") p
    then record { emitted = text "false"; used = 5; mode = m }
    else if literal (text "None") p
    then record { emitted = text "null"; used = 4; mode = m }
    else if (isalpha c || c == b'_')
        && last_structural out
        && head_is b':' (skip_spaces (drop n (take left p)))
    then record { emitted = dquote ∷ (take n p ++ (dquote ∷ [])); used = n; mode = m }
    else keep

unfoldable pub repair_round : Text → Mode → ℕ → ℕ → Text → Round
unfolding string_round plain_round
repair_round out m left c r = if m.in_str then string_round m c else plain_round out m left c r

-- `while (p < end)`. The output is built last byte first.
unfoldable pub repair_loop : ℕ → ℕ → Text → Mode → Text → Text
unfolding repair_round
repair_loop zero left p m out = out
repair_loop (suc fuel) zero p m out = out
repair_loop (suc fuel) (suc left) [] m out = out
repair_loop (suc fuel) (suc left) (c ∷ r) m out =
    let round = repair_round out m (suc left) c r in
    repair_loop fuel (suc left - round.used) (drop round.used (c ∷ r)) round.mode
      (reverse round.emitted ++ out)

unfoldable pub repair_text : Text → ℕ → Text
unfolding repair_loop
repair_text start n =
    reverse (repair_loop n n start (record { in_str = false; esc = false; quote = 0 }) [])

unfoldable pub jx_repair_object : {J : Type 0} → Json J → Text → Option J
unfolding repair_text find_object
jx_repair_object json t =
    Option.bind (find_object t) (λ found. json.parse (repair_text found.0 found.1))

repairs : repair_text (text "{a: 'x',}") 9 ≡ text "{\"a\": \"x\"}"
unfolding repair_text text reverse
repairs = refl
