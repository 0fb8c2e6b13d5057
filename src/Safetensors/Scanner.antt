-- ===== src/Safetensors/Scanner.antt =====
-- src/io/k3_st.c: the scanner of a shard's header. A position in the text is the rest of the text.
-- `char` is taken to be signed.
pub mod Decided
use Prim.Native.Nat.{bit_or}
use isky.Prelude.{
  ℕ, zero, suc, ◌+◌, ◌-◌, ◌*◌, ◌%◌, ◌^◌, List, [], ◌∷◌, ◌++◌, Bool, true, false, ◌&&◌, ◌||◌, Option,
  none, some, ℤ, pos, neg, int64, ltb, leb, length, ◌==◌, Text, if◌then◌else◌,
}

-- What a scan gives: a value and the rest of the text, a return of 0, or no end of its loop.
pub data Scanned {ℓ} (A : Type ℓ) : Type ℓ where
  scanned : A → Text → Scanned A
  malformed : Scanned A
  out_of_fuel : Scanned A

abbrev pub then_scan {ℓ κ} :
    {A : Type ℓ} {B : Type κ} → Scanned A → (A → Text → Scanned B) → Scanned B
then_scan (scanned a rest) f = f a rest
then_scan malformed f = malformed
then_scan out_of_fuel f = out_of_fuel

unfoldable pub ws : Text → Text
ws [] = []
ws (c ∷ r) = if leb c 32 then ws r else c ∷ r

-- `s->p < s->end && *s->p == c` after `ws`
unfoldable pub lit_at : ℕ → Text → Option Text
lit_at c [] = none
lit_at c (d ∷ r) = if d == c then some r else none

unfoldable pub lit : ℕ → Text → Option Text
unfolding ws lit_at
lit c s = lit_at c (ws s)

abbrev pub require : Option Text → Scanned (Unit {0})
require none = malformed
require (some r) = scanned tt r

-- `if (!lit(s, c)) return 0;`
unfoldable pub expect : ℕ → Text → Scanned (Unit {0})
unfolding lit
expect c s = require (lit c s)

-- Where the loop of `str_` stands: between characters, behind a backslash, or with `left` digits of
-- a \u escape to come and the value so far.
pub data Escape : Type 0 where
  plain escaped : Escape
  hex : ℕ → ℕ → Escape

unfoldable pub unescape : ℕ → ℕ
unescape e =
    if e == b'n'
    then 10
    else if e == b't'
    then 9
    else if e == b'r'
    then 13
    else if e == b'b'
    then 8
    else if e == b'f'
    then 12
    else e

-- `(unsigned)(h <= '9' ? h - '0' : (h | 32) - 'a' + 10)`; a byte above 127 is negative
unfoldable pub hex_digit : ℕ → ℕ
hex_digit h =
    if ltb 127 h
    then (2 ^ 32 + h - 256 - 48) % 2 ^ 32
    else if leb h 57
    then (2 ^ 32 + h - 48) % 2 ^ 32
    else (2 ^ 32 + bit_or h 32 - 97 + 10) % 2 ^ 32

abbrev pub narrow : ℕ → ℕ
narrow v = if ltb v 128 then v else b'?'

-- the loop of `str_`, which also stops at the end of the text; `out` is what it has stored
unfoldable pub str_body : Escape → Text → Text → Scanned Text
unfolding unescape hex_digit
str_body e out [] = malformed
str_body plain out (c ∷ r) = elim (c == b'"') [
  | true ↦ scanned out r
  | false ↦ elim (c == b'\\') [
    | true ↦ str_body escaped out r
    | false ↦ str_body plain (out ++ c ∷ []) r
  ]
]
str_body escaped out (c ∷ r) = elim (c == b'u') [
  | true ↦ str_body (hex 4 0) out r
  | false ↦ str_body plain (out ++ unescape c ∷ []) r
]
str_body (hex left v) out (c ∷ r) =
    let w = (v * 16 + hex_digit c) % 2 ^ 32 in
    elim (leb left 1) [
      | true ↦ str_body plain (out ++ narrow w ∷ []) r
      | false ↦ str_body (hex (left - 1) w) out r
    ]

-- `if (n + 1 > cap) return 0;` on a string that was stored
abbrev pub within : ℕ → Text → Text → Scanned Text
within cap out rest = if ltb cap (length out + 1) then malformed else scanned out rest

unfoldable pub str_ : ℕ → Text → Scanned Text
unfolding ws lit str_body
str_ cap s = elim (lit b'"' s) [
  | none ↦ malformed
  | some r ↦ then_scan (str_body plain [] r) (within cap)
]

abbrev pub is_digit : ℕ → Bool
is_digit c = leb b'0' c && leb c b'9'

-- `a` has the 64 bits of the number so far.
unfoldable pub digits : ℕ → Text → ℕ × Text
digits a [] = (a, [])
digits a (c ∷ r) = elim (is_digit c) [
  | true ↦ digits ((a * 10 + (c - b'0')) % 2 ^ 64) r
  | false ↦ (a, c ∷ r)
]

-- the digits behind an optional sign
unfoldable pub number : Bool → Text → Scanned ℤ
unfolding digits int64
number negative [] = malformed
number negative (c ∷ r) =
    if is_digit c
    then (let (a, rest) = digits 0 (c ∷ r) in
        scanned (int64 (if negative then neg (int64 (pos a)) else pos a)) rest)
    else malformed

unfoldable pub signed_number : Text → Scanned ℤ
unfolding number
signed_number [] = malformed
signed_number (c ∷ r) =
    if c == b'-' || c == b'+' then number (c == b'-') r else number false (c ∷ r)

unfoldable pub i64_ : Text → Scanned ℤ
unfolding ws signed_number
i64_ s = signed_number (ws s)

-- The flag is set behind a backslash.
unfoldable pub skip_string : Bool → Text → Scanned (Unit {0})
skip_string esc [] = malformed
skip_string true (c ∷ r) = skip_string false r
skip_string false (c ∷ r) = elim (c == b'"') [
  | true ↦ scanned tt r
  | false ↦ skip_string (c == b'\\') r
]

-- Where the loop over a nested value stands.
pub data Inside : Type 0 where
  between in_string in_escape : Inside

-- the `do` loop; behind a string `depth` is not 0
unfoldable pub skip_nested : Inside → ℕ → Text → Scanned (Unit {0})
skip_nested i depth [] = malformed
skip_nested in_escape depth (c ∷ r) = skip_nested in_string depth r
skip_nested in_string depth (c ∷ r) = elim (c == b'"') [
  | true ↦ skip_nested between depth r
  | false ↦ elim (c == b'\\') [
    | true ↦ skip_nested in_escape depth r
    | false ↦ skip_nested in_string depth r
  ]
]
skip_nested between depth (c ∷ r) = elim (c == b'"') [
  | true ↦ skip_nested in_string depth r
  | false ↦ elim (c == b'{' || c == b'[') [
    | true ↦ skip_nested between (depth + 1) r
    | false ↦ elim (c == b'}' || c == b']') [
      | false ↦ skip_nested between depth r
      | true ↦ elim (leb depth 1) [
        | true ↦ scanned tt r
        | false ↦ skip_nested between (depth - 1) r
      ]
    ]
  ]
]

unfoldable pub skip_atom : Text → Text
skip_atom [] = []
skip_atom (c ∷ r) = if c == b',' || c == b'}' || c == b']' then c ∷ r else skip_atom r

unfoldable pub skip_at : Text → Scanned (Unit {0})
unfolding skip_string skip_nested skip_atom
skip_at [] = malformed
skip_at (c ∷ r) =
    if c == b'"'
    then skip_string false r
    else if c == b'{' || c == b'['
    then skip_nested between 0 (c ∷ r)
    else scanned tt (skip_atom (c ∷ r))

unfoldable pub skip_value : Text → Scanned (Unit {0})
unfolding ws skip_at
skip_value s = skip_at (ws s)
