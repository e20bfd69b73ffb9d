-- ===== src/Text.antt =====
-- The functions of Go's `strings` that the operator calls, over texts as lists of code points.
pub mod Trim
pub mod Order
use Prim.Native.Nat.{◌+◌, ◌<◌, ◌*◌, ◌-◌, ◌^◌, compare, Ordering}
use Prim.Native.Char.{Char, char, code, IsScalar}
use Prim.Native.String.{[], ◌∷◌}
use mathlib.Core.Logic.{dite}
use native.Mathlib.Decide.{dec_lt}
use astradns_operator.Base.{
  ℕ, zero, suc, ℤ, pos, negsuc, Option, none, some, String, Bool, true, false, ◌&&◌, ◌||◌, ◌==◌,
  leb, ltb, eqb, if◌then◌else◌, ◌≡◌, arith,
}

-- `unicode.IsSpace`
unfoldable pub is_space : Char → Bool
is_space c =
    leb 9 (code c) && leb (code c) 13
    || eqb (code c) 0x20
    || eqb (code c) 0x85
    || eqb (code c) 0xA0
    || eqb (code c) 0x1680
    || leb 0x2000 (code c) && leb (code c) 0x200A
    || eqb (code c) 0x2028
    || eqb (code c) 0x2029
    || eqb (code c) 0x202F
    || eqb (code c) 0x205F
    || eqb (code c) 0x3000

unfoldable pub trim_left : String → String
trim_left [] = []
trim_left (c ∷ s) = if is_space c then trim_left s else c ∷ s

unfoldable pub trim_right : String → String
trim_right [] = []
trim_right (c ∷ s) = let rest = trim_right s in if rest == "" && is_space c then [] else c ∷ rest

-- `strings.TrimSpace`
unfoldable pub trim_space : String → String
unfolding trim_left trim_right
trim_space s = trim_right (trim_left s)

-- `strings.TrimSuffix(s, ".")`
unfoldable pub trim_dot : String → String
trim_dot [] = []
trim_dot (c ∷ s) = let rest = trim_dot s in if s == "" && eqb (code c) b'.' then [] else c ∷ rest

-- `strings.Count(s, ".")`
unfoldable pub count_dots : String → ℕ
count_dots [] = 0
count_dots (c ∷ s) = if eqb (code c) b'.' then count_dots s + 1 else count_dots s

-- Every code point is a digit or a dot.
unfoldable pub digits_and_dots : String → Bool
digits_and_dots [] = true
digits_and_dots (c ∷ s) =
    (eqb (code c) b'.' || leb b'0' (code c) && leb (code c) b'9') && digits_and_dots s

below_surrogates : (n : ℕ) → n < 128 → compare n 55296 ≡ Ordering.lt
below_surrogates n h = ground arith

pub ascii_IsScalar : (n : ℕ) → n < 128 → IsScalar n
ascii_IsScalar n h = rw (below_surrogates n h, IsScalar) tt

-- The character of an ASCII code.
abbrev ascii : (n : ℕ) → n < 128 → Char
ascii n h = char n (ascii_IsScalar n h)

-- `unicode.ToLower`: the ASCII letters by their distance, the other planes by the Unicode tables.
unfoldable pub lower_rune : (Char → Char) → Char → Char
unfolding dec_lt
lower_rune table c =
    dite (dec_lt (code c) 128)
      (λ small.
        dite (dec_lt (code c) 91)
          (λ below. dite (dec_lt 64 (code c)) (λ above. ascii (code c + 32) (omega arith)) (λ _. c))
          (λ _. c))
      (λ _. table c)

-- `strings.ToLower`
unfoldable pub to_lower : (Char → Char) → String → String
unfolding lower_rune
to_lower table [] = []
to_lower table (c ∷ s) = lower_rune table c ∷ to_lower table s

-- Go's `<` on strings: bytes of UTF-8 are ordered as the code points are.
unfoldable pub text_less : String → String → Bool
text_less [] [] = false
text_less [] (d ∷ t) = true
text_less (c ∷ s) [] = false
text_less (c ∷ s) (d ∷ t) =
    let rest = text_less s t in
    if ltb (code c) (code d) then true else if ltb (code d) (code c) then false else rest

-- The digits of `strconv.ParseInt`, most significant first.
unfoldable pub parse_digits : ℕ → String → Option ℕ
parse_digits n [] = some n
parse_digits n (c ∷ s) =
    let rest = parse_digits (n * 10 + (code c - 48)) s in
    if leb b'0' (code c) && leb (code c) b'9' then rest else none

-- A magnitude that fits in an `int64` of the sign.
unfoldable pub signed : Bool → Option ℕ → Option ℤ
signed negative none = none
signed false (some n) = if ltb n (2 ^ 63) then some (pos n) else none
signed true (some zero) = some (pos 0)
signed true (some (suc n)) = if ltb n (2 ^ 63) then some (negsuc n) else none

abbrev parse_magnitude : String → Option ℕ
parse_magnitude [] = none
parse_magnitude (c ∷ s) = parse_digits 0 (c ∷ s)

-- `strconv.ParseInt(s, 10, 64)`, `none` for an error
unfoldable pub parse_int64 : String → Option ℤ
unfolding parse_digits signed
parse_int64 [] = none
parse_int64 (c ∷ s) =
    if eqb (code c) b'+'
    then signed false (parse_magnitude s)
    else if eqb (code c) b'-'
    then signed true (parse_magnitude s)
    else signed false (parse_magnitude (c ∷ s))
