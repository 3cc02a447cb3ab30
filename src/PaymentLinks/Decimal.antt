-- ===== src/PaymentLinks/Decimal.antt =====
-- `str(n)` of a natural number and `int(text)`, as app/payment_links.py uses them on references.
use dunning_agent.Prelude.{
  ℕ, zero, suc, ◌+◌, ◌-◌, ◌*◌, ◌/◌, ◌%◌, Bool, true, false, ◌&&◌, Option, none, some, [], ◌∷◌, ◌++◌,
  ltb, leb, ◌==◌, if◌then◌else◌, ◌≡◌, refl,
}
use dunning_agent.Prelude.Text.{Codes, codes, strip}

-- Decimal digits, most significant first, with fuel. `to_decimal` gives enough: a number has at most
-- as many digits as its successor.
unfoldable pub digits : ℕ → ℕ → Codes
digits zero n = []
digits (suc fuel) n =
    let rest = digits fuel (n / 10) in
    if ltb n 10 then (b'0' + n) ∷ [] else rest ++ (b'0' + n % 10) ∷ []

unfoldable pub to_decimal : ℕ → Codes
unfolding digits
to_decimal n = digits (suc n) n

-- A Python int. `negsuc n` is -(n + 1).
pub data ℤ : Type 0 where
  pos : ℕ → ℤ
  negsuc : ℕ → ℤ

abbrev is_digit : ℕ → Bool
is_digit c = leb b'0' c && leb c b'9'

-- The digits of a literal: at least one, with single underscores between digits. The flag says
-- whether the character before was a digit.
unfoldable pub parse_digits : Bool → ℕ → Codes → Option ℕ
parse_digits after_digit n [] = if after_digit then some n else none
parse_digits after_digit n (c ∷ s) =
    let next = parse_digits true (n * 10 + (c - b'0')) s in
    let skip = parse_digits false n s in
    if is_digit c then next else if c == b'_' && after_digit then skip else none

abbrev negate : Option ℕ → Option ℤ
negate none = none
negate (some zero) = some (pos zero)
negate (some (suc n)) = some (negsuc n)

abbrev pub positive : Option ℕ → Option ℤ
positive none = none
positive (some n) = some (pos n)

unfoldable pub parse_signed : Codes → Option ℤ
parse_signed [] = none
parse_signed (c ∷ s) =
    if c == b'-'
    then negate (parse_digits false 0 s)
    else if c == b'+'
    then positive (parse_digits false 0 s)
    else positive (parse_digits false 0 (c ∷ s))

-- `int(text)`; `none` is the ValueError.
unfoldable pub parse_int : Codes → Option ℤ
parse_int s = parse_signed (strip s)

parse_int_tests :
    (parse_int (codes " +1_000 ") ≡ some (pos 1000))
    × (parse_int (codes "-7") ≡ some (negsuc 6))
    × (parse_int (codes "1__0") ≡ none)
    × (parse_int (codes "") ≡ none)
unfolding parse_int parse_signed parse_digits strip
parse_int_tests = (refl, refl, refl, refl)

to_decimal_test : to_decimal 90210 ≡ codes "90210"
unfolding to_decimal
to_decimal_test = refl
