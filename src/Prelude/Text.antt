-- ===== src/Prelude/Text.antt =====
-- A Python text that the program walks, as the list of its code points, with the `str` methods that
-- the program calls. Letters outside ASCII are left alone by `lower`.
use Prim.Native.Char.{code}
use mathlib.Core.Path.{◌≡◌, refl}
use mathlib.Core.Bool.{Bool, true, false, ◌&&◌, ◌||◌}
use mathlib.Core.List.{List, [], ◌∷◌, map}
use native.Mathlib.Omega.{arith}
use Prim.Native.Nat.{ℕ, ◌+◌}
use Prim.Native.String.{String, ◌++◌ as text_append}
use dunning_agent.Prelude.Tests.{leb, ◌==◌, if◌then◌else◌}

abbrev pub Codes : Type 0
Codes = List ℕ

abbrev pub codes : String → Codes
codes String.[] = []
codes (String.◌∷◌ c s) = code c ∷ codes s

abbrev pub codes_eq : Codes → Codes → Bool
codes_eq [] [] = true
codes_eq [] (_ ∷ _) = false
codes_eq (_ ∷ _) [] = false
codes_eq (a ∷ s) (b ∷ t) = a == b && codes_eq s t

pub codes_eq_sound : (s t : Codes) → codes_eq s t ≡ true → s ≡ t
codes_eq_sound [] [] h = refl
codes_eq_sound [] (b ∷ t) h = ground arith
codes_eq_sound (a ∷ s) [] h = ground arith
codes_eq_sound (a ∷ s) (b ∷ t) h = ground (arith, codes_eq_sound s t)

codes_eq_refl : (s : Codes) → codes_eq s s ≡ true
codes_eq_refl [] = refl
codes_eq_refl (a ∷ s) = ground (arith, codes_eq_refl s)

-- Adjacent literals and f-strings.
abbrev pub concat : List String → String
concat [] = ""
concat (text ∷ texts) = text_append text (concat texts)

-- `separator.join(texts)`
abbrev pub join : String → List String → String
join separator [] = ""
join separator (text ∷ []) = text
join separator (text ∷ texts) = text_append text (text_append separator (join separator texts))

-- `str.isspace` on ASCII: tab to carriage return, the four separators, the space.
unfoldable pub is_space : ℕ → Bool
is_space c = leb 9 c && leb c 13 || leb 28 c && leb c 32

unfoldable pub lstrip : Codes → Codes
unfolding is_space
lstrip [] = []
lstrip (c ∷ s) = let rest = lstrip s in if is_space c then rest else c ∷ s

abbrev is_empty : Codes → Bool
is_empty [] = true
is_empty (_ ∷ _) = false

unfoldable pub rstrip : Codes → Codes
unfolding is_space
rstrip [] = []
rstrip (c ∷ s) = let rest = rstrip s in if is_space c && is_empty rest then [] else c ∷ rest

unfoldable pub strip : Codes → Codes
unfolding lstrip rstrip
strip s = rstrip (lstrip s)

unfoldable pub lower_code : ℕ → ℕ
lower_code c = if leb b'A' c && leb c b'Z' then c + 32 else c

unfoldable pub lower : Codes → Codes
unfolding lower_code
lower = map lower_code

lower_code_idem : (c : ℕ) → lower_code (lower_code c) ≡ lower_code c
unfolding lower_code
lower_code_idem c = ground arith

lower_idem : (s : Codes) → lower (lower s) ≡ lower s
unfolding lower
lower_idem [] = refl
lower_idem (c ∷ s) = cc (lower_code_idem c, lower_idem s)
