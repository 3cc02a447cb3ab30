-- ===== src/Prelude/Sets.antt =====
-- Lists of texts used as Python's sets.
use mathlib.Core.Path.{◌≡◌, refl}
use mathlib.Core.Logic.{◌↔◌}
use mathlib.Core.Bool.{Bool, true, false, ◌||◌, not}
use mathlib.Core.List.{List, [], ◌∷◌, ◌++◌}
use Prim.Native.String.{String}
use native.Mathlib.Omega.{arith}
use text.Mathlib.Text.{◌==◌ as str_eq}
use text.Mathlib.TextEquality.{eq_iff}
use dunning_agent.Prelude.Tests.{if◌then◌else◌}
use dunning_agent.Prelude.Lists.{Elem, filter}

-- `x in xs`
abbrev pub contains : String → List String → Bool
contains x [] = false
contains x (y ∷ ys) = let rest = contains x ys in if str_eq y x then true else rest

-- No text stands twice in the list.
abbrev pub IsDistinct : List String → Type 0
IsDistinct [] = Unit
IsDistinct (x ∷ xs) = (contains x xs ≡ false) × IsDistinct xs

pub contains-snoc :
    (x y : String) (xs : List String) → contains x (xs ++ y ∷ []) ≡ (contains x xs || str_eq y x)
contains-snoc x y [] = ground arith
contains-snoc x y (z ∷ xs) = ground (arith, contains-snoc x y xs)

pub IsDistinct-snoc :
    (y : String) (xs : List String)
    → IsDistinct xs
    → contains y xs ≡ false
    → IsDistinct (xs ++ y ∷ [])
IsDistinct-snoc y [] h n = (refl, tt)
IsDistinct-snoc y (x ∷ xs) h n =
    ground (arith, IsDistinct-snoc y xs h.1, contains-snoc x y xs, eq_iff x y, eq_iff y x)

-- `set(xs)`, in some order.
abbrev pub dedup : List String → List String
dedup [] = []
dedup (x ∷ xs) = let rest = dedup xs in if contains x rest then rest else x ∷ rest

-- `len(set(xs)) == len(xs)`
abbrev pub all_distinct : List String → Bool
all_distinct [] = true
all_distinct (x ∷ xs) = let rest = all_distinct xs in if contains x xs then false else rest

-- `set(xs) - set(ys)`
abbrev pub without : List String → List String → List String
without xs ys = filter (λ x. not (contains x ys)) xs

pub contains_iff : (x : String) (xs : List String) → (contains x xs ≡ true) ↔ Elem x xs
contains_iff x [] = ground arith
contains_iff x (y ∷ ys) = ground (arith, contains_iff x ys, eq_iff y x)

pub all_distinct_iff : (xs : List String) → (all_distinct xs ≡ true) ↔ IsDistinct xs
all_distinct_iff [] = ground arith
all_distinct_iff (x ∷ xs) = ground (arith, all_distinct_iff xs)
