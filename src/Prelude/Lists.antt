-- ===== src/Prelude/Lists.antt =====
-- Lists measured and searched by native numbers and Boolean tests, under the library's names.
use Prim.Native.Nat.{ℕ, zero, suc, ◌+◌}
use mathlib.Core.Path.{◌≡◌, sym, ◌∙◌}
use mathlib.Core.Logic.{◌⊎◌, inl, inr}
use mathlib.Core.Bool.{Bool, true, false, false≢true}
use mathlib.Core.List.{List, [], ◌∷◌, ◌++◌}
use mathlib.Core.Option.{Option, none, some}
use native.Mathlib.Omega.{arith}
use dunning_agent.Prelude.Tests.{Bool-cases, if◌then◌else◌}

module _ {ℓ} {A : Type ℓ} where
  abbrev pub length : List A → ℕ
  length [] = 0
  length (x ∷ xs) = suc (length xs)

  abbrev pub take : ℕ → List A → List A
  take zero xs = []
  take (suc n) [] = []
  take (suc n) (x ∷ xs) = x ∷ take n xs

  abbrev pub drop : ℕ → List A → List A
  drop zero xs = xs
  drop (suc n) [] = []
  drop (suc n) (x ∷ xs) = drop n xs

  pub length-append : (xs ys : List A) → length (xs ++ ys) ≡ length xs + length ys
  length-append [] ys = omega arith
  length-append (x ∷ xs) ys = omega (arith, length-append xs ys)

  -- `[x for x in xs if test(x)]`
  abbrev pub filter : (A → Bool) → List A → List A
  filter test [] = []
  filter test (x ∷ xs) = let rest = filter test xs in if test x then x ∷ rest else rest

  -- The first element that passes a test.
  abbrev pub find? : (A → Bool) → List A → Option A
  find? test [] = none
  find? test (x ∷ xs) = let rest = find? test xs in if test x then some x else rest

  abbrev pub any : (A → Bool) → List A → Bool
  any test [] = false
  any test (x ∷ xs) = let rest = any test xs in if test x then true else rest

  -- A property of every element, by recursion.
  abbrev pub All {κ} : (A → Type κ) → List A → Type κ
  All P [] = Unit
  All P (x ∷ xs) = P x × All P xs

module _ {A : Type 0} where
  -- Membership, by recursion.
  abbrev pub Elem : A → List A → Type 0
  Elem x [] = ⊥
  Elem x (y ∷ ys) = (x ≡ y) ⊎ Elem x ys

  pub Elem-All : (P : A → Type 0) (x : A) (xs : List A) → All P xs → Elem x xs → P x
  Elem-All P x [] h m = elim m [ ]
  Elem-All P x (y ∷ ys) h (inl e) = rw e h.0
  Elem-All P x (y ∷ ys) h (inr m) = Elem-All P x ys h.1 m

  pub Elem-filter :
      (test : A → Bool) (x : A) (xs : List A)
      → Elem x (filter test xs)
      → Elem x xs × (test x ≡ true)
  Elem-filter test x [] h = absurd h
  Elem-filter test x (y ∷ ys) h = elim (Bool-cases (test y)) [
    | inl e ↦ elim (rw (e, filter) at h) [
      | inl p ↦ (inl p, rw p e)
      | inr m ↦ let rest = Elem-filter test x ys m in (inr rest.0, rest.1)
    ]
    | inr e ↦ let rest = Elem-filter test x ys (rw (e, filter) at h) in (inr rest.0, rest.1)
  ]

  pub filter-All :
      (P : A → Type 0) (test : A → Bool) (xs : List A)
      → All P (filter test xs)
      → All (λ x. test x ≡ true → P x) xs
  filter-All P test [] h = tt
  filter-All P test (x ∷ xs) h = elim (Bool-cases (test x)) [
    | inl e ↦ let h' = rw e at h in (λ _. h'.0, filter-All P test xs h'.1)
    | inr e ↦ (λ t. absurd (false≢true (sym e ∙ t)), filter-All P test xs (rw e at h))
  ]

  pub All-map : (P Q : A → Type 0) (xs : List A) → ((x : A) → P x → Q x) → All P xs → All Q xs
  All-map P Q [] f h = tt
  All-map P Q (x ∷ xs) f h = (f x h.0, All-map P Q xs f h.1)

module _ {ℓ} {A : Type ℓ} (before : A → A → Bool) where
  unfoldable pub insert_by : A → List A → List A
  insert_by a [] = a ∷ []
  insert_by a (b ∷ rest) =
      let further = insert_by a rest in if before b a then b ∷ further else a ∷ b ∷ rest

  -- ORDER BY
  unfoldable pub sort_by : List A → List A
  sort_by [] = []
  sort_by (a ∷ rest) = insert_by a (sort_by rest)
