-- ===== src/PaymentLinks/RoundTrip.antt =====
-- Reading back what `to_decimal` writes.
use dunning_agent.Prelude.{
  ℕ, zero, suc, ◌+◌, ◌-◌, ◌*◌, ◌/◌, ◌%◌, ◌^◌, ◌≤◌, ◌<◌, Bool, true, some, [], ◌∷◌, ◌++◌, ltb,
  length, length-append, lt→ltb, ◌≡◌, refl, arith, All, Bool-cases, inl, inr, ◌⊎◌,
}
use native.Mathlib.Nat.{pow-suc}
use dunning_agent.Prelude.Text.{Codes}
use dunning_agent.PaymentLinks.Decimal.{digits, parse_digits}

-- The number that a run of digits continues.
abbrev pub value_from : ℕ → Codes → ℕ
value_from n [] = n
value_from n (c ∷ s) = value_from (n * 10 + (c - b'0')) s

abbrev pub IsDigit : ℕ → Type 0
IsDigit c = (b'0' ≤ c) × (c ≤ b'9')

value-snoc : (n c : ℕ) (s : Codes) → value_from n (s ++ c ∷ []) ≡ value_from n s * 10 + (c - b'0')
value-snoc n c [] = refl
value-snoc n c (d ∷ s) = value-snoc (n * 10 + (d - b'0')) c s

All-snoc : (c : ℕ) (s : Codes) → All IsDigit s → IsDigit c → All IsDigit (s ++ c ∷ [])
All-snoc c [] hs h = (h, tt)
All-snoc c (d ∷ s) hs h = (hs.0, All-snoc c s hs.1 h)

pub digits-IsDigit : (fuel n : ℕ) → All IsDigit (digits fuel n)
unfolding digits
digits-IsDigit zero n = tt
digits-IsDigit (suc fuel) n = elim (Bool-cases (ltb n 10)) [
  | inl e ↦ rw e (ground arith)
  | inr e ↦ rw e (
      All-snoc (b'0' + n % 10) (digits fuel (n / 10)) (digits-IsDigit fuel (n / 10))
        (omega arith, omega arith))
]

pub digits-value : (fuel n : ℕ) → n < fuel → value_from 0 (digits fuel n) ≡ n
unfolding digits
digits-value zero n h = elim h [ ]
digits-value (suc fuel) n h = elim (Bool-cases (ltb n 10)) [
  | inl e ↦ rw e (ground arith)
  | inr e ↦ rw e (rw value-snoc (ground (arith, digits-value fuel (n / 10))))
]

pub digits-length : (fuel k n : ℕ) → n < 10 ^ suc k → length (digits fuel n) ≤ suc k
unfolding digits
digits-length zero k n h = omega arith
digits-length (suc fuel) zero n h = rw (lt→ltb n 10 (omega (arith, pow-suc 10 0))) (omega arith)
digits-length (suc fuel) (suc k) n h = elim (Bool-cases (ltb n 10)) [
  | inl e ↦ rw e (omega arith)
  | inr e ↦
      rw (e, length-append {0})
        (omega (arith, digits-length fuel k (n / 10) (omega (arith, pow-suc 10 (suc k)))))
]

-- A run of digits is read to its end.
pub parse_digits-digits :
    (after : Bool) (n : ℕ) (s : Codes)
    → All IsDigit s
    → (after ≡ true) ⊎ (0 < length s)
    → parse_digits after n s ≡ some (value_from n s)
unfolding parse_digits
parse_digits-digits after n [] hs h = ground arith
parse_digits-digits after n (c ∷ s) hs h =
    ground (arith, parse_digits-digits true (n * 10 + (c - b'0')) s)
