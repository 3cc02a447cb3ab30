-- ===== src/PaymentLinks/Attribution.antt =====
-- Reading references back: `case_id_from_reference` after `reference_id_for`.
use dunning_agent.Prelude.{
  ℕ, zero, suc, ◌^◌, ◌≤◌, ◌<◌, false, some, [], ◌∷◌, ◌++◌, ltb, length, length-append, ◌≡◌, refl,
  arith, All, Bool-cases, inl, inr, take,
}
use dunning_agent.Prelude.Text.{Codes, codes, strip, rstrip}
use dunning_agent.Model.{Settings, RecoveryCase}
use dunning_agent.PaymentLinks.{
  reference_prefix, suffix, reference_id_for, first_segment, starts_with, case_id_from_reference,
}
use dunning_agent.PaymentLinks.Decimal.{
  pos, to_decimal, parse_digits, parse_int, parse_signed, positive,
}
use dunning_agent.PaymentLinks.RoundTrip.{
  IsDigit, value_from, digits-IsDigit, digits-value, digits-length, parse_digits-digits,
}

-- The segment before the first dash is kept by a cut that is long enough for it.
first_segment-take :
    (k : ℕ) (s rest : Codes)
    → All IsDigit s
    → length s ≤ k
    → first_segment (take k (s ++ b'-' ∷ rest)) ≡ s
unfolding first_segment
first_segment-take zero [] rest hs h = refl
first_segment-take (suc k) [] rest hs h = refl
first_segment-take zero (c ∷ s) rest hs h = absurd (omega arith)
first_segment-take (suc k) (c ∷ s) rest hs h = ground (arith, first_segment-take k s rest)

first_segment-digits : (s : Codes) → All IsDigit s → first_segment s ≡ s
unfolding first_segment
first_segment-digits [] hs = refl
first_segment-digits (c ∷ s) hs = ground (arith, first_segment-digits s)

-- Digits are no white space, so `strip` keeps them.
rstrip-digits : (s : Codes) → All IsDigit s → rstrip s ≡ s
unfolding rstrip
rstrip-digits [] hs = refl
rstrip-digits (c ∷ s) hs = ground (arith, rstrip-digits s)

strip-digits : (s : Codes) → All IsDigit s → strip s ≡ s
unfolding strip
strip-digits [] hs = refl
strip-digits (c ∷ s) hs = ground (arith, rstrip-digits s hs.1)

parse_signed-digits :
    (c : ℕ) (s : Codes) → IsDigit c → parse_signed (c ∷ s) ≡ positive (parse_digits false 0 (c ∷ s))
unfolding parse_signed
parse_signed-digits c s h = ground arith

parse_int-digits :
    (s : Codes) → All IsDigit s → 0 < length s → parse_int s ≡ some (pos (value_from 0 s))
parse_int-digits [] hs h = absurd (omega arith)
parse_int-digits (c ∷ s) hs h =
    let stripped = strip-digits (c ∷ s) hs in
    let parsed = parse_digits-digits false 0 (c ∷ s) hs (inr (omega arith)) in
    unfold parse_int in rw (stripped, parse_signed-digits c s hs.0, parsed)

to_decimal-ne-nil : (n : ℕ) → 0 < length (to_decimal n)
unfolding to_decimal
to_decimal-ne-nil n = elim (Bool-cases (ltb n 10)) [
  | inl e ↦ rw e (omega arith)
  | inr e ↦ rw (e, length-append {0}) (omega arith)
]

pub to_decimal-IsDigit : (n : ℕ) → All IsDigit (to_decimal n)
to_decimal-IsDigit n = unfold to_decimal in digits-IsDigit (suc n) n

to_decimal-value : (n : ℕ) → value_from 0 (to_decimal n) ≡ n
to_decimal-value n = unfold to_decimal in digits-value (suc n) n (omega arith)

to_decimal-length : (k n : ℕ) → n < 10 ^ suc k → length (to_decimal n) ≤ suc k
to_decimal-length k n h = unfold to_decimal in digits-length (suc n) k n h

-- Reading back what is printed gives the number.
pub parse_int-to_decimal : (n : ℕ) → parse_int (to_decimal n) ≡ some (pos n)
parse_int-to_decimal n = rw (
  parse_int-digits (to_decimal n) (to_decimal-IsDigit n) (to_decimal-ne-nil n),
  to_decimal-value n,
)

-- Every reference that is issued for a case leads back to that case, whatever the attempt, the
-- namespace and the cut at forty characters: the case id has at most 31 digits.
pub case_id-reference :
    (settings : Settings) (case : RecoveryCase)
    → case.id < 10 ^ 31
    → case_id_from_reference (some (reference_id_for settings case)) ≡ some (pos case.id)
unfolding case_id_from_reference reference_id_for reference_prefix starts_with
case_id-reference settings case h =
    rw
      (first_segment-take 31 (to_decimal case.id)
        (to_decimal case.attempt_count ++ suffix (strip settings.payment_reference_namespace))
        (to_decimal-IsDigit case.id) (to_decimal-length 30 case.id h))
      (parse_int-to_decimal case.id)

-- A reference of the format that has no attempt, `recovery-7`, leads to its case too.
case_id-reference_old :
    (n : ℕ) → case_id_from_reference (some (codes "recovery-" ++ to_decimal n)) ≡ some (pos n)
unfolding case_id_from_reference reference_prefix starts_with
case_id-reference_old n =
    rw (first_segment-digits (to_decimal n) (to_decimal-IsDigit n)) (parse_int-to_decimal n)
