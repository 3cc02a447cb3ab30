-- ===== src/Spoken/Laws.antt =====
-- app/voice/spoken.py: the amount that is heard is the amount that is owed.
use dunning_agent.Prelude.{
  ℕ, ◌+◌, ◌*◌, ◌/◌, ◌%◌, ◌≤◌, ◌<◌, Option, none, some, [], ◌∷◌, ◌++◌, ◌≡◌, refl, ap, arith, ◌==◌,
  if◌then◌else◌, All, Bool-cases, inl, inr,
}
use dunning_agent.Prelude.Text.{Codes}
use dunning_agent.PaymentLinks.Decimal.{ℤ, pos, to_decimal, parse_int}
use dunning_agent.PaymentLinks.RoundTrip.{IsDigit}
use dunning_agent.PaymentLinks.Attribution.{to_decimal-IsDigit, parse_int-to_decimal}
use dunning_agent.Spoken.{
  Magnitude, worth, units_for, is_clean, magnitude_of, rounded_up, tenths_of, trim, in_words,
  spoken_amount,
}

-- A numeral of at most one decimal place, as a listener takes it: in tenths.
abbrev split_point : Codes → Codes × Option Codes
split_point [] = ([], none)
split_point (c ∷ s) =
    let (whole, rest) = split_point s in if c == b'.' then ([], some s) else (c ∷ whole, rest)

abbrev both_parts : Option ℤ → Option ℤ → Option ℕ
both_parts (some (pos whole)) (some (pos tenth)) = some (whole * 10 + tenth)
both_parts _ _ = none

abbrev heard_parts : Codes × Option Codes → Option ℕ
heard_parts (whole, none) = both_parts (parse_int whole) (some (pos 0))
heard_parts (whole, some tenth) = both_parts (parse_int whole) (parse_int tenth)

abbrev pub hear : Codes → Option ℕ
hear numeral = heard_parts (split_point numeral)

split_point-digits : (s : Codes) → All IsDigit s → split_point s ≡ (s, none)
split_point-digits [] h = refl
split_point-digits (c ∷ s) h = ground (arith, split_point-digits s h.1)

split_point-decimal : (s t : Codes) → All IsDigit s → split_point (s ++ b'.' ∷ t) ≡ (s, some t)
split_point-decimal [] t h = refl
split_point-decimal (c ∷ s) t h = ground (arith, split_point-decimal s t h.1)

hear-trim : (tenths : ℕ) → hear (trim tenths) ≡ some tenths
unfolding trim
hear-trim tenths = elim (Bool-cases (tenths % 10 == 0)) [
  | inl e ↦
      rw
        (
          e,
          split_point-digits (to_decimal (tenths / 10)) (to_decimal-IsDigit (tenths / 10)),
          parse_int-to_decimal (tenths / 10),
        )
        (ap some (ground arith))
  | inr e ↦
      rw
        (
          e,
          split_point-decimal (to_decimal (tenths / 10)) (to_decimal (tenths % 10))
              (to_decimal-IsDigit (tenths / 10)),
          parse_int-to_decimal (tenths / 10),
          parse_int-to_decimal (tenths % 10),
        )
        (ap some (omega arith))
]

rounded_up-bounds :
    (paise : ℕ) → (paise ≤ 100 * rounded_up paise) × (100 * rounded_up paise < paise + 100)
unfolding rounded_up
rounded_up-bounds paise = ground arith

tenths_of-worth :
    (rupees : ℕ)
    → tenths_of (magnitude_of rupees) rupees * worth (magnitude_of rupees) ≡ 10 * rupees
unfolding tenths_of magnitude_of is_clean
tenths_of-worth rupees = ground arith

-- What is spoken is a numeral and the words of a unit, and means the amount owed: the tenths that the
-- numeral is heard as, times the worth of the unit, are never less than the amount and less than one
-- rupee more, in tenths of a paisa. No digit of the rupees is lost to the unit that was chosen.
pub spoken_amount-bounds :
    (paise : ℕ) (language : Codes)
    → (numeral : Codes) × (magnitude : Magnitude) × (tenths : ℕ) × (spoken_amount paise language
        ≡ in_words (units_for language) magnitude numeral)
      × (hear numeral ≡ some tenths)
      × (10 * paise ≤ 100 * (tenths * worth magnitude))
      × (100 * (tenths * worth magnitude) < 10 * (paise + 100))
unfolding spoken_amount
spoken_amount-bounds paise language =
    let rupees = rounded_up paise in
    let magnitude = magnitude_of rupees in
    let tenths = tenths_of magnitude rupees in
    let (below, above) = rounded_up-bounds paise in
    let exact = tenths_of-worth rupees in
    (
      trim tenths,
      magnitude,
      tenths,
      refl,
      hear-trim tenths,
      omega (arith, exact, below, above),
      omega (arith, exact, below, above),
    )
