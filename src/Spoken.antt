-- ===== src/Spoken.antt =====
-- app/voice/spoken.py: an amount as a voice reads it. An amount in paise that is below zero is zero.
-- A magnitude is counted in tenths of its unit; `Decimal` is exact for amounts of up to 28 digits.
pub mod Laws
use dunning_agent.Prelude.{
  ℕ, suc, ◌+◌, ◌*◌, ◌/◌, ◌%◌, String, Bool, true, false, ◌&&◌, List, [], ◌∷◌, ◌++◌, leb, ltb, ◌==◌,
  str_eq, if◌then◌else◌,
}
use dunning_agent.Prelude.Text.{Codes, codes, codes_eq}
use dunning_agent.PaymentLinks.Decimal.{to_decimal}

pub record Units : Type 0 where
  pub thousand : String
  pub lakh : String
  pub crore : String
  pub rupees : String

abbrev hindi_units : Units
hindi_units = record { thousand = "हज़ार"; lakh = "लाख"; crore = "करोड़"; rupees = "रुपये" }

abbrev english_units : Units
english_units = record { thousand = "thousand"; lakh = "lakh"; crore = "crore"; rupees = "rupees" }

-- `_UNITS.get(language or "hi", _UNITS["hi"])`; "hi" and "hinglish" have the same words.
unfoldable pub units_for : Codes → Units
units_for language = if codes_eq language (codes "en") then english_units else hindi_units

pub data Magnitude : Type 0 where
  crores lakhs thousands ones : Magnitude

-- _CRORE, _LAKH, _THOUSAND
abbrev pub worth : Magnitude → ℕ
worth crores = 10_000_000
worth lakhs = 100_000
worth thousands = 1_000
worth ones = 1

-- `_is_clean`
unfoldable pub is_clean : ℕ → ℕ → Bool
is_clean rupees unit = rupees * 10 % unit == 0

-- The conditions of `spoken_amount`, in order.
unfoldable pub magnitude_of : ℕ → Magnitude
magnitude_of rupees =
    if leb (worth crores) rupees && is_clean rupees (worth crores)
    then crores
    else if leb (worth lakhs) rupees && is_clean rupees (worth lakhs)
    then lakhs
    else if leb (worth thousands) rupees && rupees % worth thousands == 0
    then thousands
    else ones

-- The paise are rounded up to a rupee.
unfoldable pub rounded_up : ℕ → ℕ
rounded_up paise = if paise % 100 == 0 then paise / 100 else paise / 100 + 1

-- `Decimal(rupees) / unit`, in tenths
unfoldable pub tenths_of : Magnitude → ℕ → ℕ
tenths_of crores rupees = rupees * 10 / 10_000_000
tenths_of lakhs rupees = rupees * 10 / 100_000
tenths_of thousands rupees = rupees * 10 / 1_000
tenths_of ones rupees = rupees * 10

-- `_trim`
unfoldable pub trim : ℕ → Codes
trim tenths =
    if tenths % 10 == 0
    then to_decimal (tenths / 10)
    else to_decimal (tenths / 10) ++ (b'.' ∷ to_decimal (tenths % 10))

abbrev spaced : Codes → Codes → Codes
spaced a b = a ++ (b' ' ∷ b)

abbrev pub in_words : Units → Magnitude → Codes → Codes
in_words units crores amount = spaced amount (spaced (codes units.crore) (codes units.rupees))
in_words units lakhs amount = spaced amount (spaced (codes units.lakh) (codes units.rupees))
in_words units thousands amount = spaced amount (spaced (codes units.thousand) (codes units.rupees))
in_words units ones amount = spaced amount (codes units.rupees)

-- `spoken_amount`
unfoldable pub spoken_amount : ℕ → Codes → Codes
spoken_amount paise language =
    let rupees = rounded_up paise in
    let magnitude = magnitude_of rupees in
    in_words (units_for language) magnitude (trim (tenths_of magnitude rupees))
