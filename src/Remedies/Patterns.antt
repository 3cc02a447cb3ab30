-- ===== src/Remedies/Patterns.antt =====
-- The searches of app/voice/reasons.py and app/voice/routes.py: `re.search` for patterns whose
-- alternatives are texts, and the first row of a table whose pattern is found.
use dunning_agent.Prelude.{
  String, Bool, true, false, Option, List, [], ◌∷◌, length, drop, ◌==◌, any, if◌then◌else◌, get_or,
}
use dunning_agent.Prelude.Text.{Codes, codes, strip, lower}
use dunning_agent.PaymentLinks.{starts_with}

-- An alternative of a pattern: a text, or two of them one after the other on a line.
pub data Alternative : Type 0 where
  whole : String → Alternative
  apart : String → String → Alternative

abbrev pub Pattern : Type 0
Pattern = List Alternative

unfoldable pub has : Codes → Codes → Bool
has part [] = starts_with [] part
has part (c ∷ text) = if starts_with (c ∷ text) part then true else has part text

unfoldable pub line : Codes → Codes
line [] = []
line (c ∷ text) = let rest = line text in if c == 10 then [] else c ∷ rest

unfoldable pub has_apart : Codes → Codes → Codes → Bool
has_apart a b [] = false
has_apart a b (c ∷ text) =
    let rest = has_apart a b text in
    if starts_with (c ∷ text) a
    then (if has b (line (drop (length a) (c ∷ text))) then true else rest)
    else rest

unfoldable pub occurs : Codes → Alternative → Bool
occurs text (whole part) = has (codes part) text
occurs text (apart a b) = has_apart (codes a) (codes b) text

-- `re.search(pattern, text)`
unfoldable pub matches : Pattern → Codes → Bool
matches pattern text = any (occurs text) pattern

-- `(failure_reason or "").strip().lower()`
unfoldable pub cleaned : Option String → Codes
cleaned reason = lower (strip (codes (get_or reason "")))

unfoldable pub first_match : {A : Type 0} → List (Pattern × A) → A → Codes → A
first_match [] default text = default
first_match ((pattern, a) ∷ rows) default text =
    let rest = first_match rows default text in if matches pattern text then a else rest

-- The empty text is not searched.
abbrev pub chosen : {A : Type 0} → List (Pattern × A) → A → Codes → A
chosen rows default [] = default
chosen rows default (c ∷ text) = first_match rows default (c ∷ text)
