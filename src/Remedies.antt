-- ===== src/Remedies.antt =====
-- app/voice/reasons.py and app/voice/routes.py: why a payment failed, and what to do about it, by the
-- first pattern that the failure's text has.
pub mod Laws
mod Patterns
unfoldable pub use Patterns.*
use dunning_agent.Prelude.{
  ℕ, String, Bool, true, false, ◌||◌, Option, none, some, List, [], ◌∷◌, length, drop, ◌==◌, str_eq,
  any, if◌then◌else◌, get_or,
}
use dunning_agent.Prelude.Text.{Codes, codes, codes_eq, concat, strip, lower}
use dunning_agent.PaymentLinks.{starts_with}

-- A wording in Hindi and in English.
pub record Phrasing : Type 0 where
  pub hi : String
  pub en : String

abbrev pub expired_pattern : Pattern
expired_pattern = whole "expir" ∷ []

abbrev pub expired_phrasing : Phrasing
expired_phrasing = record { hi = "आपका कार्ड एक्सपायर हो गया है"; en = "your card has expired" }

abbrev pub insufficient_pattern : Pattern
insufficient_pattern = whole "insufficient" ∷ whole "low balance" ∷ whole "not enough" ∷ []

abbrev pub insufficient_phrasing : Phrasing
insufficient_phrasing = record {
  hi = "खाते में पर्याप्त बैलेंस नहीं था";
  en = "there were insufficient funds";
}

abbrev pub limit_pattern : Pattern
limit_pattern = whole "limit" ∷ whole "exceed" ∷ []

abbrev pub limit_phrasing : Phrasing
limit_phrasing = record { hi = "कार्ड की लिमिट पार हो गई थी"; en = "the card limit was exceeded" }

abbrev pub declined_pattern : Pattern
declined_pattern =
    whole "declin" ∷ whole "refus" ∷ whole "do not honour" ∷ whole "do not honor" ∷ []

abbrev pub declined_phrasing : Phrasing
declined_phrasing = record {
  hi = "बैंक ने पेमेंट अस्वीकार कर दिया";
  en = "the bank declined the payment";
}

abbrev pub mandate_pattern : Pattern
mandate_pattern =
    whole "mandate" ∷ whole "autopay" ∷ whole "emandate" ∷ apart "subscription" "cancel" ∷ []

abbrev pub mandate_phrasing : Phrasing
mandate_phrasing = record {
  hi = "ऑटो-पे मैंडेट अब सक्रिय नहीं है";
  en = "the auto-pay mandate is no longer active";
}

abbrev pub technical_pattern : Pattern
technical_pattern =
    whole "gateway"
    ∷ whole "timeout"
    ∷ whole "timed out"
    ∷ whole "network"
    ∷ whole "technical"
    ∷ whole "could not process"
    ∷ whole "unable to process"
    ∷ []

abbrev pub technical_phrasing : Phrasing
technical_phrasing = record {
  hi = "बैंक की तरफ़ से तकनीकी दिक्कत आ गई थी";
  en = "there was a technical problem at the bank";
}

abbrev pub invalid_pattern : Pattern
invalid_pattern = whole "invalid" ∷ whole "incorrect" ∷ whole "wrong" ∷ []

abbrev pub invalid_phrasing : Phrasing
invalid_phrasing = record {
  hi = "कार्ड की जानकारी में कुछ गड़बड़ थी";
  en = "the card details did not go through";
}

-- _FALLBACK
abbrev pub fallback : Phrasing
fallback = record {
  hi = "बैंक ने पेमेंट पूरा नहीं किया";
  en = "the bank did not complete the payment";
}

-- _PATTERNS
abbrev pub patterns : List (Pattern × Phrasing)
patterns =
    (expired_pattern, expired_phrasing)
    ∷ (insufficient_pattern, insufficient_phrasing)
    ∷ (limit_pattern, limit_phrasing)
    ∷ (declined_pattern, declined_phrasing)
    ∷ (mandate_pattern, mandate_phrasing)
    ∷ (technical_pattern, technical_phrasing)
    ∷ (invalid_pattern, invalid_phrasing)
    ∷ []

abbrev pub in_language : Codes → Phrasing → String
in_language language phrasing = if codes_eq language (codes "en") then phrasing.en else phrasing.hi

-- `spoken_reason`
unfoldable pub spoken_reason : Option String → Codes → String
spoken_reason failure_reason language =
    in_language language (chosen patterns fallback (cleaned failure_reason))

abbrev pub expired_route : String
expired_route = concat (
    "Their card is expired, so retrying the same card will fail again. The link you send "
    ∷ "lets them pay with a different card or UPI -- say that, so they do not simply "
    ∷ "re-enter the dead card." ∷ [])

abbrev pub insufficient_route : String
insufficient_route = concat (
    "There was no balance on the day we tried, which is usually timing rather than "
    ∷ "inability. If they cannot pay this moment, ask which day suits them and offer to try "
    ∷ "again then -- that is often a better recovery than pushing for payment now." ∷ [])

abbrev pub limit_route : String
limit_route = concat (
    "They hit a per-transaction or daily limit, not a lack of money. Suggest paying "
    ∷ "through the link with UPI or another card, which usually clears a card limit." ∷ [])

abbrev pub mandate_route : String
mandate_route = concat (
    "Their auto-pay mandate is no longer active, so future payments will not collect on "
    ∷ "their own either. The link settles what is owed; mention that auto-pay will need "
    ∷ "setting up again so this does not repeat." ∷ [])

abbrev pub technical_route : String
technical_route = concat (
    "This failed on the bank's side, not theirs. It very often succeeds on a second "
    ∷ "attempt, so the link is likely all that is needed -- say so, and do not imply they "
    ∷ "did anything wrong." ∷ [])

abbrev pub invalid_route : String
invalid_route = concat (
    "The card details did not go through. The link lets them pay with a different method, "
    ∷ "which is faster than correcting the saved card." ∷ [])

abbrev pub default_route : String
default_route = concat (
    "Offer the payment link as the way to settle this. Do not speculate about why the "
    ∷ "payment failed beyond the reason you have already given." ∷ [])

abbrev pub halted_suffix : String
halted_suffix = concat (
    " Because the bank has stopped retrying automatically, this will not resolve on its "
    ∷ "own -- paying through the link is now the only way it clears." ∷ [])

-- _ROUTES
abbrev pub routes : List (Pattern × String)
routes =
    (expired_pattern, expired_route)
    ∷ (insufficient_pattern, insufficient_route)
    ∷ (limit_pattern, limit_route)
    ∷ (mandate_pattern, mandate_route)
    ∷ (technical_pattern, technical_route)
    ∷ (invalid_pattern, invalid_route)
    ∷ []

-- `suggested_route`
unfoldable pub suggested_route : Option String → Bool → String
suggested_route failure_reason halted = concat (
    chosen routes default_route (cleaned failure_reason)
    ∷ (if halted then halted_suffix else "")
    ∷ [])
