-- ===== src/Tests/Payments.antt =====
-- References of app/payment_links.py, tokens of app/mandate.py and keys of app/cache.py.
use dunning_agent.Prelude.{◌≡◌, refl, arith, some, List, [], ◌∷◌}
use dunning_agent.World.{Token}
use dunning_agent.World.Returns.{Returned}
use dunning_agent.PaymentLinks.{reference_id_for, case_id_from_reference}
use dunning_agent.PaymentLinks.Decimal.{pos}
use dunning_agent.PaymentLinks.Attribution.{case_id-reference}
use dunning_agent.Mandate.{usable_token, is_candidate, later_used, most_recent}
use dunning_agent.Mandate.Tokens.{IsBest, usable_token-IsBest}
use dunning_agent.Cache.{seen, seen_only, forget}
use dunning_agent.Cache.Laws.{cache_total}
use dunning_agent.Tests.Fixtures.{settings, expired_case, token, failing_env, world}

case_id-reference_example :
    case_id_from_reference (some (reference_id_for settings expired_case)) ≡ some (pos 7)
case_id-reference_example = case_id-reference settings expired_case (omega arith)

-- A token used later than the other, and one that has expired.
abbrev later : Token
later = record token { id = "token_2"; used_at = some 9 }

abbrev expired : Token
expired = record token { id = "token_3"; expired_at = some 100 }

abbrev wallet : List Token
wallet = token ∷ later ∷ expired ∷ []

usable_token-IsBest_example : IsBest wallet 49900 1000 (usable_token wallet 49900 1000)
usable_token-IsBest_example = usable_token-IsBest wallet 49900 1000

chosen : usable_token wallet 49900 1000 ≡ some later
unfolding usable_token is_candidate later_used most_recent
chosen = refl

cache_total_example :
    Returned (seen failing_env settings "webhook:evt_1" 60 world).0
    × Returned (seen_only failing_env settings "webhook:evt_1" world).0
    × Returned (forget failing_env settings "webhook:evt_1" world).0
    × ((seen failing_env settings "webhook:evt_1" 60 world).1.db ≡ world.db)
    × ((seen_only failing_env settings "webhook:evt_1" world).1.db ≡ world.db)
    × ((forget failing_env settings "webhook:evt_1" world).1.db ≡ world.db)
cache_total_example = cache_total failing_env settings "webhook:evt_1" 60 world
