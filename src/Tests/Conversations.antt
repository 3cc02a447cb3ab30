-- ===== src/Tests/Conversations.antt =====
-- Runs of the program's conversation, of app/voice/graph.py, app/voice/walker.py and app/voice/flow.py,
-- and of the texts of app/voice/reasons.py, app/voice/routes.py and app/voice/spoken.py.
use dunning_agent.Prelude.{
  ℕ, ◌+◌, ◌*◌, ◌≤◌, ◌<◌, String, true, Option, none, some, List, [], ◌∷◌, ◌≡◌, ◌≢◌, ◌↔◌, ◌⊎◌, refl,
  length, is_some, false, Elem, if◌then◌else◌,
}
use dunning_agent.Prelude.Text.{Codes, codes, concat, strip, lower}
use dunning_agent.Template.{Context, template_variables, parse, scan, step, fields, missing_in}
use dunning_agent.Graph.{GraphError, passed, validate, node_at, find_node, start_node}
use dunning_agent.Graph.Validation.{IsWellFormed, validate-IsWellFormed}
use dunning_agent.Graph.Rendering.{
  missing_variables, variables, node_variables, edge_variables, speech_variables,
}
use dunning_agent.Walker.{
  GraphWalker, begin, walk, transition, broken, intent, finished, instructions,
}
use dunning_agent.Walker.Route.{Route, walk-Route}
use dunning_agent.Walker.Replay.{position, accepted_turns, walk-replay}
use dunning_agent.Walker.Moves.{accepted_labels}
use dunning_agent.Walker.Prompts.{walk-instructions}
use dunning_agent.Flow.{dunning_flow, flow_nodes}
use dunning_agent.Flow.Stages.{greet, explain}
use dunning_agent.Flow.Laws.{validate-flow, flow-HasNamedFields, visited-le}
use dunning_agent.Flow.Identity.{is_filled_with_payment, walk-identified}
use dunning_agent.Remedies.{
  Phrasing, spoken_reason, suggested_route, in_language, declined_phrasing, halted_suffix,
  first_match, matches, occurs, has, cleaned,
}
use dunning_agent.PaymentLinks.{starts_with}
use dunning_agent.Remedies.Laws.{agreed, spoken_reason-suggested_route}
use dunning_agent.Spoken.{
  Magnitude, in_words, spoken_amount, rounded_up, magnitude_of, tenths_of, worth, units_for, trim,
  is_clean,
}
use dunning_agent.PaymentLinks.Decimal.{to_decimal}
use dunning_agent.Spoken.Laws.{hear, spoken_amount-bounds}

abbrev context : Context
context =
    (codes "company_name", codes "Acme")
    ∷ (codes "customer_name", codes "Asha")
    ∷ (codes "language_hint", codes "in Hindi")
    ∷ (codes "amount_spoken", codes "499")
    ∷ (codes "failure_reason", codes "no funds")
    ∷ (codes "halt_note", codes "active")
    ∷ (codes "suggested_route", codes "a link")
    ∷ []

abbrev walker : GraphWalker
walker = record {
  graph = dunning_flow;
  context = context;
  node = greet;
  visited = "greet" ∷ [];
  observations = [];
}

started : begin dunning_flow context ≡ passed walker
unfolding begin missing_variables variables node_variables edge_variables speech_variables
    template_variables parse scan step fields missing_in start_node
started = refl

-- The model names a label too early, and then the right one.
abbrev turns : List (String × Option String)
turns = ("pay_now", none) ∷ ("identity_confirmed", some "haan") ∷ []

turns_visited : (walk walker turns).visited ≡ "greet" ∷ "explain" ∷ []
unfolding walk transition node_at find_node
turns_visited = refl

-- A node that nothing leads to.
orphan_found : validate (explain ∷ flow_nodes) ≢ none
unfolding validate
orphan_found h = cc

validate-IsWellFormed_example : (validate flow_nodes ≡ none) ↔ IsWellFormed flow_nodes
validate-IsWellFormed_example = validate-IsWellFormed flow_nodes

walk-Route_example :
    Route dunning_flow.nodes (walk walker turns).visited (walk walker turns).node
    × (is_some (intent (walk walker turns)) ≡ finished (walk walker turns))
    × ((e : GraphError) → (transition (walk walker turns) "acknowledged" none).1 ≢ broken e)
walk-Route_example =
    walk-Route dunning_flow context walker turns "acknowledged" none validate-flow started

walk-replay_example :
    position (walk walker (accepted_turns (walk walker turns).observations))
    ≡ position (walk walker turns)
walk-replay_example = walk-replay dunning_flow context walker turns started

walk-instructions_example : (out : Codes) × (instructions (walk walker turns) ≡ passed out)
walk-instructions_example =
    walk-instructions dunning_flow context walker turns validate-flow flow-HasNamedFields started

visited-le_example : length (walk walker turns).visited ≤ 5
visited-le_example = visited-le context walker turns started

walk-identified_example :
    Elem "identity_confirmed" (accepted_labels (walk walker turns).observations)
    ⊎ (((walk walker turns).node.id ≡ "greet") ⊎ ((walk walker turns).node.id ≡ "wrong_number"))
      × (is_filled_with_payment (walk walker turns).node ≡ false)
walk-identified_example = walk-identified context walker turns started

reason_heard : spoken_reason (some "Your card has EXPIRED.") (codes "en") ≡ "your card has expired"
unfolding spoken_reason first_match matches occurs has cleaned starts_with strip lower
reason_heard = refl

spoken_reason-suggested_route_example :
    (phrasing : Phrasing) × (route : String) × (Elem (phrasing, route) agreed
      ⊎ (phrasing ≡ declined_phrasing))
    × (spoken_reason (some "Insufficient funds") (codes "hinglish")
        ≡ in_language (codes "hinglish") phrasing)
    × (suggested_route (some "Insufficient funds") true
        ≡ concat (route ∷ (if true then halted_suffix else "") ∷ []))
spoken_reason-suggested_route_example =
    spoken_reason-suggested_route (some "Insufficient funds") (codes "hinglish") true

amount_heard : spoken_amount 50_000_000 (codes "hi") ≡ codes "5 लाख रुपये"
unfolding spoken_amount rounded_up magnitude_of tenths_of units_for trim is_clean to_decimal
amount_heard = refl

spoken_amount-bounds_example :
    (numeral : Codes) × (magnitude : Magnitude) × (tenths : ℕ) × (spoken_amount 45_000_000
        (codes "en")
      ≡ in_words (units_for (codes "en")) magnitude numeral)
    × (hear numeral ≡ some tenths)
    × (10 * 45_000_000 ≤ 100 * (tenths * worth magnitude))
    × (100 * (tenths * worth magnitude) < 10 * (45_000_000 + 100))
spoken_amount-bounds_example = spoken_amount-bounds 45_000_000 (codes "en")
