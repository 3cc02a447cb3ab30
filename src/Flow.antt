-- ===== src/Flow.antt =====
-- app/voice/flow.py: the conversation of the program, and the texts that its context is filled with.
pub mod Stages
pub mod Endings
pub mod Laws
pub mod Identity
use dunning_agent.Prelude.{
  String, Bool, true, false, Option, none, some, List, [], ◌∷◌, ◌++◌, str_eq, if◌then◌else◌, get_or,
}
use dunning_agent.Prelude.Text.{Codes, codes, codes_eq, concat}
use dunning_agent.Template.{Context, value_of, format}
use dunning_agent.Graph.{Node, ConversationGraph}
use dunning_agent.Flow.Stages.{greet, explain, reason_inquiry, ask_intent}
use dunning_agent.Flow.Endings.{pay_now, pay_later, declined, wrong_number, dispute}

abbrev language_rule : String
language_rule = concat (
    "LANGUAGE -- this rule overrides every other instruction.\n\nSCRIPT: Write every Hindi "
    ∷ "word in Devanagari. Never romanise Hindi. Do not write\n\"haan ji\", \"aapka payment\", "
    ∷ "\"link bhej deta hoon\" -- write \"हाँ जी\", \"आपका\nपेमेंट\", \"लिंक भेज देता हूँ\". Everyday "
    ∷ "English loanwords that Hindi speakers use\nare written in Devanagari too: लिंक, "
    ∷ "पेमेंट, कार्ड, बैंक, सब्सक्रिप्शन. This\nholds even when the customer types romanised "
    ∷ "Hindi at you -- read their meaning,\nanswer in Devanagari.\n\nLANGUAGE: If the customer "
    ∷ "speaks Hindi, or Hindi mixed with English, answer in\nHindi in Devanagari. Only if "
    ∷ "they speak plain English throughout should you\nanswer in English. Judge this from "
    ∷ "what they actually just said, not from their\nname or where they are calling from." ∷ [])

abbrev style_opening : String
style_opening = concat (
    "You are a polite billing assistant for {company_name}, calling\n{customer_name} about "
    ∷ "a subscription payment that failed.\n\n" ∷ [])

abbrev style_rest : String
style_rest = concat (
    "\n\nSpeak {language_hint}, and follow the language rule above on every turn.\n\nKeep "
    ∷ "every turn to one or two short sentences -- this is a phone call, not an\nessay. Never "
    ∷ "ask for card, CVV, OTP or UPI PIN details; the customer pays through\na secure link we "
    ∷ "send, never over the phone. If the customer sounds annoyed, stay\ncalm and offer to "
    ∷ "end the call.\n\nThe call moves through stages, and you are told what to do at each "
    ∷ "one. Act on\nthe MOST RECENT stage instruction you have been given -- including one "
    ∷ "that\narrives as the result of the `transition` tool. A stage you have already left is\n"
    ∷ "finished: never repeat it, and never greet or introduce yourself twice.\n\nTwo tools "
    ∷ "are available at EVERY stage, not only where a stage mentions them,\nbecause a "
    ∷ "customer asks a question when they think of it and not when the\nscript expects it:\n\n* "
    ∷ "`send_payment_link` -- when they want to settle what is owed.\n* `send_mandate_link` "
    ∷ "-- when they ask how to restore auto-pay, re-authorise a\n  mandate, or set up UPI "
    ∷ "autopay again. Answer that question the moment it is\n  asked, whatever stage you are "
    ∷ "in, then carry on where you were.\n\nNever say a link has been sent unless the tool has "
    ∷ "told you it was." ∷ [])

-- SYSTEM_STYLE
abbrev system_style : String
system_style = concat (style_opening ∷ language_rule ∷ style_rest ∷ [])

abbrev pub flow_nodes : List Node
flow_nodes =
    greet ∷ explain ∷ reason_inquiry ∷ ask_intent ∷ pay_now ∷ pay_later ∷ declined ∷ wrong_number
    ∷ dispute ∷ []

-- DUNNING_FLOW
abbrev pub dunning_flow : ConversationGraph
dunning_flow = record { nodes = flow_nodes; preamble = system_style }

abbrev greeting_hi : String
greeting_hi = concat (
    "नमस्ते, मैं {company_name} से बात कर रहा हूँ। क्या मेरी बात {customer_name} से हो रही " ∷ "है?"
    ∷ [])

abbrev greeting_en : String
greeting_en = "Hello, I am calling from {company_name}. Am I speaking with {customer_name}?"

-- `GREETING.get(language, GREETING["hi"])`; "hi" and "hinglish" have one text.
abbrev greeting_template : Codes → String
greeting_template language = if codes_eq language (codes "en") then greeting_en else greeting_hi

abbrev name_or : String → String → Context → Codes
name_or key default context = get_or (value_of (codes key) context) (codes default)

-- `greeting_for`
unfoldable pub greeting_for : Codes → Context → Option Codes
greeting_for language context = format (codes (greeting_template language)) (
    (codes "company_name", name_or "company_name" "we" context)
    ∷ (codes "customer_name", name_or "customer_name" "you" context)
    ∷ [])

abbrev hint_hi : String
hint_hi = "in simple, everyday Hindi, written in Devanagari"

abbrev hint_hinglish : String
hint_hinglish = concat (
    "in everyday spoken Hindi that naturally uses common English words (लिंक, पेमेंट, "
    ∷ "कार्ड), all written in Devanagari" ∷ [])

abbrev hint_en : String
hint_en = "in clear Indian English"

abbrev hint_for : Codes → String
hint_for key =
    if codes_eq key (codes "hinglish")
    then hint_hinglish
    else if codes_eq key (codes "en")
    then hint_en
    else hint_hi

abbrev key_of : Option Codes → Codes
key_of none = codes "hi"
key_of (some []) = codes "hi"
key_of (some (c ∷ language)) = c ∷ language

-- `language_hint`
unfoldable pub language_hint : Option Codes → String
language_hint preferred_language = hint_for (key_of preferred_language)

abbrev halted_note : String
halted_note = concat (
    "Their bank has stopped retrying this payment automatically, so the subscription will "
    ∷ "not restart on its own. Say this plainly and only once -- it is a fact, not a threat, "
    ∷ "and it is the reason paying today actually matters. Do not name a cut-off date; you "
    ∷ "do not have one." ∷ [])

abbrev active_note : String
active_note = concat (
    "The subscription is still active and the bank may retry on its own. Do not suggest "
    ∷ "their service is at risk -- it is not." ∷ [])

-- `halt_note`
unfoldable pub halt_note : Option Bool → String
halt_note none = active_note
halt_note (some halted) = if halted then halted_note else active_note
