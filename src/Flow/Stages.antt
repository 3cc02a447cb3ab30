-- ===== src/Flow/Stages.antt =====
-- app/voice/flow.py: the stages of the call that lead on.
use dunning_agent.Prelude.{String, none, some, [], ◌∷◌}
use dunning_agent.Prelude.Text.{concat}
use dunning_agent.Graph.{Node, start, agent}

abbrev greet_prompt : String
greet_prompt = concat (
    "Open the call. Greet them, say you are calling from {company_name}, and confirm you "
    ∷ "are speaking to {customer_name}. Do not mention the failed payment until identity is "
    ∷ "confirmed -- this is someone's billing information." ∷ [])

abbrev pub greet : Node
greet = record {
  id = "greet";
  kind = start;
  prompt = greet_prompt;
  edges =
      record {
        to = "explain";
        condition = "The person confirms they are the customer, or clearly indicates it is them.";
        label = "identity_confirmed";
        speech = none;
      }
      ∷ record {
        to = "wrong_number";
        condition = concat (
            "The person says this is the wrong number, that they are someone else, or that they do "
            ∷ "not know the customer. A QUESTION is not a denial: 'who is this', 'where are you "
            ∷ "calling from', 'what is this about' are people checking who they are talking to, and "
            ∷ "they still need answering. Only take this label when they say the person you asked "
            ∷ "for is not them and not reachable here." ∷ []);
        label = "not_the_customer";
        speech = some "माफ़ कीजिए, मैं नंबर की जाँच करवा लेता हूँ।";
      }
      ∷ [];
  extracts = "identity_confirmed" ∷ [];
  intent = none;
}

abbrev explain_prompt : String
explain_prompt = concat (
    "Tell them their subscription payment of {amount_spoken} did not go through. If it "
    ∷ "helps, mention the reason: {failure_reason}. Be matter of fact, not accusatory -- "
    ∷ "most failures are bank-side, not the customer's fault.\n\n{halt_note}\n\nThen pause for "
    ∷ "their reaction.\n\nIf they ask what they have to do, do NOT tell them to send anything. "
    ∷ "You send the link, they receive it. Say that you will sort it out and move on -- the "
    ∷ "next stage asks about the reason, and the one after that offers the options." ∷ [])

abbrev pub explain : Node
explain = record {
  id = "explain";
  kind = agent;
  prompt = explain_prompt;
  edges =
      record {
        to = "reason_inquiry";
        condition = "The customer acknowledges the failed payment or asks what to do next.";
        label = "acknowledged";
        speech = none;
      }
      ∷ record {
        to = "dispute";
        condition = concat (
            "The customer says the charge is wrong, that they already paid, that they cancelled "
            ∷ "the subscription, or that they never signed up." ∷ []);
        label = "disputes_charge";
        speech = none;
      }
      ∷ [];
  extracts = [];
  intent = none;
}

abbrev reason_inquiry_prompt : String
reason_inquiry_prompt = concat (
    "Ask one short question: do they know why it failed? An expired card, a daily limit, "
    ∷ "or simply not enough balance that day. Do not lecture, do not offer options yet, and "
    ∷ "do not ask twice. This is one question, then you listen." ∷ [])

abbrev pub reason_inquiry : Node
reason_inquiry = record {
  id = "reason_inquiry";
  kind = agent;
  prompt = reason_inquiry_prompt;
  edges =
      record {
        to = "ask_intent";
        condition = concat (
            "The customer gives any reason, says they do not know, asks to get on with it, or asks "
            ∷ "what they should do about it." ∷ []);
        label = "reason_given";
        speech = none;
      }
      ∷ record {
        to = "pay_later";
        condition = concat (
            "The customer says they cannot afford it right now, are short of money, have lost "
            ∷ "work, or are in financial trouble." ∷ []);
        label = "financial_difficulty";
        speech = none;
      }
      ∷ record {
        to = "dispute";
        condition = concat (
            "The customer says the charge is wrong, that they already paid, or that they cancelled "
            ∷ "the subscription." ∷ []);
        label = "disputes_charge";
        speech = none;
      }
      ∷ [];
  extracts = "failure_cause" ∷ [];
  intent = none;
}

abbrev ask_intent_prompt : String
ask_intent_prompt = concat (
    "Offer exactly three options and let them choose: pay now via a link you send on SMS, "
    ∷ "pay later at a time they pick, or stop the subscription. Do not push. Do not offer a "
    ∷ "discount -- you have no authority to change the amount.\n\nThe right remedy for this "
    ∷ "particular failure has already been decided; work it into what you offer rather than "
    ∷ "inventing your own:\n{suggested_route}\n\nIf the mandate itself is dead -- cancelled, "
    ∷ "revoked, or the card behind it gone -- also call `send_mandate_link`. The payment "
    ∷ "link settles what is owed; only that one stops the same failure next cycle. Both can "
    ∷ "be right on one call.\n\nIf they agree to pay now, call the `send_payment_link` tool "
    ∷ "FIRST and wait for its result. Only say the link has been sent once that tool "
    ∷ "confirms it. Never promise a link you have not actually sent. Then call `transition` "
    ∷ "with `pay_now`: sending a link is not the same as recording that they agreed to pay, "
    ∷ "and a call that ends here counts as one where nobody found out what the customer "
    ∷ "wanted." ∷ [])

abbrev pub ask_intent : Node
ask_intent = record {
  id = "ask_intent";
  kind = agent;
  prompt = ask_intent_prompt;
  edges =
      record {
        to = "pay_now";
        condition = "The customer wants to pay now, or agrees to receive a payment link.";
        label = "pay_now";
        speech = some "बिल्कुल, मैं अभी आपको लिंक भेज देता हूँ।";
      }
      ∷ record {
        to = "pay_later";
        condition = concat (
            "The customer wants to pay later, asks us to call back, or names a specific day or "
            ∷ "time." ∷ []);
        label = "pay_later";
        speech = none;
      }
      ∷ record {
        to = "declined";
        condition = concat (
            "The customer refuses to pay, wants to cancel the subscription, or asks not to be "
            ∷ "contacted again." ∷ []);
        label = "declined";
        speech = none;
      }
      ∷ record {
        to = "pay_later";
        condition = concat (
            "The customer says they cannot afford it right now or are short of money. This is not "
            ∷ "a refusal -- do not treat it as one." ∷ []);
        label = "financial_difficulty";
        speech = none;
      }
      ∷ record {
        to = "dispute";
        condition = "The customer disputes the charge or says they already paid.";
        label = "disputes_charge";
        speech = none;
      }
      ∷ [];
  extracts = "preferred_time" ∷ [];
  intent = none;
}
