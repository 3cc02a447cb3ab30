-- ===== src/Flow/Endings.antt =====
-- app/voice/flow.py: the ends of the call, each with the outcome that it records.
use dunning_agent.Prelude.{String, some, [], ◌∷◌}
use dunning_agent.Prelude.Text.{concat}
use dunning_agent.Intents.{CallIntent}
use dunning_agent.Graph.{Node, end}

abbrev pay_now_prompt : String
pay_now_prompt = concat (
    "Confirm you are sending a secure payment link right now, tell them it is for "
    ∷ "{amount_spoken}, thank them, and end the call. Say the amount exactly as written -- "
    ∷ "it is already in spoken form." ∷ [])

abbrev pub pay_now : Node
pay_now = record {
  id = "pay_now";
  kind = end;
  prompt = pay_now_prompt;
  edges = [];
  extracts = [];
  intent = some CallIntent.retry_now;
}

abbrev pay_later_prompt : String
pay_later_prompt = concat (
    "Acknowledge their preferred time, say you will follow up then, thank them and end the "
    ∷ "call. Do not promise an exact hour." ∷ [])

abbrev pub pay_later : Node
pay_later = record {
  id = "pay_later";
  kind = end;
  prompt = pay_later_prompt;
  edges = [];
  extracts = [];
  intent = some CallIntent.retry_later;
}

abbrev declined_prompt : String
declined_prompt = concat (
    "Accept their decision without pushing back even once. Confirm they will not be called "
    ∷ "again about this payment, thank them and end the call." ∷ [])

abbrev pub declined : Node
declined = record {
  id = "declined";
  kind = end;
  prompt = declined_prompt;
  edges = [];
  extracts = [];
  intent = some CallIntent.declined;
}

abbrev wrong_number_prompt : String
wrong_number_prompt = concat (
    "Apologise briefly for the wrong number, say the number will be removed, and end the "
    ∷ "call. Do not reveal any billing details." ∷ [])

abbrev pub wrong_number : Node
wrong_number = record {
  id = "wrong_number";
  kind = end;
  prompt = wrong_number_prompt;
  edges = [];
  extracts = [];
  intent = some CallIntent.wrong_number;
}

abbrev dispute_prompt : String
dispute_prompt = concat (
    "Do not argue and do not try to resolve it. Say a human colleague will review the "
    ∷ "account and get back to them, thank them and end the call." ∷ [])

abbrev pub dispute : Node
dispute = record {
  id = "dispute";
  kind = end;
  prompt = dispute_prompt;
  edges = [];
  extracts = [];
  intent = some CallIntent.dispute;
}
