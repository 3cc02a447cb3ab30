-- ===== src/Tests/Sessions.antt =====
-- A session of app/voice/pipecat_agent.py: the model misses the label, and the customer hears nothing.
use dunning_agent.Prelude.{
  ℕ, ◌+◌, ◌*◌, ◌≤◌, String, false, Option, none, some, List, [], ◌∷◌, ◌≡◌, refl,
}
use dunning_agent.Model.{VoiceCall}
use dunning_agent.World.{World, Exn, get_case, get_voice_call}
use dunning_agent.Walker.{transition}
use dunning_agent.Flow.{dunning_flow}
use dunning_agent.Flow.Stages.{greet}
use dunning_agent.Calls.{new_call}
use dunning_agent.Session.{
  DunningSession, on_transition, reject_transition, converse, note_tts_failure, finalise,
}
use dunning_agent.Session.Laws.{asked_again, not_refused, asked_again-converse}
use dunning_agent.Session.Records.{Recorded, ending, finalise-Recorded}
use dunning_agent.Tests.Fixtures.{env, settings, world, expired_case}

abbrev session : DunningSession
session = record {
  walker = record {
    graph = dunning_flow;
    context = [];
    node = greet;
    visited = "greet" ∷ [];
    observations = [];
  };
  finished = false;
  recovery_case_id = some expired_case.id;
  voice_call_id = some 1;
  started_at = 0;
  finalised = false;
  rejections = 0;
  tts_failures = [];
  backchannel_gate = none;
}

abbrev turns : List (String × Option String)
turns = ("pay_now", none) ∷ ("paid", none) ∷ ("thanks", none) ∷ []

turns_asked : asked_again (converse session turns).1 ≡ 2
unfolding converse on_transition transition reject_transition
turns_asked = refl

asked_again-converse_example :
    asked_again (converse session turns).1 ≤ 2 + 2 * not_refused (converse session turns).1
asked_again-converse_example = asked_again-converse session turns

abbrev call : VoiceCall
call = new_call expired_case "room" none "twilio" 1

abbrev called : World
called = record world { db = record world.db { voice_calls = call ∷ [] } }

abbrev muted : DunningSession
muted = record session { tts_failures = "quota" ∷ [] }

abbrev shown : ℕ → String
shown n = "1"

abbrev reason : Exn → String
reason e = "failed"

found : get_case expired_case.id called.db ≡ some expired_case
unfolding get_case
found = refl

on_record : get_voice_call 1 called.db ≡ some call
unfolding get_voice_call new_call
on_record = refl

same : call.id ≡ 1
unfolding new_call
same = refl

finalise-Recorded_example :
    let (s', w') = finalise shown none env settings none reason muted called in
    Recorded 1 (ending ("quota" ∷ []) muted) w'
    × (finalise shown none env settings none reason (note_tts_failure s' "quota") w'
        ≡ (note_tts_failure s' "quota", w'))
finalise-Recorded_example =
    finalise-Recorded shown none env settings reason muted expired_case.id 1 expired_case call
      "quota" called refl refl refl (λ h. cc) (λ h. cc) same found on_record
