-- ===== src/Tests/Calls.antt =====
-- Runs of app/voice/persistence.py, app/voice/amd.py and the routes of app/webhooks.
use dunning_agent.Prelude.{◌≢◌, inl, String, false, none, some, [], ◌∷◌, ◌≡◌, refl}
use dunning_agent.Prelude.Text.{Codes, codes, strip, lstrip, rstrip, lower, lower_code}
use dunning_agent.Template.{value_of}
use dunning_agent.Model.{VoiceCall, CallStatus}
use dunning_agent.World.{
  World, Exn, other_error, raise, ok, Exec, pure, get_case, get_voice_call, put_voice_call,
  put_case, log_action,
}
use dunning_agent.Intents.{CallIntent}
use dunning_agent.Outcomes.{CallResult}
use dunning_agent.Calls.{open_call_record, finalise_call, send_payment_link_now}
use dunning_agent.Calls.Record.{IsRecord}
use dunning_agent.Calls.Laws.{open_call_record-finalise_call}
use dunning_agent.Calls.Links.{IsAnswered, send_payment_link_now-IsAnswered}
use dunning_agent.Amd.{
  is_machine, apply_amd_result, answering_machine_detection, Callback, hung_up, signed_text,
  verify_twilio_signature, signed_url, call_by_sid,
}
use dunning_agent.Amd.Laws.{answering_machine_detection-hung_up}
use dunning_agent.Amd.Unmatched.{HasNoSids, open_call_record-apply_amd_result}
use dunning_agent.Tests.Fixtures.{env, settings, world, customer, expired_case}
use dunning_agent.PaymentLinks.Decimal.{pos, parse_int, parse_signed, parse_digits}
use dunning_agent.Graph.{passed}
use dunning_agent.Walker.{GraphWalker, begin}
use dunning_agent.Flow.{dunning_flow}
use dunning_agent.Remedies.{spoken_reason}
use dunning_agent.CallBody.{
  Body, text, call_body, stream_parameters, call_context, CallContext, context_from_body, get,
  is_truthy, case_id,
}
use dunning_agent.CallBody.Livekit.{livekit_context}
use dunning_agent.CallBody.Carriers.{call_body-Agree}
use dunning_agent.CallBody.Transport.{context_from_body-begin}

abbrev reason : Exn → String
reason e = "failed"

abbrev agreed_to_pay : CallResult
agreed_to_pay = record {
  intent = CallIntent.retry_now;
  status = CallStatus.completed;
  final_node_id = some "pay_now";
  transcript = none;
  duration_seconds = some 40;
  answered_at = none;
  error = none;
  transitions = none;
}

found : get_case expired_case.id world.db ≡ some expired_case
unfolding get_case
found = refl

no_call : get_voice_call 1 world.db ≡ none
unfolding get_voice_call
no_call = refl

open_call_record-finalise_call_example :
    let (opened, w') =
      open_call_record env settings none reason (some expired_case.id) "room" none "twilio" world in
    let (_, w'') =
      finalise_call env settings none reason opened (some expired_case.id) agreed_to_pay false w' in
    (opened ≡ some 1)
    × ((row : VoiceCall) × (get_voice_call 1 w''.db ≡ some row)
        × IsRecord expired_case.id "room" none "twilio" agreed_to_pay (env.clock world.reads) row)
open_call_record-finalise_call_example =
    open_call_record-finalise_call env settings reason expired_case.id expired_case "room" none
      "twilio" agreed_to_pay false world (λ h. cc) (λ h. cc) no_call found

send_payment_link_now-IsAnswered_example :
    IsAnswered expired_case.id world.db
      (send_payment_link_now env settings none reason (some expired_case.id) world)
send_payment_link_now-IsAnswered_example =
    send_payment_link_now-IsAnswered env settings reason expired_case.id world none

-- A call with a SID.
abbrev sid_call : VoiceCall
sid_call = record {
  id = 1;
  recovery_case_id = expired_case.id;
  provider = "twilio";
  room_name = none;
  call_id = some "CA1";
  dialled_number = none;
  status = CallStatus.initiated;
  answered_at = none;
  ended_at = none;
  duration_seconds = none;
  detected_intent = none;
  final_node_id = none;
  transitions = none;
  transcript = none;
  error = none;
}

abbrev called : World
called = record world { db = record world.db { voice_calls = sid_call ∷ [] } }

abbrev sign : Codes → Codes → Codes
sign token signed = token

abbrev hang_up : Codes → Exec (Unit {0})
hang_up sid = pure tt

abbrev request : Callback
request = record {
  url = codes "https://x/amd";
  params = (codes "CallSid", codes "CA1") ∷ (codes "AnsweredBy", codes "fax") ∷ [];
  signature = some (codes "token");
}

hangs_up :
    (answering_machine_detection sign hang_up [] (codes "token") request called).0 ≡ ok hung_up
unfolding answering_machine_detection verify_twilio_signature signed_text value_of apply_amd_result
    call_by_sid get_case log_action is_machine strip lstrip rstrip lower lower_code put_voice_call
    put_case
hangs_up = refl

-- The same request without Twilio's signature, and a way of hanging up that fails.
abbrev forged : Callback
forged = record request { signature = some (codes "forged") }

abbrev cannot_hang_up : Codes → Exec (Unit {0})
cannot_hang_up sid = raise other_error

unsigned :
    verify_twilio_signature sign
      (signed_url sign hang_up [] (codes "token") forged.url)
      forged.params
      forged.signature
      (codes "token")
    ≡ false
unfolding verify_twilio_signature signed_text
unsigned = refl

answering_machine_detection-hung_up_example :
    (answering_machine_detection sign hang_up [] (codes "token") forged called
      ≡ answering_machine_detection sign cannot_hang_up [] (codes "token") forged called)
    × ((answering_machine_detection sign hang_up [] (codes "token") forged called).0 ≢ ok hung_up)
answering_machine_detection-hung_up_example =
    answering_machine_detection-hung_up sign hang_up [] (codes "token") cannot_hang_up forged called
      (inl unsigned)

open_call_record-apply_amd_result_example :
    let opened =
      open_call_record env settings none reason (some expired_case.id) "room" none "twilio" world in
    HasNoSids opened.1.db.voice_calls
    × (apply_amd_result (codes "CA1") (some (codes "machine_start")) opened.1 ≡ (ok none, opened.1))
open_call_record-apply_amd_result_example =
    open_call_record-apply_amd_result env settings none reason (some expired_case.id) "room" none
      "twilio" (codes "CA1") (some (codes "machine_start")) world tt

call_body-Agree_example :
    (call : CallContext) × (context_from_body settings
        (stream_parameters (call_body expired_case customer "Acme"))
      ≡ some call)
    × (livekit_context settings (call_body expired_case customer "Acme") ≡ some call.values)
    × (call.recovery_case_id ≡ some (pos expired_case.id))
call_body-Agree_example = call_body-Agree settings expired_case customer "Acme"

-- A body that holds nothing but the amount.
abbrev bare_body : Body
bare_body = ("amount_paise", text (codes "49900")) ∷ []

abbrev bare_context : CallContext
bare_context = record {
  values =
      call_context (codes "there") (pos 49900) (codes (spoken_reason none (codes "hi")))
        (codes "hi") (codes settings.company_name) false (codes "None") none;
  language = codes "hi";
  amount_paise = pos 49900;
  recovery_case_id = none;
  phone = none;
}

bare_read : context_from_body settings bare_body ≡ some bare_context
unfolding context_from_body get is_truthy case_id parse_int parse_signed parse_digits strip lstrip
    rstrip
bare_read = refl

context_from_body-begin_example :
    (w : GraphWalker) × (begin dunning_flow bare_context.values ≡ passed w)
context_from_body-begin_example = context_from_body-begin settings bare_body bare_context bare_read
