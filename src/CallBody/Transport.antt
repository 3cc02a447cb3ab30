-- ===== src/CallBody/Transport.antt =====
-- app/voice/call_body.py to app/voice/pipecat_agent.py: a case as it arrives at the agent of Pipecat, as
-- JSON or as the parameters of a stream.
use dunning_agent.Prelude.{
  ℕ, String, Bool, true, false, Option, none, some, [], ◌∷◌, ◌≡◌, refl, subst, ◌∙◌, Bool-cases, inl,
  inr, truthy,
}
use dunning_agent.Prelude.Text.{Codes, codes, strip, lstrip, rstrip, lower, lower_code}
use dunning_agent.Model.{Settings}
use dunning_agent.PaymentLinks.Decimal.{ℤ, pos, to_decimal, parse_int, parse_signed}
use dunning_agent.PaymentLinks.Attribution.{parse_int-to_decimal}
use dunning_agent.Remedies.{spoken_reason}
use dunning_agent.Template.{Context, template_variables, parse, scan, step, fields, missing_in}
use dunning_agent.Graph.{passed, start_node}
use dunning_agent.Graph.Rendering.{
  missing_variables, variables, node_variables, edge_variables, speech_variables,
}
use dunning_agent.Walker.{GraphWalker, begin}
use dunning_agent.Flow.{dunning_flow}
use dunning_agent.CallBody.{
  Field, flag, num, text, Body, stream_parameters, get, is_truthy, case_id, call_context,
  CallContext, context_from_body, context_with, to_int, shown_or, given_or, name_of, optional,
}

case_id-text : (s : Codes) → case_id (some (text s)) ≡ parse_int s
unfolding case_id parse_int parse_signed strip lstrip rstrip
case_id-text [] = refl
case_id-text (c ∷ s) = refl

case_id-to_decimal : (n : ℕ) → case_id (some (text (to_decimal n))) ≡ some (pos n)
case_id-to_decimal n = case_id-text (to_decimal n) ∙ parse_int-to_decimal n

case_id-num : (n : ℕ) → case_id (some (num n)) ≡ some (pos n)
unfolding case_id
case_id-num n = refl

-- The body, by its values.
abbrev pub body_with : ℕ → ℕ → Field → Codes → Codes → Codes → Codes → Codes → Bool → Codes → Body
body_with id paise phone name language company spoken reason halted route =
    ("recovery_case_id", num id)
    ∷ ("phone", phone)
    ∷ ("customer_name", text name)
    ∷ ("preferred_language", text language)
    ∷ ("company_name", text company)
    ∷ ("amount_spoken", text spoken)
    ∷ ("amount_paise", num paise)
    ∷ ("failure_reason", text reason)
    ∷ ("subscription_halted", flag halted)
    ∷ ("suggested_route", text route)
    ∷ []

module _ (settings : Settings) (id paise : ℕ)
    (name language company spoken reason route : Codes) where
  pub same :
      (phone : Option String) (halted : Bool)
      → context_from_body settings (
          stream_parameters
            (body_with id paise (optional phone) name language company spoken reason halted route))
        ≡ context_from_body settings
            (body_with id paise (optional phone) name language company spoken reason halted route)
  unfolding context_from_body stream_parameters get is_truthy strip lstrip rstrip lower lower_code
  same none false = rw (parse_int-to_decimal paise, case_id-to_decimal id, case_id-num id) refl
  same none true = rw (parse_int-to_decimal paise, case_id-to_decimal id, case_id-num id) refl
  same (some p) false = rw (parse_int-to_decimal paise, case_id-to_decimal id, case_id-num id) refl
  same (some p) true = rw (parse_int-to_decimal paise, case_id-to_decimal id, case_id-num id) refl

pub name_of-text : (name : Option String) → (s : Codes) × (name_of name ≡ text s)
name_of-text none = (codes "there", refl)
name_of-text (some n) = elim (Bool-cases (truthy (some n))) [
  | inl e ↦ (codes n, rw e refl)
  | inr e ↦ (codes "there", rw e refl)
]

begin-call_context :
    (name : Codes) (amount : ℤ) (reason language company : Codes) (halted : Bool) (route : Codes)
    (spoken : Option Field)
    → (w : GraphWalker) × (begin dunning_flow
          (call_context name amount reason language company halted route spoken)
        ≡ passed w)
unfolding begin missing_variables variables node_variables edge_variables speech_variables
    template_variables parse scan step fields missing_in start_node call_context
begin-call_context name amount reason language company halted route spoken = (_, refl)

abbrev IsStartable : Context → Type 0
IsStartable values = (w : GraphWalker) × (begin dunning_flow values ≡ passed w)

context_with-begin :
    (settings : Settings) (body : Body) (language : Codes) (amount : Option ℤ) (c : CallContext)
    → context_with settings body language amount ≡ some c
    → IsStartable c.values
context_with-begin settings body language none c h = cc
context_with-begin settings body language (some amount) c h =
    let same : call_context (shown_or (get "customer_name" body) (codes "there")) amount
          (given_or (get "failure_reason" body) (codes (spoken_reason none language))) language
          (shown_or (get "company_name" body) (codes settings.company_name))
          (is_truthy (get "subscription_halted" body))
          (shown_or (get "suggested_route" body) (codes "None")) (get "amount_spoken" body)
        ≡ c.values =
      cc in
    subst (λ v. (w : GraphWalker) × (begin dunning_flow v ≡ passed w)) same
      (begin-call_context _ amount _ language _ _ _ _)

-- Every call whose amount can be read starts: whatever else its body lacks or holds, the context has
-- each variable of the conversation.
pub context_from_body-begin :
    (settings : Settings) (body : Body) (c : CallContext)
    → context_from_body settings body ≡ some c
    → (w : GraphWalker) × (begin dunning_flow c.values ≡ passed w)
unfolding context_from_body
context_from_body-begin settings body c h =
    context_with-begin settings body (given_or (get "preferred_language" body) (codes "hi"))
      (to_int (get "amount_paise" body)) c h
