-- ===== src/CallBody/Carriers.antt =====
-- app/voice/call_body.py over Twilio to app/voice/pipecat_agent.py, and over LiveKit to
-- app/voice/agent.py.
use dunning_agent.Prelude.{
  ℕ, String, Bool, true, false, Option, some, List, [], ◌∷◌, ◌≡◌, refl, All, Bool-cases, inl, inr,
  is_some,
}
use dunning_agent.Prelude.Text.{Codes, codes, codes_eq, concat}
use dunning_agent.Model.{Settings, Customer, RecoveryCase}
use dunning_agent.PaymentLinks.Decimal.{pos}
use dunning_agent.Spoken.{spoken_amount, units_for}
use dunning_agent.Remedies.{
  Phrasing, Pattern, matches, first_match, chosen, patterns, fallback, routes, default_route,
  halted_suffix, in_language, spoken_reason, suggested_route, cleaned,
}
use dunning_agent.Flow.{language_hint, halt_note}
use dunning_agent.CallBody.{
  Body, call_body, stream_parameters, get, is_truthy, case_id, call_context, CallContext,
  context_from_body, optional,
}
use dunning_agent.CallBody.Transport.{body_with, same, name_of-text}
use dunning_agent.CallBody.Livekit.{livekit_context}

-- A text that is not empty.
abbrev IsGiven : Codes → Type 0
IsGiven s = (c : ℕ) × (rest : Codes) × (s ≡ c ∷ rest)

first_match-All :
    {A : Type 0} (P : A → Type 0) (table : List (Pattern × A)) (other : A) (s : Codes)
    → All (λ entry. P entry.1) table
    → P other
    → P (first_match table other s)
unfolding first_match
first_match-All P [] other s all given = given
first_match-All P ((pattern, a) ∷ table) other s all given = elim (Bool-cases (matches pattern s)) [
  | inl e ↦ rw e (all.0)
  | inr e ↦ rw e (first_match-All P table other s (all.1) given)
]

chosen-All :
    {A : Type 0} (P : A → Type 0) (table : List (Pattern × A)) (other : A) (s : Codes)
    → All (λ entry. P entry.1) table
    → P other
    → P (chosen table other s)
chosen-All P table other [] all given = given
chosen-All P table other (c ∷ s) all given = first_match-All P table other (c ∷ s) all given

abbrev IsPhrased : Phrasing → Type 0
IsPhrased phrasing = IsGiven (codes phrasing.hi) × IsGiven (codes phrasing.en)

in_language-IsGiven :
    (language : Codes) (phrasing : Phrasing)
    → IsPhrased phrasing
    → IsGiven (codes (in_language language phrasing))
in_language-IsGiven language phrasing (hi, en) =
    elim (Bool-cases (codes_eq language (codes "en"))) [ inl e ↦ rw e en | inr e ↦ rw e hi ]

spoken_reason-IsGiven :
    (reason : Option String) (language : Codes) → IsGiven (codes (spoken_reason reason language))
unfolding spoken_reason
spoken_reason-IsGiven reason language = in_language-IsGiven language _ (
    chosen-All IsPhrased patterns fallback (cleaned reason)
      (
        ((_, _, refl), (_, _, refl)),
        (
          ((_, _, refl), (_, _, refl)),
          (
            ((_, _, refl), (_, _, refl)),
            (
              ((_, _, refl), (_, _, refl)),
              (
                ((_, _, refl), (_, _, refl)),
                (((_, _, refl), (_, _, refl)), (((_, _, refl), (_, _, refl)), tt)),
              ),
            ),
          ),
        ),
      )
      ((_, _, refl), (_, _, refl)))

-- A remedy that is not empty, with the sentence of a halt or without it.
abbrev IsAdvised : String → Type 0
IsAdvised route =
    IsGiven (codes (concat (route ∷ halted_suffix ∷ [])))
    × IsGiven (codes (concat (route ∷ "" ∷ [])))

suggested_route-IsGiven :
    (reason : Option String) (halted : Bool) → IsGiven (codes (suggested_route reason halted))
unfolding suggested_route
suggested_route-IsGiven reason halted = by_halt halted
  where
    advised : IsAdvised (chosen routes default_route (cleaned reason))
    advised =
        chosen-All IsAdvised routes default_route (cleaned reason)
          (
            ((_, _, refl), (_, _, refl)),
            (
              ((_, _, refl), (_, _, refl)),
              (
                ((_, _, refl), (_, _, refl)),
                (
                  ((_, _, refl), (_, _, refl)),
                  (((_, _, refl), (_, _, refl)), (((_, _, refl), (_, _, refl)), tt)),
                ),
              ),
            ),
          )
          ((_, _, refl), (_, _, refl))

    by_halt : (h : Bool) → IsGiven (codes (suggested_route reason h))
    by_halt true = advised.0
    by_halt false = advised.1

-- What both agents are told of a case, by its values.
abbrev Agree : Settings → ℕ → Body → Type 0
Agree settings id body =
    (call : CallContext) × (context_from_body settings (stream_parameters body) ≡ some call)
    × (livekit_context settings body ≡ some call.values)
    × (call.recovery_case_id ≡ some (pos id))

module _ (settings : Settings) (id paise : ℕ) (name company : Codes) (r : ℕ) (reason : Codes)
    (t : ℕ) (route : Codes) (phone : Option String) (halted : Bool) where
  body_with-Agree :
      (language spoken : Codes)
      → Agree settings id (
          body_with id paise
            (optional phone)
            name
            language
            company
            spoken
            (r ∷ reason)
            halted
            (t ∷ route))
  unfolding context_from_body livekit_context get is_truthy call_context spoken_amount units_for
      language_hint halt_note case_id
  body_with-Agree [] [] = (
    _,
    same settings id paise name [] company [] (r ∷ reason) (t ∷ route) phone halted,
    refl,
    refl,
  )
  body_with-Agree [] (s ∷ spoken) = (
    _,
    same settings id paise name [] company (s ∷ spoken) (r ∷ reason) (t ∷ route) phone halted,
    refl,
    refl,
  )
  body_with-Agree (l ∷ language) [] = (
    _,
    same settings id paise name (l ∷ language) company [] (r ∷ reason) (t ∷ route) phone halted,
    refl,
    refl,
  )
  body_with-Agree (l ∷ language) (s ∷ spoken) = (
    _,
    same settings id paise name (l ∷ language) company (s ∷ spoken) (r ∷ reason) (t ∷ route) phone
        halted,
    refl,
    refl,
  )

-- A case reaches the agent whichever carrier brings it: from the parameters of a Twilio stream, which
-- are all texts and leave out what is None or false, app/voice/pipecat_agent.py reads the number of
-- the case and the same context that app/voice/agent.py builds from the JSON of a LiveKit job, and
-- neither raises.
pub call_body-Agree :
    (settings : Settings) (case : RecoveryCase) (customer : Customer) (company_name : String)
    → (call : CallContext) × (context_from_body settings
          (stream_parameters (call_body case customer company_name))
        ≡ some call)
      × (livekit_context settings (call_body case customer company_name) ≡ some call.values)
      × (call.recovery_case_id ≡ some (pos case.id))
unfolding call_body
call_body-Agree settings case customer company_name =
    let language = codes customer.preferred_language in
    let halted = is_some case.halted_at in
    let (name, e) = name_of-text customer.name in
    let (r, reason, p) = spoken_reason-IsGiven case.failure_reason language in
    let (t, route, q) = suggested_route-IsGiven case.failure_reason halted in
    rw (e, p, q)
      (body_with-Agree settings case.id case.original_amount name (codes company_name) r reason t
        route customer.phone halted language (spoken_amount case.original_amount language))
