-- ===== src/Remedies/Laws.antt =====
-- app/voice/reasons.py and app/voice/routes.py: the two tables side by side.
use dunning_agent.Prelude.{
  String, Bool, Option, List, [], ◌∷◌, ◌≡◌, refl, ◌⊎◌, inl, inr, Elem, Bool-cases, if◌then◌else◌,
}
use dunning_agent.Prelude.Text.{Codes, concat}
use dunning_agent.Remedies.{
  Phrasing, matches, cleaned, first_match, chosen, patterns, fallback, routes, default_route,
  halted_suffix, in_language, spoken_reason, suggested_route, expired_pattern, expired_phrasing,
  expired_route, insufficient_pattern, insufficient_phrasing, insufficient_route, limit_pattern,
  limit_phrasing, limit_route, declined_pattern, declined_phrasing, mandate_pattern,
  mandate_phrasing, mandate_route, technical_pattern, technical_phrasing, technical_route,
  invalid_pattern, invalid_phrasing, invalid_route,
}

-- A wording and the remedy that goes with it.
abbrev pub agreed : List (Phrasing × String)
agreed =
    (expired_phrasing, expired_route)
    ∷ (insufficient_phrasing, insufficient_route)
    ∷ (limit_phrasing, limit_route)
    ∷ (mandate_phrasing, mandate_route)
    ∷ (technical_phrasing, technical_route)
    ∷ (invalid_phrasing, invalid_route)
    ∷ (fallback, default_route)
    ∷ []

abbrev Agrees : Phrasing → String → Type 0
Agrees phrasing route = Elem (phrasing, route) agreed ⊎ (phrasing ≡ declined_phrasing)

first_match-Agrees :
    (text : Codes)
    → Agrees (first_match patterns fallback text) (first_match routes default_route text)
unfolding first_match
first_match-Agrees text = elim (Bool-cases (matches expired_pattern text)) [
  | inl e0 ↦ rw (e0) (inl (inl refl))
  | inr e0 ↦ elim (Bool-cases (matches insufficient_pattern text)) [
    | inl e1 ↦ rw (e0, e1) (inl (inr (inl refl)))
    | inr e1 ↦ elim (Bool-cases (matches limit_pattern text)) [
      | inl e2 ↦ rw (e0, e1, e2) (inl (inr (inr (inl refl))))
      | inr e2 ↦ elim (Bool-cases (matches declined_pattern text)) [
        | inl e3 ↦ rw (e0, e1, e2, e3) (inr refl)
        | inr e3 ↦ elim (Bool-cases (matches mandate_pattern text)) [
          | inl e4 ↦ rw (e0, e1, e2, e3, e4) (inl (inr (inr (inr (inl refl)))))
          | inr e4 ↦ elim (Bool-cases (matches technical_pattern text)) [
            | inl e5 ↦ rw (e0, e1, e2, e3, e4, e5) (inl (inr (inr (inr (inr (inl refl))))))
            | inr e5 ↦ elim (Bool-cases (matches invalid_pattern text)) [
              | inl e6 ↦
                  rw (e0, e1, e2, e3, e4, e5, e6) (inl (inr (inr (inr (inr (inr (inl refl)))))))
              | inr e6 ↦
                  rw (e0, e1, e2, e3, e4, e5, e6)
                    (inl (inr (inr (inr (inr (inr (inr (inl refl))))))))
            ]
          ]
        ]
      ]
    ]
  ]
]

chosen-Agrees :
    (text : Codes) → Agrees (chosen patterns fallback text) (chosen routes default_route text)
chosen-Agrees [] = inl (inr (inr (inr (inr (inr (inr (inl refl)))))))
chosen-Agrees (c ∷ text) = first_match-Agrees (c ∷ text)

-- The customer hears an agreed wording, and the agent is given the agreed remedy that goes with it,
-- or the wording is that the bank declined the payment, for which there is no remedy of its own.
-- A halted subscription adds its sentence to the remedy, and changes neither.
pub spoken_reason-suggested_route :
    (failure_reason : Option String) (language : Codes) (halted : Bool)
    → (phrasing : Phrasing) × (route : String) × (Elem (phrasing, route) agreed
        ⊎ (phrasing ≡ declined_phrasing))
      × (spoken_reason failure_reason language ≡ in_language language phrasing)
      × (suggested_route failure_reason halted
          ≡ concat (route ∷ (if halted then halted_suffix else "") ∷ []))
unfolding spoken_reason suggested_route
spoken_reason-suggested_route failure_reason language halted =
    let text = cleaned failure_reason in
    (
      chosen patterns fallback text,
      chosen routes default_route text,
      chosen-Agrees text,
      refl,
      refl,
    )
