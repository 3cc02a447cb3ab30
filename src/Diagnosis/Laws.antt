-- ===== src/Diagnosis/Laws.antt =====
-- What `classify` of app/diagnosis.py reads of the two fields.
use dunning_agent.Prelude.{
  String, Option, none, some, [], ◌∷◌, ◌≡◌, refl, ◌⊎◌, inl, inr, arith, Option-cases, Bool-cases,
  ◌↔◌,
}
use dunning_agent.Prelude.Text.{Codes, codes, codes_eq, codes_eq_sound}
use dunning_agent.Diagnosis.{
  RootCause, CauseTable, lookup, by_source, by_reason, normalise, or_else, classify,
}

-- The entries of a table.
abbrev pub Listed : CauseTable → Codes → RootCause → Type 0
Listed [] key cause = ⊥
Listed ((k, c) ∷ table) key cause = ((key ≡ codes k) × (c ≡ cause)) ⊎ Listed table key cause

Listed-lookup :
    (table : CauseTable) (key : Codes) (cause : RootCause)
    → lookup table key ≡ some cause
    → Listed table key cause
Listed-lookup [] key cause h = ground arith
Listed-lookup ((k, c) ∷ table) key cause h = elim (Bool-cases (codes_eq key (codes k))) [
  | inl e ↦ inl (codes_eq_sound key (codes k) e, ground arith)
  | inr e ↦ inr (Listed-lookup table key cause (rw e at h))
]

reason-ne-configuration : (key : Codes) → lookup by_reason key ≡ some RootCause.configuration → ⊥
reason-ne-configuration key h =
    let listed = Listed-lookup by_reason key RootCause.configuration h in
    unfold by_reason in ground (arith, listed)

source_configuration :
    (key : Codes) → lookup by_source key ≡ some RootCause.configuration → key ≡ codes "business"
source_configuration key h =
    let listed = Listed-lookup by_source key RootCause.configuration h in
    unfold by_source in ground (arith, listed)

source-ne-instrument : (key : Codes) → lookup by_source key ≡ some RootCause.customer_instrument → ⊥
source-ne-instrument key h =
    let listed = Listed-lookup by_source key RootCause.customer_instrument h in
    unfold by_source in ground (arith, listed)

lookup-business : lookup by_source (codes "business") ≡ some RootCause.configuration
unfolding by_source
lookup-business = refl

-- A failure is put down to our own configuration exactly when its reason is none of those listed
-- and its source, normalised, is "business".
pub classify-eq-configuration_iff :
    (source reason_code : Option String)
    → (classify source reason_code ≡ RootCause.configuration)
      ↔ ((lookup by_reason (normalise reason_code) ≡ none) × (normalise source ≡ codes "business"))
unfolding classify
classify-eq-configuration_iff source reason_code = (forward, backward)
  where
    forward :
        or_else (lookup by_reason (normalise reason_code)) (lookup by_source (normalise source))
          ≡ RootCause.configuration
        → (lookup by_reason (normalise reason_code) ≡ none) × (normalise source ≡ codes "business")
    forward h = elim (Option-cases (lookup by_reason (normalise reason_code))) [
      | inl e ↦ (
        e,
        elim (Option-cases (lookup by_source (normalise source))) [
          | inl e' ↦ ground (arith, h, e, e')
          | inr (c, e') ↦ source_configuration (normalise source) (ground (arith, h, e, e'))
        ],
      )
      | inr (c, e) ↦ absurd (reason-ne-configuration (normalise reason_code) (ground (arith, h, e)))
    ]

    backward :
        (lookup by_reason (normalise reason_code) ≡ none) × (normalise source ≡ codes "business")
        → or_else (lookup by_reason (normalise reason_code)) (lookup by_source (normalise source))
          ≡ RootCause.configuration
    backward h = rw (h.0, h.1, lookup-business)

-- A failure is put down to a dead instrument only on a reason that names one: no source alone
-- leads to it.
classify-instrument_reason :
    (source reason_code : Option String)
    → classify source reason_code ≡ RootCause.customer_instrument
    → Listed by_reason (normalise reason_code) RootCause.customer_instrument
unfolding classify
classify-instrument_reason source reason_code h =
    elim (Option-cases (lookup by_reason (normalise reason_code))) [
      | inl e ↦ elim (Option-cases (lookup by_source (normalise source))) [
        | inl e' ↦ ground (arith, h, e, e')
        | inr (c, e') ↦ absurd (source-ne-instrument (normalise source) (ground (arith, h, e, e')))
      ]
      | inr (c, e) ↦
          Listed-lookup by_reason (normalise reason_code) RootCause.customer_instrument
            (ground (arith, h, e))
    ]
