-- ===== src/Mandate/Tokens.antt =====
-- The choice of a token by `usable_token` of app/mandate.py.
use native.Mathlib.Nat.{le_trans}
use mathlib.Core.Path.{subst}
use mathlib.Core.Bool.{false≢true}
use dunning_agent.Prelude.{
  ℕ, ◌≤◌, ◌<◌, Bool-cases, Option-cases, sym, String, true, false, Option, none, some, List, [],
  ◌∷◌, ◌≡◌, refl, arith, filter, get_or, inl, inr, ◌⊎◌, eq_iff, ltb, All, ◌↔◌, not, str_eq, leb,
  Elem, Elem-filter, filter-All, All-map, ◌∙◌,
}
use dunning_agent.World.{Token}
use dunning_agent.Mandate.{
  is_candidate, most_recent, later_used, first_of_candidates, usable_token, exists,
}

-- What is given satisfies the condition; nothing may be given.
abbrev IfGiven : {A : Type 0} → Option A → (A → Type 0) → Type 0
IfGiven none P = Unit
IfGiven (some a) P = P a

-- A token that Razorpay can charge now for the amount.
pub record IsChargeable (amount now_epoch : ℕ) (token : Token) : Type 0 where
  pub recurs : token.recurring ≡ true
  pub confirmed : IfGiven token.status (λ status. status ≡ "confirmed")
  pub alive : IfGiven token.expired_at (λ expires. now_epoch < expires)
  pub covered : IfGiven token.max_amount (λ ceiling. amount ≤ ceiling)

confirmed_iff :
    (o : Option String)
    → (exists o (λ status. not (str_eq status "confirmed")) ≡ false)
      ↔ IfGiven o (λ status. status ≡ "confirmed")
confirmed_iff none = (λ _. tt, λ _. refl)
confirmed_iff (some s) = ground (arith, eq_iff s "confirmed")

alive_iff :
    (now_epoch : ℕ) (o : Option ℕ)
    → (exists o (λ expires. leb expires now_epoch) ≡ false)
      ↔ IfGiven o (λ expires. now_epoch < expires)
alive_iff now_epoch none = (λ _. tt, λ _. refl)
alive_iff now_epoch (some t) = ground arith

covered_iff :
    (amount : ℕ) (o : Option ℕ)
    → (exists o (λ ceiling. ltb ceiling amount) ≡ false) ↔ IfGiven o (λ ceiling. amount ≤ ceiling)
covered_iff amount none = (λ _. tt, λ _. refl)
covered_iff amount (some c) = ground arith

-- The tests of the loop keep the chargeable tokens and no others.
is_candidate_iff :
    (amount now_epoch : ℕ) (token : Token)
    → (is_candidate amount now_epoch token ≡ true) ↔ IsChargeable amount now_epoch token
unfolding is_candidate
is_candidate_iff amount now_epoch token = ground (
  arith,
  confirmed_iff token.status,
  alive_iff now_epoch token.expired_at,
  covered_iff amount token.max_amount,
)

abbrev pub last_used : Token → ℕ
last_used token = get_or token.used_at 0

later_used_cases : (a b : Token) → (later_used a b ≡ a) ⊎ (later_used a b ≡ b)
unfolding later_used
later_used_cases a b = ground arith

later_used_bounds :
    (a b : Token)
    → (last_used a ≤ last_used (later_used a b)) × (last_used b ≤ last_used (later_used a b))
unfolding later_used
later_used_bounds a b = ground arith

most_recent-Elem :
    (best : Token) (tokens : List Token) → Elem (most_recent best tokens) (best ∷ tokens)
unfolding most_recent
most_recent-Elem best [] = inl refl
most_recent-Elem best (t ∷ tokens) = elim (most_recent-Elem (later_used best t) tokens) [
  | inl e ↦ elim (later_used_cases best t) [ inl p ↦ inl (e ∙ p) | inr p ↦ inr (inl (e ∙ p)) ]
  | inr m ↦ inr (inr m)
]

most_recent-latest :
    (best : Token) (tokens : List Token)
    → All (λ t. last_used t ≤ last_used (most_recent best tokens)) (best ∷ tokens)
unfolding most_recent
most_recent-latest best [] = (omega arith, tt)
most_recent-latest best (t ∷ tokens) =
    let ih = most_recent-latest (later_used best t) tokens in
    let bounds = later_used_bounds best t in
    (le_trans bounds.0 ih.0, (le_trans bounds.1 ih.0, ih.1))

first_of_candidates-best :
    (candidates : List Token) (token : Token)
    → first_of_candidates candidates ≡ some token
    → Elem token candidates × All (λ t. last_used t ≤ last_used token) candidates
first_of_candidates-best [] token h = cc
first_of_candidates-best (t ∷ rest) token h =
    let e : most_recent t rest ≡ token = cc in
    (
      subst (λ c. Elem c (t ∷ rest)) e (most_recent-Elem t rest),
      subst (λ c. All (λ x. last_used x ≤ last_used c) (t ∷ rest)) e (most_recent-latest t rest),
    )

usable_token-some :
    (tokens : List Token) (amount now_epoch : ℕ) (token : Token)
    → usable_token tokens amount now_epoch ≡ some token
    → Elem token tokens
      × IsChargeable amount now_epoch token
      × All (λ t. ¬ (IsChargeable amount now_epoch t) ⊎ (last_used t ≤ last_used token)) tokens
unfolding usable_token
usable_token-some tokens amount now_epoch token h =
    let test = is_candidate amount now_epoch in
    let best = first_of_candidates-best (filter test tokens) token h in
    let found = Elem-filter test token tokens best.0 in
    (
      found.0,
      (is_candidate_iff amount now_epoch token).0 found.1,
      All-map (λ t. test t ≡ true → last_used t ≤ last_used token)
          (λ t. ¬ (IsChargeable amount now_epoch t) ⊎ (last_used t ≤ last_used token)) tokens
          (λ t k. elim (Bool-cases (test t)) [
            | inl e ↦ inr (k e)
            | inr e ↦
                inl (λ c. absurd (false≢true (sym e ∙ (is_candidate_iff amount now_epoch t).1 c)))
          ])
          (filter-All (λ t. last_used t ≤ last_used token) test tokens best.1),
    )

first_of_candidates-none :
    (candidates : List Token) → first_of_candidates candidates ≡ none → All (λ _. ⊥) candidates
first_of_candidates-none [] h = tt
first_of_candidates-none (t ∷ rest) h = cc

usable_token-none :
    (tokens : List Token) (amount now_epoch : ℕ)
    → usable_token tokens amount now_epoch ≡ none
    → All (λ t. ¬ (IsChargeable amount now_epoch t)) tokens
unfolding usable_token
usable_token-none tokens amount now_epoch h =
    let test = is_candidate amount now_epoch in
    All-map (λ t. test t ≡ true → ⊥) (λ t. ¬ (IsChargeable amount now_epoch t)) tokens
      (λ t k c. k ((is_candidate_iff amount now_epoch t).1 c))
      (filter-All (λ _. ⊥) test tokens (first_of_candidates-none (filter test tokens) h))

-- What the choice of a token owes: a token of the customer's that can be charged, with none that can
-- be used more recently, or else none of them can be charged.
abbrev pub IsBest : List Token → ℕ → ℕ → Option Token → Type 0
IsBest tokens amount now_epoch none = All (λ t. ¬ (IsChargeable amount now_epoch t)) tokens
IsBest tokens amount now_epoch (some token) =
    Elem token tokens
    × IsChargeable amount now_epoch token
    × All (λ t. ¬ (IsChargeable amount now_epoch t) ⊎ (last_used t ≤ last_used token)) tokens

-- The token that is charged is one of the customer's, it can be charged now for the amount, and no
-- token of the customer's that can be was used more recently; where none is given, none can be charged.
pub usable_token-IsBest :
    (tokens : List Token) (amount now_epoch : ℕ)
    → IsBest tokens amount now_epoch (usable_token tokens amount now_epoch)
usable_token-IsBest tokens amount now_epoch =
    elim (Option-cases (usable_token tokens amount now_epoch)) [
      | inl e ↦ rw e (usable_token-none tokens amount now_epoch e)
      | inr (token, e) ↦ rw e (usable_token-some tokens amount now_epoch token e)
    ]
