-- ===== src/Template/Laws.antt =====
-- `str.format` of app/voice/graph.py: when a template can be filled.
use dunning_agent.Prelude.{true, some, List, [], ◌∷◌, ◌++◌, ◌≡◌, refl, arith, Bool-cases, inl, inr}
use dunning_agent.Prelude.Text.{Codes, codes_eq}
use dunning_agent.Template.{
  Piece, literal, field, parse, fields, Context, value_of, names_of, knows, missing_in, fill,
  format,
}

-- No field is empty: `{}` wants a positional argument.
abbrev pub AllNamed : List Piece → Type 0
AllNamed [] = Unit
AllNamed (literal c ∷ pieces) = AllNamed pieces
AllNamed (field [] ∷ pieces) = ⊥
AllNamed (field (c ∷ name) ∷ pieces) = AllNamed pieces

missing_in-cons :
    (name : Codes) (names : List Codes) (context : Context)
    → missing_in (name ∷ names) context ≡ []
    → (knows (names_of context) name ≡ true) × (missing_in names context ≡ [])
unfolding missing_in
missing_in-cons name names context h = ground arith

pub missing_in-append :
    (a b : List Codes) (context : Context)
    → missing_in (a ++ b) context ≡ []
    → (missing_in a context ≡ []) × (missing_in b context ≡ [])
unfolding missing_in
missing_in-append [] b context h = (refl, h)
missing_in-append (name ∷ a) b context h = ground (arith, missing_in-append a b context)

value_of-known :
    (name : Codes) (context : Context)
    → knows (names_of context) name ≡ true
    → (v : Codes) × (value_of name context ≡ some v)
unfolding value_of
value_of-known name [] h = cc
value_of-known name ((key, value) ∷ context) h = elim (Bool-cases (codes_eq key name)) [
  | inl e ↦ (value, rw e refl)
  | inr e ↦ rw e (value_of-known name context (rw e at h))
]

fill-total :
    (pieces : List Piece) (context : Context)
    → AllNamed pieces
    → missing_in (fields pieces) context ≡ []
    → (out : Codes) × (fill pieces context ≡ some out)
unfolding fill fields
fill-total [] context n h = ([], refl)
fill-total (literal c ∷ pieces) context n h =
    let (out, e) = fill-total pieces context n h in (c ∷ out, rw e refl)
fill-total (field [] ∷ pieces) context n h = absurd n
fill-total (field (c ∷ name) ∷ pieces) context n h =
    let (known, rest) = missing_in-cons (c ∷ name) (fields pieces) context h in
    let (v, e) = value_of-known (c ∷ name) context known in
    let (out, e') = fill-total pieces context n rest in (v ++ out, rw (e, e') refl)

-- A template whose variables are all in the context is filled.
pub format-total :
    (text : Codes) (pieces : List Piece) (context : Context)
    → parse text ≡ some pieces
    → AllNamed pieces
    → missing_in (fields pieces) context ≡ []
    → (out : Codes) × (format text context ≡ some out)
unfolding format
format-total text pieces context p n h =
    let (out, e) = fill-total pieces context n h in (out, rw (p, e) refl)
