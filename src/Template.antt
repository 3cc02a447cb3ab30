-- ===== src/Template.antt =====
-- Python's `str.format` templates, as app/voice/graph.py uses them: a field is a plain name. A field
-- with a conversion, a format, an attribute or an index is outside the model, and counts as malformed;
-- the flow has none of them.
pub mod Laws
use dunning_agent.Prelude.{
  ℕ, Bool, true, false, ◌||◌, not, Option, none, some, List, [], ◌∷◌, ◌++◌, ◌==◌, if◌then◌else◌,
  any, filter,
}
use dunning_agent.Prelude.Text.{Codes, codes_eq}

-- What a template is made of.
pub data Piece : Type 0 where
  literal : ℕ → Piece
  field : Codes → Piece

-- Where the parse stands: in plain text, after a brace, inside a name (read so far), or in error.
pub data Mode : Type 0 where
  plain opened closed broken : Mode
  naming : Codes → Mode

-- `!`, `:`, `.`, `[` and `{` do not occur in a plain name.
abbrev is_special : ℕ → Bool
is_special c = c == b'!' || c == b':' || c == b'.' || c == b'[' || c == b'{'

abbrev name_on : Codes → ℕ → Mode × List Piece
name_on name c =
    if c == b'}'
    then (plain, field name ∷ [])
    else if is_special c
    then (broken, [])
    else (naming (name ++ c ∷ []), [])

unfoldable pub step : Mode → ℕ → Mode × List Piece
step plain c =
    if c == b'{' then (opened, []) else if c == b'}' then (closed, []) else (plain, literal c ∷ [])
step opened c = if c == b'{' then (plain, literal c ∷ []) else name_on [] c
step closed c = if c == b'}' then (plain, literal c ∷ []) else (broken, [])
step broken c = (broken, [])
step (naming name) c = name_on name c

abbrev prepend : List Piece → Option (List Piece) → Option (List Piece)
prepend out none = none
prepend out (some rest) = some (out ++ rest)

unfoldable pub scan : Mode → Codes → Option (List Piece)
scan plain [] = some []
scan _ [] = none
scan mode (c ∷ text) = let (mode', out) = step mode c in prepend out (scan mode' text)

-- `Formatter().parse(text)`; `none` is the ValueError.
unfoldable pub parse : Codes → Option (List Piece)
parse text = scan plain text

abbrev pub knows : List Codes → Codes → Bool
knows names name = any (λ n. codes_eq n name) names

-- The names of the fields, without the empty one. A name may stand twice.
unfoldable pub fields : List Piece → List Codes
fields [] = []
fields (literal c ∷ pieces) = fields pieces
fields (field [] ∷ pieces) = fields pieces
fields (field (c ∷ name) ∷ pieces) = (c ∷ name) ∷ fields pieces

abbrev fields_of : Option (List Piece) → Option (List Codes)
fields_of none = none
fields_of (some pieces) = some (fields pieces)

-- `template_variables`
unfoldable pub template_variables : Codes → Option (List Codes)
template_variables text = fields_of (parse text)

-- The call context, with the values as their texts.
abbrev pub Context : Type 0
Context = List (Codes × Codes)

unfoldable pub value_of : Codes → Context → Option Codes
value_of name [] = none
value_of name ((key, value) ∷ context) =
    let rest = value_of name context in if codes_eq key name then some value else rest

abbrev pub names_of : Context → List Codes
names_of [] = []
names_of ((key, _) ∷ context) = key ∷ names_of context

-- `xs - set(context)`
unfoldable pub missing_in : List Codes → Context → List Codes
missing_in names context = filter (λ name. not (knows (names_of context) name)) names

abbrev append_to : Option Codes → Option Codes → Option Codes
append_to none _ = none
append_to (some a) none = none
append_to (some a) (some b) = some (a ++ b)

-- An empty name is the IndexError of a template that has no positional arguments.
abbrev value_at : Codes → Context → Option Codes
value_at [] context = none
value_at (c ∷ name) context = value_of (c ∷ name) context

unfoldable pub fill : List Piece → Context → Option Codes
fill [] context = some []
fill (literal c ∷ pieces) context = append_to (some (c ∷ [])) (fill pieces context)
fill (field name ∷ pieces) context = append_to (value_at name context) (fill pieces context)

abbrev fill_parsed : Option (List Piece) → Context → Option Codes
fill_parsed none context = none
fill_parsed (some pieces) context = fill pieces context

-- `text.format(**context)`
unfoldable pub format : Codes → Context → Option Codes
format text context = fill_parsed (parse text) context
