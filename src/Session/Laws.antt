-- ===== src/Session/Laws.antt =====
-- app/voice/pipecat_agent.py: how often the model is asked again in a call.
use dunning_agent.Prelude.{
  ℕ, ◌+◌, ◌-◌, ◌*◌, Bool-cases, inl, inr, ◌≤◌, String, true, false, Option, none, List, [], ◌∷◌,
  ◌≡◌, refl, leb, arith,
}
use dunning_agent.Prelude.Text.{Codes}
use dunning_agent.Graph.{Checked, passed, failed}
use dunning_agent.Walker.{
  GraphWalker, Move, moved, rejected, broken, transition, stage_instructions,
}
use dunning_agent.Session.{
  DunningSession, Answer, handed_over, refused, raised, on_transition, reject_transition,
  apply_backchannel_policy, converse, hand_over, after_move,
}

-- The refused moves after which the model is asked again.
abbrev pub asked_again : List Answer → ℕ
asked_again [] = 0
asked_again (refused _ _ _ true ∷ answers) = 1 + asked_again answers
asked_again (_ ∷ answers) = asked_again answers

-- The answers that refuse nothing.
abbrev pub not_refused : List Answer → ℕ
not_refused [] = 0
not_refused (refused _ _ _ _ ∷ answers) = not_refused answers
not_refused (_ ∷ answers) = 1 + not_refused answers

-- What is left of a run of refusals: two, less those that have been.
abbrev left : ℕ → ℕ
left n = 2 - n

left-asked : (n : ℕ) → leb (n + 1) 2 ≡ true → 1 + left (n + 1) ≤ left n
left-asked n h = ground arith

-- One answer spends of what is left, or it refuses nothing and a new run begins.
abbrev Spends : ℕ → DunningSession × Answer → Type 0
Spends n (s, answer) =
    asked_again (answer ∷ []) + left s.rejections ≤ left n + 2 * not_refused (answer ∷ [])

reject_transition-Spends :
    (s : DunningSession) (message : String) → Spends s.rejections (reject_transition s message)
unfolding reject_transition
reject_transition-Spends s message = elim (Bool-cases (leb (s.rejections + 1) 2)) [
  | inl e ↦ rw e (ground (arith, left-asked s.rejections e))
  | inr e ↦ rw e (ground arith)
]

hand_over-Spends :
    (n : ℕ) (s : DunningSession) (text : Checked Codes)
    → s.rejections ≡ 0
    → Spends n (hand_over s text)
hand_over-Spends n s (failed e) h = ground arith
hand_over-Spends n s (passed text) h = ground arith

after_move-Spends :
    (s : DunningSession) (w : GraphWalker) (m : Move) → Spends s.rejections (after_move s (w, m))
unfolding apply_backchannel_policy
after_move-Spends s w (moved node) =
    hand_over-Spends s.rejections _ (stage_instructions w none) refl
after_move-Spends s w (rejected message) =
    reject_transition-Spends (record s { walker = w }) message
after_move-Spends s w (broken e) = ground arith

on_transition-Spends :
    (s : DunningSession) (label : String) (heard : Option String)
    → Spends s.rejections (on_transition s label heard)
unfolding on_transition
on_transition-Spends s label heard =
    let (w, m) = transition s.walker label heard in after_move-Spends s w m

asked_again-cons :
    (a : Answer) (answers : List Answer)
    → asked_again (a ∷ answers) ≡ asked_again (a ∷ []) + asked_again answers
asked_again-cons (handed_over _ _) answers = ground arith
asked_again-cons (refused _ _ _ true) answers = ground arith
asked_again-cons (refused _ _ _ false) answers = ground arith
asked_again-cons (raised _) answers = ground arith

not_refused-cons :
    (a : Answer) (answers : List Answer)
    → not_refused (a ∷ answers) ≡ not_refused (a ∷ []) + not_refused answers
not_refused-cons (handed_over _ _) answers = ground arith
not_refused-cons (refused _ _ _ _) answers = ground arith
not_refused-cons (raised _) answers = ground arith

converse-Spends :
    (s : DunningSession) (turns : List (String × Option String))
    → asked_again (converse s turns).1 ≤ left s.rejections + 2 * not_refused (converse s turns).1
unfolding converse
converse-Spends s [] = ground arith
converse-Spends s ((label, heard) ∷ turns) =
    let (next, a) = on_transition s label heard in
    let answers = (converse next turns).1 in
    ground (
      arith,
      on_transition-Spends s label heard,
      converse-Spends next turns,
      asked_again-cons a answers,
      not_refused-cons a answers,
    )

-- Whatever labels the model names from any state of a session, it is asked again after a refusal at
-- most twice, and twice more for each answer that refuses nothing.
pub asked_again-converse :
    (s : DunningSession) (turns : List (String × Option String))
    → asked_again (converse s turns).1 ≤ 2 + 2 * not_refused (converse s turns).1
asked_again-converse s turns = ground (arith, converse-Spends s turns)
