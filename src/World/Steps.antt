-- ===== src/World/Steps.antt =====
-- Relations between the tables before and after an action, one rule for each way to build one.
-- A relation that is reflexive and transitive holds of a whole run when it holds of its parts.
use dunning_agent.Prelude.{Bool, true, false, List, [], ◌∷◌, if◌then◌else◌}
use dunning_agent.World.Entities.{Request}
use dunning_agent.World.Monad.{
  Db, World, Env, Exn, Result, ok, err, Exec, Answer, pure, raise, gets, ask, attempt, modify,
  utcnow, RedisMemo, set_memo, get_memo, continue, ◌>>=◌, for_each,
}

pub record IsFrame (R : Db → Db → Type 0) : Type 0 where
  pub reflexive : (d : Db) → R d d
  pub transitive : (d e f : Db) → R d e → R e f → R d f

-- `m` leads from a database to a related one, whether it returns or raises.
pub record Steps {A : Type 0} (R : Db → Db → Type 0) (m : Exec A) : Type 0 where
  pub at : (w : World) → R w.db (m w).1.db

module _ {R : Db → Db → Type 0} (frame : IsFrame R) where
  pub Steps-pure : {A : Type 0} (a : A) → Steps R (pure a)
  Steps-pure a = record { at = λ w. frame.reflexive w.db }

  pub Steps-raise : {A : Type 0} (e : Exn) → Steps R (raise {A = A} e)
  Steps-raise e = record { at = λ w. frame.reflexive w.db }

  pub Steps-gets : {A : Type 0} (f : Db → A) → Steps R (gets f)
  Steps-gets f = record { at = λ w. frame.reflexive w.db }

  pub Steps-ask :
      {A : Type 0} (request : Request) (answer : Answer A) → Steps R (ask request answer)
  Steps-ask request answer = record { at = λ w. frame.reflexive w.db }

  pub Steps-utcnow : (env : Env) → Steps R (utcnow env)
  Steps-utcnow env = record { at = λ w. frame.reflexive w.db }

  pub Steps-set_memo : (memo : RedisMemo) → Steps R (set_memo memo)
  Steps-set_memo memo = record { at = λ w. frame.reflexive w.db }

  pub Steps-get_memo : Steps R get_memo
  Steps-get_memo = record { at = λ w. frame.reflexive w.db }

  Steps-continue :
      {A B : Type 0} (r : Result A) (f : A → Exec B)
      → ((a : A) → Steps R (f a))
      → Steps R (continue r f)
  Steps-continue (ok a) f kf = kf a
  Steps-continue (err e) f kf = Steps-raise e

  pub Steps-bind :
      {A B : Type 0} (m : Exec A) (f : A → Exec B)
      → Steps R m
      → ((a : A) → Steps R (f a))
      → Steps R (m >>= f)
  Steps-bind m f km kf = record {
    at = λ w.
        let (r, w') = m w in
        frame.transitive w.db w'.db (continue r f w').1.db (km.at w)
          ((Steps-continue r f kf).at w');
  }

  pub Steps-attempt : {A : Type 0} (m : Exec A) → Steps R m → Steps R (attempt m)
  Steps-attempt m km = record { at = λ w. km.at w }

  pub Steps-for_each :
      {A : Type 0} (xs : List A) (body : A → Exec (Unit {0}))
      → ((x : A) → Steps R (body x))
      → Steps R (for_each xs body)
  Steps-for_each [] body k = Steps-pure tt
  Steps-for_each (x ∷ xs) body k =
      Steps-bind (body x) (λ _. for_each xs body) (k x) (λ _. Steps-for_each xs body k)

  pub Steps-modify : (f : Db → Db) → ((d : Db) → R d (f d)) → Steps R (modify f)
  Steps-modify f k = record { at = λ w. k w.db }

module _ {R : Db → Db → Type 0} where
  pub Steps-if :
      {A : Type 0} (b : Bool) (m n : Exec A) → Steps R m → Steps R n → Steps R (if b then m else n)
  Steps-if true m n km kn = km
  Steps-if false m n km kn = kn

pub ruleset step_rules = (
  Steps-pure, Steps-raise, Steps-gets, Steps-ask, Steps-utcnow, Steps-set_memo, Steps-get_memo,
  Steps-bind, Steps-attempt, Steps-for_each, Steps-modify, Steps-if,
)
