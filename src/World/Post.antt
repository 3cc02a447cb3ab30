-- ===== src/World/Post.antt =====
-- Partial correctness of an action: where it returns, its value and the state have a property.
use dunning_agent.World.Monad.{World, Result, ok, err, Exec, continue, ◌>>=◌}

abbrev pub Post : {A : Type 0} → Result A → World → (A → World → Type 0) → Type 0
Post (ok a) w P = P a w
Post (err e) w P = Unit

-- An action that is run.
abbrev pub Ends : {A : Type 0} → Exec A → World → (A → World → Type 0) → Type 0
Ends m w P = Post (m w).0 (m w).1 P

module _ {A B : Type 0} (P : A → World → Type 0) (Q : B → World → Type 0) where
  Post-continue :
      (r : Result A) (f : A → Exec B) (w : World)
      → Post r w P
      → ((a : A) → P a w → Post (f a w).0 (f a w).1 Q)
      → Post (continue r f w).0 (continue r f w).1 Q
  Post-continue (ok a) f w h k = k a h
  Post-continue (err e) f w h k = tt

  pub Post-bind :
      (m : Exec A) (f : A → Exec B) (w : World)
      → Post (m w).0 (m w).1 P
      → ((a : A) (w' : World) → P a w' → Post (f a w').0 (f a w').1 Q)
      → Post ((m >>= f) w).0 ((m >>= f) w).1 Q
  Post-bind m f w h k = let (r, w') = m w in Post-continue r f w' h (λ a p. k a w' p)

-- What holds of the state whatever the outcome.
pub Post-any :
    {A : Type 0} (P : World → Type 0) (r : Result A) (w : World) → P w → Post r w (λ _ v. P v)
Post-any P (ok a) w h = h
Post-any P (err e) w h = tt
