-- ===== src/World/Returns.antt =====
-- Total correctness of an action: it returns, with a value that has a property.
use dunning_agent.Prelude.{◌≡◌, refl}
use dunning_agent.World.Monad.{World, Result, ok, err, Exec, continue, ◌>>=◌}

abbrev pub Returns : {A : Type 0} → Result A → (A → Type 0) → Type 0
Returns (ok a) P = P a
Returns (err e) P = ⊥

module _ {A B : Type 0} (P : A → Type 0) (Q : B → Type 0) where
  Returns-continue :
      (r : Result A) (f : A → Exec B) (w : World)
      → Returns r P
      → ((a : A) → P a → Returns (f a w).0 Q)
      → Returns (continue r f w).0 Q
  Returns-continue (ok a) f w h k = k a h
  Returns-continue (err e) f w h k = absurd h

  pub Returns-bind :
      (m : Exec A) (f : A → Exec B) (w : World)
      → Returns (m w).0 P
      → ((a : A) (w' : World) → P a → Returns (f a w').0 Q)
      → Returns ((m >>= f) w).0 Q
  Returns-bind m f w h k = let (r, w') = m w in Returns-continue r f w' h (λ a p. k a w' p)

pub Returns-ok :
    {A : Type 0} (P : A → Type 0) (r : Result A) → Returns r P → (a : A) × (r ≡ ok a) × P a
Returns-ok P (ok a) h = (a, refl, h)
Returns-ok P (err e) h = absurd h

pub Returns-map :
    {A : Type 0} (P Q : A → Type 0) (r : Result A)
    → ((a : A) → P a → Q a)
    → Returns r P
    → Returns r Q
Returns-map P Q (ok a) f h = f a h
Returns-map P Q (err e) f h = h

-- Returning, with any value.
abbrev pub Returned : {A : Type 0} → Result A → Type 0
Returned r = Returns r (λ _. Unit)
