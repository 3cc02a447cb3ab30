-- ===== src/Handlers/Laws.antt =====
-- What no event of app/webhooks/handlers.py can do.
use dunning_agent.Prelude.{
  String, Bool, true, ◌&&◌, some, List, [], ◌∷◌, ◌++◌, ◌≡◌, refl, ap, subst, ◌∙◌, arith, str_eq,
  any, map, if◌then◌else◌, Bool-cases, inl, inr,
}
use dunning_agent.Model.{Settings, Customer, RecoveryCase, RecoveryAction}
use dunning_agent.World.{Db, World, Env, Exec, CustomerEntity, log_action, put_case}
use dunning_agent.World.Steps.{IsFrame, Steps}
use dunning_agent.Store.{
  upsert, insert_case, has_case, refreshed, new_customer, upsert_customer, upsert_subscription,
  upsert_payment,
}
use dunning_agent.Handlers.{Event, EventName, handler_for}
use dunning_agent.Handlers.Frames.{Keeps, Handled, handler_for-Steps}

-- The customer asked not to be contacted.
abbrev pub refuses : String → List Customer → Bool
refuses id rows = any (λ row. str_eq row.razorpay_customer_id id && row.do_not_contact) rows

-- Who has refused before has refused after.
abbrev KeepsRefusals : Db → Db → Type 0
KeepsRefusals d e = (id : String) → refuses id d.customers ≡ true → refuses id e.customers ≡ true

-- The audit trail only grows.
abbrev pub AppendsOnly : Db → Db → Type 0
AppendsOnly d e = (added : List RecoveryAction) × (e.actions ≡ d.actions ++ added)

refuses-append :
    (id : String) (rows : List Customer) (new : Customer)
    → refuses id rows ≡ true
    → refuses id (rows ++ new ∷ []) ≡ true
refuses-append id [] new h = ground arith
refuses-append id (row ∷ rows) new h = ground (arith, refuses-append id rows new)

refuses-refreshed :
    (id : String) (entity : CustomerEntity) (rows : List Customer)
    → refuses id rows ≡ true
    → refuses id (
        map
          (λ row. if str_eq row.razorpay_customer_id entity.id then refreshed entity row else row)
          rows)
      ≡ true
refuses-refreshed id entity [] h = ground arith
refuses-refreshed id entity (row ∷ rows) h =
    elim (Bool-cases (str_eq row.razorpay_customer_id entity.id)) [
      | inl e ↦ rw e (ground (arith, refuses-refreshed id entity rows))
      | inr e ↦ rw e (ground (arith, refuses-refreshed id entity rows))
    ]

upserted :
    (id : String) (entity : CustomerEntity) (rows : List Customer)
    → refuses id rows ≡ true
    → refuses id (
        upsert
          (λ row. str_eq row.razorpay_customer_id entity.id)
          (refreshed entity)
          (new_customer entity)
          rows)
      ≡ true
upserted id entity rows h =
    elim (Bool-cases (any (λ row. str_eq row.razorpay_customer_id entity.id) rows)) [
      | inl e ↦ rw e (refuses-refreshed id entity rows h)
      | inr e ↦ rw e (refuses-append id rows (new_customer entity) h)
    ]

inserted : (case : RecoveryCase) (d : Db) → KeepsRefusals d (insert_case case d)
inserted case d id h = elim (Bool-cases (has_case case.razorpay_payment_id d.cases)) [
  | inl e ↦ rw e h
  | inr e ↦ rw e h
]

KeepsRefusals-Keeps : Keeps KeepsRefusals
KeepsRefusals-Keeps = record {
  frame = record { reflexive = λ d id h. h; transitive = λ d e f p q id h. q id (p id h) };
  logs = λ id type metadata. unfold log_action in record { at = λ w id h. h };
  saves = λ case. unfold put_case in record { at = λ w id h. h };
  inserts = λ case. record { at = λ w. inserted case w.db };
  customers = λ entity.
      unfold upsert_customer in record { at = λ w id h. upserted id entity w.db.customers h };
  subscriptions = λ entity. unfold upsert_subscription in record { at = λ w id h. h };
  payments = λ entity s c. unfold upsert_payment in record { at = λ w id h. h };
}

pub append_none : (rows : List RecoveryAction) → rows ≡ rows ++ []
append_none [] = refl
append_none (row ∷ rows) = ap (λ rest. row ∷ rest) (append_none rows)

append_assoc : (xs ys zs : List RecoveryAction) → (xs ++ ys) ++ zs ≡ xs ++ (ys ++ zs)
append_assoc [] ys zs = refl
append_assoc (x ∷ xs) ys zs = ap (λ rest. x ∷ rest) (append_assoc xs ys zs)

inserted-actions : (case : RecoveryCase) (d : Db) → (insert_case case d).actions ≡ d.actions
inserted-actions case d = elim (Bool-cases (has_case case.razorpay_payment_id d.cases)) [
  | inl e ↦ rw e refl
  | inr e ↦ rw e refl
]

pub AppendsOnly-IsFrame : IsFrame AppendsOnly
AppendsOnly-IsFrame = record {
  reflexive = λ d. ([], append_none d.actions);
  transitive = λ d e f (xs, p) (ys, q).
      (xs ++ ys, q ∙ ap (λ rows. rows ++ ys) p ∙ append_assoc d.actions xs ys);
}

AppendsOnly-Keeps : Keeps AppendsOnly
AppendsOnly-Keeps = record {
  frame = AppendsOnly-IsFrame;
  logs = λ id type metadata. unfold log_action in record { at = λ w. (_, refl) };
  saves = λ case. unfold put_case in record { at = λ w. ([], append_none w.db.actions) };
  inserts =
      λ case. record { at = λ w. ([], inserted-actions case w.db ∙ append_none w.db.actions) };
  customers =
      λ entity. unfold upsert_customer in record { at = λ w. ([], append_none w.db.actions) };
  subscriptions =
      λ entity. unfold upsert_subscription in record { at = λ w. ([], append_none w.db.actions) };
  payments =
      λ entity s c. unfold upsert_payment in record { at = λ w. ([], append_none w.db.actions) };
}

module _ (env : Env) (settings : Settings) (name : EventName) (handler : Event → Exec (Unit {0}))
    (event : Event) (w : World) where
  Handled-Steps :
      {R : Db → Db → Type 0}
      → Keeps R
      → handler_for env settings name ≡ some handler
      → Steps R (handler event)
  Handled-Steps keeps h =
      subst (Handled keeps event) h (handler_for-Steps keeps env settings name event)

  -- A customer who asked not to be contacted is on record as such after any event, whether its
  -- handler returns or raises: no refresh from Razorpay clears the flag.
  pub handler_for-KeepsRefusals :
      (id : String)
      → handler_for env settings name ≡ some handler
      → refuses id w.db.customers ≡ true
      → refuses id (handler event w).1.db.customers ≡ true
  handler_for-KeepsRefusals id known = (Handled-Steps KeepsRefusals-Keeps known).at w id

  -- The audit trail is only appended to: after any event, its earlier rows stand unchanged, in their
  -- order, before the new ones.
  pub handler_for-AppendsOnly :
      handler_for env settings name ≡ some handler → AppendsOnly w.db (handler event w).1.db
  handler_for-AppendsOnly known = (Handled-Steps AppendsOnly-Keeps known).at w
