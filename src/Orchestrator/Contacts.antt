-- ===== src/Orchestrator/Contacts.antt =====
-- The customers that a tick of app/orchestrator.py has contacted so far.
use dunning_agent.Prelude.{
  ℕ, ◌+◌, String, Bool, true, false, Option, some, List, [], ◌∷◌, ◌++◌, ◌≡◌, refl, sym, ap, ◌∙◌,
  length, length-append, arith, str_eq, eq_iff, find?, Bool-cases, inl, inr,
}
use dunning_agent.Prelude.Sets.{contains, IsDistinct, contains-snoc, IsDistinct-snoc}
use dunning_agent.Model.{Time, Customer, RecoveryCase}
use dunning_agent.World.{Db, World, put_customer, put_case, replace_where}
use dunning_agent.World.Post.{Ends}
use dunning_agent.Orchestrator.{
  TickResult, Counter, count_contacted, count_linked, count_charged, record_delivery,
}
use dunning_agent.World.Steps.{IsFrame}

-- Customers are left alone.
abbrev pub SameCustomers : Db → Db → Type 0
SameCustomers d e = e.customers ≡ d.customers

pub SameCustomers-IsFrame : IsFrame SameCustomers
SameCustomers-IsFrame = record { reflexive = λ d. refl; transitive = λ d e f p q. q ∙ p }

abbrev pub find_customer : String → List Customer → Option Customer
find_customer id rows = find? (λ row. str_eq row.razorpay_customer_id id) rows

abbrev replace_customer : Customer → List Customer → List Customer
replace_customer c rows =
    replace_where (λ row. str_eq row.razorpay_customer_id c.razorpay_customer_id) c rows

find-replace_same :
    (c d : Customer) (id : String) (rows : List Customer)
    → str_eq c.razorpay_customer_id id ≡ true
    → find_customer id (replace_customer c rows) ≡ some d
    → d ≡ c
find-replace_same c d id [] e h = ground arith
find-replace_same c d id (row ∷ rows) e h = ground (
  arith,
  find-replace_same c d id rows,
  eq_iff c.razorpay_customer_id id,
  eq_iff row.razorpay_customer_id c.razorpay_customer_id,
  eq_iff row.razorpay_customer_id id,
)

find-replace_other :
    (c : Customer) (id : String) (rows : List Customer)
    → str_eq c.razorpay_customer_id id ≡ false
    → find_customer id (replace_customer c rows) ≡ find_customer id rows
find-replace_other c id [] e = ground arith
find-replace_other c id (row ∷ rows) e = ground (
  arith,
  find-replace_other c id rows,
  eq_iff c.razorpay_customer_id id,
  eq_iff row.razorpay_customer_id c.razorpay_customer_id,
  eq_iff row.razorpay_customer_id id,
)

pub find-id :
    (id : String) (c : Customer) (rows : List Customer)
    → find_customer id rows ≡ some c
    → c.razorpay_customer_id ≡ id
find-id id c [] h = ground arith
find-id id c (row ∷ rows) h = ground (arith, find-id id c rows, eq_iff row.razorpay_customer_id id)

module _ (now : Time) where
  -- The customers of this tick: each stands once, with its contact on record, and there are as many
  -- as there were deliveries.
  pub record IsQuiet (pending : List String) (deliveries : ℕ) (rows : List Customer) : Type 0 where
    pub distinct : IsDistinct pending
    pub contacted :
        (id : String) (c : Customer)
        → contains id pending ≡ true
        → find_customer id rows ≡ some c
        → c.last_contacted_at ≡ some now
    pub counted : length pending ≡ deliveries

  abbrev pub Quiet : TickResult → World → Type 0
  Quiet r w = IsQuiet r.pending_cooldowns (r.contacted + r.linked + r.charged) w.db.customers

  IsQuiet-snoc :
      (pending : List String) (deliveries : ℕ) (rows : List Customer) (c : Customer)
      → IsQuiet pending deliveries rows
      → contains c.razorpay_customer_id pending ≡ false
      → c.last_contacted_at ≡ some now
      → IsQuiet (pending ++ c.razorpay_customer_id ∷ []) (deliveries + 1) (replace_customer c rows)
  IsQuiet-snoc pending deliveries rows c q n t = record {
    distinct = IsDistinct-snoc c.razorpay_customer_id pending q.distinct n;
    contacted = λ id d inside found. elim (Bool-cases (str_eq c.razorpay_customer_id id)) [
      | inl e ↦ ap (λ x. x.last_contacted_at) (find-replace_same c d id rows e found) ∙ t
      | inr e ↦
          q.contacted id d (ground (arith, contains-snoc id c.razorpay_customer_id pending))
            (sym (find-replace_other c id rows e) ∙ found)
    ];
    counted = omega (arith, length-append pending (c.razorpay_customer_id ∷ []), q.counted);
  }

  pub record_delivery-Quiet :
      (case : RecoveryCase) (customer : Customer) (result : TickResult) (delivered : Bool)
      (counter : Counter) (w : World)
      → Quiet result w
      → contains customer.razorpay_customer_id result.pending_cooldowns ≡ false
      → Ends (record_delivery now case customer result delivered counter) w Quiet
  unfolding record_delivery put_case put_customer
  record_delivery-Quiet case customer result false counter w q n = record {
    distinct = q.distinct;
    contacted = q.contacted;
    counted = q.counted;
  }
  record_delivery-Quiet case customer result true counter w q n =
      let more =
        IsQuiet-snoc result.pending_cooldowns (result.contacted + result.linked + result.charged)
          w.db.customers (record customer { last_contacted_at = some now }) q n refl in
      by_counter counter more
    where
      by_counter :
          (counter : Counter)
          → IsQuiet
              (result.pending_cooldowns ++ customer.razorpay_customer_id ∷ [])
              (result.contacted + result.linked + result.charged + 1)
              (replace_customer (record customer { last_contacted_at = some now }) w.db.customers)
          → Ends (record_delivery now case customer result true counter) w Quiet
      by_counter count_contacted q = record {
        distinct = q.distinct;
        contacted = q.contacted;
        counted = omega (arith, q.counted);
      }
      by_counter count_linked q = record {
        distinct = q.distinct;
        contacted = q.contacted;
        counted = omega (arith, q.counted);
      }
      by_counter count_charged q = record {
        distinct = q.distinct;
        contacted = q.contacted;
        counted = omega (arith, q.counted);
      }
