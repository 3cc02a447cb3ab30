-- ===== src/World/Tables.antt =====
-- Changing a mapped object changes its row: the session writes it back. Rows are found by their key.
use dunning_agent.Prelude.{ℕ, String, Bool, Option, List, map, ◌==◌, str_eq, if◌then◌else◌, find?}
use dunning_agent.Model.{Customer, RecoveryCase, VoiceCall}
use dunning_agent.World.Monad.{Db, Exec, modify}

-- Every row that passes the test is replaced.
abbrev pub replace_where : {A : Type 0} → (A → Bool) → A → List A → List A
replace_where test new rows = map (λ row. if test row then new else row) rows

unfoldable pub put_case : RecoveryCase → Db → Db
put_case case db = record db { cases = replace_where (λ row. row.id == case.id) case db.cases }

unfoldable pub put_customer : Customer → Db → Db
put_customer customer db = record db {
  customers =
      replace_where (λ row. str_eq row.razorpay_customer_id customer.razorpay_customer_id) customer
        db.customers;
}

abbrev pub save_case : RecoveryCase → Exec (Unit {0})
save_case case = modify (put_case case)

abbrev pub save_customer : Customer → Exec (Unit {0})
save_customer customer = modify (put_customer customer)

-- `session.get(RecoveryCase, id)`
unfoldable pub get_case : ℕ → Db → Option RecoveryCase
get_case id db = find? (λ row. row.id == id) db.cases

unfoldable pub get_customer : String → Db → Option Customer
get_customer id db = find? (λ row. str_eq row.razorpay_customer_id id) db.customers

unfoldable pub put_voice_call : VoiceCall → Db → Db
put_voice_call call db = record db {
  voice_calls = replace_where (λ row. row.id == call.id) call db.voice_calls;
}

abbrev pub save_voice_call : VoiceCall → Exec (Unit {0})
save_voice_call call = modify (put_voice_call call)

-- `session.get(VoiceCall, id)`
unfoldable pub get_voice_call : ℕ → Db → Option VoiceCall
get_voice_call id db = find? (λ row. row.id == id) db.voice_calls
