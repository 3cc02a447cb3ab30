-- ===== src/PaymentLinks.antt =====
-- app/payment_links.py: the reference that attributes a payment to its case, and the link itself.
pub mod Decimal
pub mod RoundTrip
pub mod Attribution
use dunning_agent.Prelude.{
  ℕ, zero, suc, ◌+◌, ◌/◌, String, Bool, true, false, ◌&&◌, not, Option, none, some, List, [], ◌∷◌,
  ◌++◌, ◌==◌, truthy, get_or, if◌then◌else◌, take, drop,
}
use dunning_agent.Prelude.Text.{Codes, codes, codes_eq, strip}
use dunning_agent.Model.{Time, hours, Settings, Customer, RecoveryCase, Value, Metadata, ActionType}
use dunning_agent.World.{
  LinkEntity, LinkPayload, Request, Env, Exn, Result, ok, err, Exec, pure, ask, attempt, ◌>>=◌,
  ◌>>◌, log_action, save_case,
}
use dunning_agent.PaymentLinks.Decimal.{ℤ, to_decimal, parse_int}

pub record PaymentLink : Type 0 where
  pub id : String
  pub short_url : String
  pub reference_id : Codes

unfoldable pub reference_prefix : Codes
reference_prefix = codes "recovery-"

abbrev max_reference_chars : ℕ
max_reference_chars = 40

abbrev pub suffix : Codes → Codes
suffix [] = []
suffix (c ∷ s) = b'-' ∷ c ∷ s

unfoldable pub reference_id_for : Settings → RecoveryCase → Codes
reference_id_for settings case = take max_reference_chars (
    reference_prefix
    ++ (to_decimal case.id
        ++ (b'-'
            ∷ (to_decimal case.attempt_count
                ++ suffix (strip settings.payment_reference_namespace)))))

-- `text.split("-")[0]`
unfoldable pub first_segment : Codes → Codes
first_segment [] = []
first_segment (c ∷ s) = let rest = c ∷ first_segment s in if c == b'-' then [] else rest

-- `text.startswith(prefix)`
unfoldable pub starts_with : Codes → Codes → Bool
starts_with text [] = true
starts_with [] (p ∷ prefix) = false
starts_with (c ∷ text) (p ∷ prefix) = c == p && starts_with text prefix

-- The prefix has nine characters. An empty reference does not start with it.
unfoldable pub case_id_from_reference : Option Codes → Option ℤ
case_id_from_reference none = none
case_id_from_reference (some reference_id) =
    if not (starts_with reference_id reference_prefix)
    then none
    else parse_int (first_segment (drop 9 reference_id))

-- An optional field that is set only where it is truthy.
abbrev present : Option String → Option String
present o = if truthy o then o else none

unfoldable pub build_payload : RecoveryCase → Customer → Settings → ℕ → LinkPayload
build_payload case customer settings expire_at = record {
  amount = case.original_amount;
  currency = case.currency;
  company_name = settings.company_name;
  reference_id = reference_id_for settings case;
  expire_by = expire_at;
  recovery_case_id = to_decimal case.id;
  failed_payment_id = case.razorpay_payment_id;
  notify_sms = truthy customer.phone;
  notify_email = truthy customer.email;
  name = present customer.name;
  contact = present customer.phone;
  email = present customer.email;
}

abbrev delivered : Result (Unit {0}) → String → List String → List String
delivered (ok _) medium rest = medium ∷ rest
delivered (err _) medium rest = rest

-- One medium of the loop of `_notify_existing_link`, and then the rest of them.
unfoldable pub notify_one : Env → String → String → Exec (List String) → Exec (List String)
notify_one env link_id medium rest = do
  outcome ←
      attempt (
        ask (Request.notify_payment_link link_id medium)
          (env.on_notify_payment_link link_id medium))
  reached ← rest
  pure (delivered outcome medium reached)

-- The loop of `_notify_existing_link` over the media.
unfoldable pub notify_media : Env → String → List (String × Option String) → Exec (List String)
notify_media env link_id [] = pure []
notify_media env link_id ((medium, contact) ∷ media) =
    let rest = notify_media env link_id media in
    if not (truthy contact) then rest else notify_one env link_id medium rest

unfoldable pub notify_existing_link : Env → String → RecoveryCase → Customer → Exec (List String)
notify_existing_link env link_id case customer =
    notify_media env link_id (("sms", customer.phone) ∷ ("email", customer.email) ∷ [])

-- What is written once the link was delivered again.
unfoldable pub log_resend :
    Settings → RecoveryCase → String → String → List String → Exec (RecoveryCase × PaymentLink)
log_resend settings case link_id link_url resent_via = do
  log_action case.id ActionType.payment_link_created (
      ("payment_link_id", Value.text link_id)
      ∷ ("short_url", Value.text link_url)
      ∷ ("created", Value.bool false)
      ∷ ("resent_via", Value.texts resent_via)
      ∷ [])
  pure (
    case,
    record { id = link_id; short_url = link_url; reference_id = reference_id_for settings case },
  )

-- The branch of `create_recovery_link` for a case that has a link: it is delivered again.
unfoldable pub resend_link :
    Env → Settings → RecoveryCase → Customer → String → String → Exec (RecoveryCase × PaymentLink)
resend_link env settings case customer link_id link_url =
    notify_existing_link env link_id case customer >>= log_resend settings case link_id link_url

-- The case as a link is written on it.
abbrev pub with_link : String → String → Time → RecoveryCase → RecoveryCase
with_link id url now case = record case {
  payment_link_id = some id;
  payment_link_url = some url;
  payment_link_sent_at = some now;
}

-- `entity.get("reference_id") or ours`
abbrev given_reference : Option Codes → Codes → Codes
given_reference none ours = ours
given_reference (some []) ours = ours
given_reference (some (c ∷ s)) ours = c ∷ s

-- `expire_by`: the end of the link's life, in whole seconds.
abbrev pub expiry : Settings → Time → ℕ
expiry settings now = (now + hours settings.payment_link_expiry_hours) / 1_000_000

-- What is written once Razorpay has made the link.
unfoldable pub write_link :
    Settings → RecoveryCase → Customer → Time → LinkEntity → Exec (RecoveryCase × PaymentLink)
write_link settings case customer now entity =
    let reference = given_reference entity.reference_id (reference_id_for settings case) in
    do
      save_case (with_link entity.id entity.short_url now case)
      log_action case.id ActionType.payment_link_created (
          ("payment_link_id", Value.text entity.id)
          ∷ ("short_url", Value.text entity.short_url)
          ∷ ("reference_id", Value.chars reference)
          ∷ ("amount", Value.num case.original_amount)
          ∷ ("expire_by", Value.num (expiry settings now))
          ∷ ("notified_sms", Value.bool (truthy customer.phone))
          ∷ [])
      pure (
        with_link entity.id entity.short_url now case,
        record { id = entity.id; short_url = entity.short_url; reference_id = reference },
      )

-- The branch for a case that has none.
unfoldable pub new_link :
    Env → Settings → RecoveryCase → Customer → Time → Exec (RecoveryCase × PaymentLink)
new_link env settings case customer now =
    let payload = build_payload case customer settings (expiry settings now) in
    do
      entity ← ask (Request.create_payment_link payload) (env.on_create_payment_link payload)
      write_link settings case customer now entity

-- The link that a case already carries, if both of its parts are set.
abbrev both : Option String → Option String → Option (String × String)
both none _ = none
both (some i) none = none
both (some i) (some u) = if truthy (some i) && truthy (some u) then some (i, u) else none

unfoldable pub existing_link : RecoveryCase → Option (String × String)
existing_link case = both case.payment_link_id case.payment_link_url

unfoldable pub link_by :
    Env
    → Settings
    → RecoveryCase
    → Customer
    → Time
    → Option (String × String)
    → Exec (RecoveryCase × PaymentLink)
link_by env settings case customer now none = new_link env settings case customer now
link_by env settings case customer now (some (link_id, link_url)) =
    resend_link env settings case customer link_id link_url

-- The case comes back with the link that was written on it.
unfoldable pub create_recovery_link :
    Env → Settings → RecoveryCase → Customer → Time → Exec (RecoveryCase × PaymentLink)
create_recovery_link env settings case customer now =
    link_by env settings case customer now (existing_link case)
