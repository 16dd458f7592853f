-- ===== src/Payments.antt =====
-- modules/payments/payments.service.ts: `verifyAndProtect` and what leads to it, the only way that money
-- becomes protected. Opening a collection is Payments.Collect.
pub mod Collect
pub mod Account
pub mod Verified
pub mod Protect
pub mod Laws
pub mod Once
mod Examples
use meduman_backend.Prelude.{
  ◌==◌, if◌then◌else◌, or_else, is_some, ◌===◌, concat, ℕ, String, Bool, true, false, not, ◌&&◌,
  Option, none, some, [], ◌∷◌,
}
use meduman_backend.Prelude.Int.{ℤ, pos, ◌+ℤ◌, ◌=ℤ◌}
use meduman_backend.Store.Enums.{
  FeeModel, buyer_pays, seller_pays, PaymentStatus, abandoned, system,
}
use meduman_backend.Store.Rows.{text, number, Metadata, Transaction, Payment}
use meduman_backend.Store.World.{chat_outbound, transaction_table, payment_table}
use meduman_backend.Store.Action.{
  not_found, amount_mismatch, Action, pure, throw, gets, or_throw, ◌>>=◌, ◌>>◌, enqueue, select,
  update_rows, update, truthy, same_text?,
}
use meduman_backend.Machine.{PaymentSource, webhook, server_verify, payment_verified}
use meduman_backend.Transactions.{ApplyTransitionInput, has_id, apply}
use meduman_backend.Paystack.{Charge, Provider, verify_transaction}
use meduman_backend.Invoices.Lifecycle.{mark_paid_by_transaction}

-- The sources that the service may pass on: `TrustedPaymentSource`.
pub data TrustedPaymentSource : Type 0 where
  by_webhook by_server_verify : TrustedPaymentSource

abbrev pub payment_source : TrustedPaymentSource → PaymentSource
payment_source by_webhook = webhook
payment_source by_server_verify = server_verify

abbrev source_name : TrustedPaymentSource → String
source_name by_webhook = "WEBHOOK"
source_name by_server_verify = "SERVER_VERIFY"

-- `chargeAmountFor`
unfoldable pub charge_amount : Transaction → ℤ
charge_amount tx = tx.amount +ℤ fee_due tx.fee_model tx.fee_amount
  where
    fee_due : FeeModel → ℤ → ℤ
    fee_due buyer_pays fee_amount = fee_amount
    fee_due seller_pays fee_amount = pos 0

abbrev pub has_payment_id : String → Payment → Bool
has_payment_id id p = p.id === id

abbrev pub has_reference : String → Payment → Bool
has_reference reference p = p.provider_reference === reference

abbrev pub has_charge_reference : String → Payment → Bool
has_charge_reference reference p = same_text? p.provider_charge_reference (some reference)

abbrev pub of_customer : String → Payment → Bool
of_customer customer_code p = same_text? p.provider_customer_code (some customer_code)

abbrev pub is_paid : PaymentStatus → Bool
is_paid PaymentStatus.success = true
is_paid _ = false

abbrev pub is_pending : PaymentStatus → Bool
is_pending PaymentStatus.pending = true
is_pending _ = false

abbrev protected_entry : Transaction → Metadata
protected_entry tx = ("transactionTitle", text tx.title) ∷ ("amount", number tx.amount) ∷ []

abbrev push_protected : Transaction → Option String → Action (Unit {0})
push_protected tx none = pure tt
push_protected tx (some buyer_id) =
    enqueue (chat_outbound buyer_id "payment.protected_buyer" (protected_entry tx))

-- `notifyProtected` of a transaction that is there.
abbrev notify_parties : Option Transaction → Action (Unit {0})
notify_parties none = pure tt
notify_parties (some tx) = do
  push_protected tx (truthy tx.buyer_id)
  enqueue (chat_outbound tx.seller_id "payment.protected_seller" (protected_entry tx))

-- `notifyProtected`
unfoldable pub notify_protected : String → Action (Unit {0})
notify_protected transaction_id = do
  found ← select transaction_table (has_id transaction_id)
  notify_parties found

-- The transition that a verified payment asks for.
abbrev pub protect_transition : Payment → String → TrustedPaymentSource → ApplyTransitionInput
protect_transition p verify_reference source = record {
  transaction_id = p.transaction_id;
  event = payment_verified (payment_source source);
  actor = record { id = none; type = system; role = some "SYSTEM" };
  reason =
      some (concat ("payment " ∷ verify_reference ∷ " verified via " ∷ source_name source ∷ []));
  has_open_dispute = none;
  auto_confirm_window_elapsed = none;
}

abbrev pub mark_payment : PaymentStatus → Payment → Payment
mark_payment status p = record p { status = status }

abbrev pub mark_verified : ℕ → Payment → Payment
mark_verified now p = record p { status = PaymentStatus.success; verified_at = some now }

-- What a charge that did not succeed makes of the payment.
abbrev pub failure_of : Charge → PaymentStatus
failure_of charge = if charge.status === "abandoned" then abandoned else PaymentStatus.failed

-- The rest of `verifyAndProtectPayment` once the charge is a success of the expected amount.
unfoldable pub protect_payment : Payment → String → TrustedPaymentSource → Action Payment
protect_payment p verify_reference source = do
  now ← gets (λ w. w.now)
  updated ← update payment_table (has_payment_id p.id) (mark_verified now)
  apply (protect_transition p verify_reference source)
  mark_paid_by_transaction p.transaction_id
  notify_protected p.transaction_id
  pure updated

-- What `verifyAndProtectPayment` does with Paystack's answer.
unfoldable pub act_on_charge : Payment → String → TrustedPaymentSource → Charge → Action Payment
act_on_charge p verify_reference source charge =
    if not (charge.status === "success")
    then update payment_table (has_payment_id p.id) (mark_payment (failure_of charge))
    else if not (charge.amount =ℤ p.amount)
    then throw (amount_mismatch verify_reference p.amount charge.amount)
    else protect_payment p verify_reference source

-- The branch of `verifyAndProtectPayment` for a payment that has succeeded before.
unfoldable pub heal_invoice : Payment → Action Payment
heal_invoice p = do mark_paid_by_transaction p.transaction_id; pure p

module _ (provider : Provider) where
  -- `verifyAndProtectPayment`
  unfoldable pub verify_and_protect_payment :
      Payment → String → TrustedPaymentSource → Action Payment
  verify_and_protect_payment p verify_reference source =
      if is_paid p.status then heal_invoice p else do
        charge ← verify_transaction provider verify_reference
        act_on_charge p verify_reference source charge

  -- `verifyAndProtect`
  unfoldable pub verify_and_protect : String → TrustedPaymentSource → Action Payment
  verify_and_protect reference source = do
    found ← select payment_table (has_reference reference)
    p ← or_throw found (not_found (concat ("Payment " ∷ reference ∷ " not found" ∷ [])))
    verify_and_protect_payment p reference source

  -- `reconcilePayment`
  unfoldable pub reconcile_payment : String → Action Payment
  reconcile_payment id = do
    found ← select payment_table (has_payment_id id)
    p ← or_throw found (not_found (concat ("Payment " ∷ id ∷ " not found" ∷ [])))
    if not (is_pending p.status)
        then pure p
        else verify_and_protect_payment p (or_else p.provider_charge_reference p.provider_reference)
            by_server_verify

-- The rows that may still be bound to a charge.
abbrev pub unbound : String → Payment → Bool
unbound id p = p.id === id && not (is_some p.provider_charge_reference)

abbrev pub bind_charge : String → Payment → Payment
bind_charge reference p = record p { provider_charge_reference = some reference }

-- `resolveDvaPayment` with the newest payment of the customer.
abbrev bind_newest : String → Option Payment → Action (Option Payment)
bind_newest charge_reference none = pure none
bind_newest charge_reference (some p) = do
  bound ← update_rows payment_table (unbound p.id) (bind_charge charge_reference)
  if not (bound == 1)
      then select payment_table (has_charge_reference charge_reference)
      else select payment_table (has_payment_id p.id)

abbrev bind_unless : String → String → Option Payment → Action (Option Payment)
bind_unless customer_code charge_reference (some p) = pure (some p)
bind_unless customer_code charge_reference none = do
  newest ← select payment_table (of_customer customer_code)
  bind_newest charge_reference newest

-- `resolveDvaPayment`
unfoldable pub resolve_dva_payment : String → String → Action (Option Payment)
resolve_dva_payment customer_code charge_reference = do
  already_bound ← select payment_table (has_charge_reference charge_reference)
  bind_unless customer_code charge_reference already_bound

module _ (provider : Provider) where
  abbrev pub protect_resolved : String → TrustedPaymentSource → Option Payment → Action Bool
  protect_resolved reference source none = pure false
  protect_resolved reference source (some p) = do
    verify_and_protect_payment provider p reference source
    pure true

  abbrev pub charge_of_customer : String → TrustedPaymentSource → Option String → Action Bool
  charge_of_customer reference source none = pure false
  charge_of_customer reference source (some customer_code) = do
    resolved ← resolve_dva_payment customer_code reference
    protect_resolved reference source resolved

  abbrev pub charge_unless_hosted :
      String → TrustedPaymentSource → Option String → Option Payment → Action Bool
  charge_unless_hosted reference source customer_code (some hosted) =
      protect_resolved reference source (some hosted)
  charge_unless_hosted reference source customer_code none =
      charge_of_customer reference source (truthy customer_code)

  -- `handleChargeSuccess`
  unfoldable pub handle_charge_success : String → Option String → TrustedPaymentSource → Action Bool
  handle_charge_success reference customer_code source = do
    hosted ← select payment_table (has_reference reference)
    charge_unless_hosted reference source customer_code hosted
