-- ===== src/Webhooks/Frame.antt =====
-- What webhooks.service.ts dispatches to writes no row of the table of webhook events.
use meduman_backend.Prelude.{
  or_else, String, ◌≡◌, ap, ◌∙◌, inl, inr, Bool, true, false, Option, none, some, List, arith,
}
use meduman_backend.Store.Rows.{Payment, Payout, WebhookEvent}
use meduman_backend.Store.World.{World, payment_table, payout_table}
use meduman_backend.Store.Action.{gets, or_throw, select, update, truthy, result_of, Result-cases}
use meduman_backend.Store.Keeps.{
  Keeps, Keeps-pure, Keeps-throw, Keeps-gets, Keeps-or_throw, Keeps-if, Keeps-select, Keeps-bind,
  Keeps-seq,
}
use meduman_backend.Transactions.{ApplyTransitionInput, apply}
use meduman_backend.Transactions.Apply.{apply_error_unchanged, refused, apply-Applied}
use meduman_backend.Paystack.{Charge, Provider, verify_transaction}
use meduman_backend.Payouts.{has_key, is_success}
use meduman_backend.Payouts.Settle.{
  payout_not_found, settled_transition, mark_success, mark_paid, Failure, failed_transfer,
  reversed_transfer, mark_failed,
}
use meduman_backend.Invoices.Lifecycle.{write_audit, mark_paid_by_transaction}
use meduman_backend.Payments.{
  TrustedPaymentSource, by_webhook, has_payment_id, has_reference, is_paid, notify_protected,
  protect_transition, mark_verified, protect_payment, act_on_charge, heal_invoice,
  verify_and_protect_payment, resolve_dva_payment, protect_resolved, charge_of_customer,
  charge_unless_hosted, handle_charge_success,
}
use meduman_backend.Payments.Collect.{attach_dedicated_account}
use meduman_backend.Webhooks.{
  PaystackWebhookPayload, EventKind, charge_success, account_assigned, transfer_success,
  transfer_failed, transfer_reversed, other_event, kind_of, route_charge, route_account, route_paid,
  failure_reason, route_failed, route_kind, route,
}

abbrev pub SameEvents : List WebhookEvent → World → Type 0
SameEvents events w = w.webhook_events ≡ events

module _ (events : List WebhookEvent) where
  apply-Keeps : (input : ApplyTransitionInput) → Keeps (SameEvents events) (apply input)
  apply-Keeps input = record {
    at = λ w h. elim (Result-cases (result_of (apply input) w)) [
      | inl (row, moved) ↦
          let (outbound, drawn, jobs, written) = (apply-Applied input w row moved).written in
          ap (λ (v : World). v.webhook_events) written ∙ h
      | inr (e, refused) ↦
          ap (λ (v : World). v.webhook_events) (apply_error_unchanged input w e refused) ∙ h
    ];
  }

  update_payment-Keeps :
      (p : Payment → Bool) (f : Payment → Payment)
      → Keeps (SameEvents events) (update payment_table p f)
  update_payment-Keeps p f = record { at = λ w h. ground (arith, h) }

  update_payout-Keeps :
      (p : Payout → Bool) (f : Payout → Payout)
      → Keeps (SameEvents events) (update payout_table p f)
  update_payout-Keeps p f = record { at = λ w h. ground (arith, h) }

  mark_paid_by_transaction-Keeps :
      (id : String) → Keeps (SameEvents events) (mark_paid_by_transaction id)
  unfolding mark_paid_by_transaction write_audit
  mark_paid_by_transaction-Keeps id = record { at = λ w h. ground (arith, h) }

  notify_protected-Keeps : (id : String) → Keeps (SameEvents events) (notify_protected id)
  unfolding notify_protected
  notify_protected-Keeps id = record { at = λ w h. ground (arith, h) }

  heal_invoice-Keeps : (p : Payment) → Keeps (SameEvents events) (heal_invoice p)
  unfolding heal_invoice
  heal_invoice-Keeps p =
      Keeps-seq (mark_paid_by_transaction p.transaction_id) _
        (mark_paid_by_transaction-Keeps p.transaction_id) (Keeps-pure p)

  protect_payment-Keeps :
      (p : Payment) (reference : String) (source : TrustedPaymentSource)
      → Keeps (SameEvents events) (protect_payment p reference source)
  unfolding protect_payment
  protect_payment-Keeps p reference source = Keeps-bind (gets (λ w. w.now)) _ (Keeps-gets _) (λ now.
      Keeps-bind (update payment_table (has_payment_id p.id) (mark_verified now)) _
        (update_payment-Keeps _ _)
        (λ updated. Keeps-seq (apply (protect_transition p reference source)) _ (apply-Keeps _) (
          Keeps-seq (mark_paid_by_transaction p.transaction_id) _ (mark_paid_by_transaction-Keeps _)
            (Keeps-seq (notify_protected p.transaction_id) _ (notify_protected-Keeps _)
              (Keeps-pure updated)))))

  act_on_charge-Keeps :
      (p : Payment) (reference : String) (source : TrustedPaymentSource) (charge : Charge)
      → Keeps (SameEvents events) (act_on_charge p reference source charge)
  unfolding act_on_charge
  act_on_charge-Keeps p reference source charge =
      Keeps-if _ _ _ (update_payment-Keeps _ _)
        (Keeps-if _ _ _ (Keeps-throw _) (protect_payment-Keeps p reference source))

  resolve_dva_payment-Keeps :
      (customer_code reference : String)
      → Keeps (SameEvents events) (resolve_dva_payment customer_code reference)
  unfolding resolve_dva_payment
  resolve_dva_payment-Keeps customer_code reference = record { at = λ w h. ground (arith, h) }

  attach_dedicated_account-Keeps :
      (a b c : String) (d : Option String)
      → Keeps (SameEvents events) (attach_dedicated_account a b c d)
  unfolding attach_dedicated_account
  attach_dedicated_account-Keeps a b c d = record { at = λ w h. ground (arith, h) }

  mark_failed-Keeps :
      (key : String) (status : Failure) (reason : String)
      → Keeps (SameEvents events) (mark_failed key status reason)
  unfolding mark_failed
  mark_failed-Keeps key status reason = record { at = λ w h. ground (arith, h) }

  mark_paid-Keeps : (key code : String) → Keeps (SameEvents events) (mark_paid key code)
  unfolding mark_paid
  mark_paid-Keeps key code =
      Keeps-bind (select payout_table (has_key key)) _ (Keeps-select payout_table _) (λ found.
        Keeps-bind (or_throw found (payout_not_found key)) _ (Keeps-or_throw _ _) (λ p.
          Keeps-if (is_success p.status) _ _ (Keeps-pure p) (
            Keeps-bind (update payout_table (has_key key) (mark_success code)) _
              (update_payout-Keeps _ _)
              (λ updated.
                Keeps-seq (apply (settled_transition p key code)) _ (apply-Keeps _)
                  (Keeps-pure updated)))))

  module _ (provider : Provider) where
    verify_and_protect_payment-Keeps :
        (p : Payment) (reference : String) (source : TrustedPaymentSource)
        → Keeps (SameEvents events) (verify_and_protect_payment provider p reference source)
    unfolding verify_and_protect_payment verify_transaction
    verify_and_protect_payment-Keeps p reference source =
        Keeps-if (is_paid p.status) _ _ (heal_invoice-Keeps p) (
          Keeps-bind (verify_transaction provider reference) _ (record { at = λ w h. h })
            (λ charge. act_on_charge-Keeps p reference source charge))

    protect_resolved-Keeps :
        (reference : String) (source : TrustedPaymentSource) (o : Option Payment)
        → Keeps (SameEvents events) (protect_resolved provider reference source o)
    protect_resolved-Keeps reference source none = Keeps-pure false
    protect_resolved-Keeps reference source (some p) =
        Keeps-seq (verify_and_protect_payment provider p reference source) _
          (verify_and_protect_payment-Keeps p reference source) (Keeps-pure true)

    charge_of_customer-Keeps :
        (reference : String) (source : TrustedPaymentSource) (o : Option String)
        → Keeps (SameEvents events) (charge_of_customer provider reference source o)
    charge_of_customer-Keeps reference source none = Keeps-pure false
    charge_of_customer-Keeps reference source (some code) =
        Keeps-bind (resolve_dva_payment code reference) _ (resolve_dva_payment-Keeps code reference)
          (λ o. protect_resolved-Keeps reference source o)

    charge_unless_hosted-Keeps :
        (reference : String) (source : TrustedPaymentSource) (code : Option String)
        (o : Option Payment)
        → Keeps (SameEvents events) (charge_unless_hosted provider reference source code o)
    charge_unless_hosted-Keeps reference source code (some p) =
        protect_resolved-Keeps reference source (some p)
    charge_unless_hosted-Keeps reference source code none =
        charge_of_customer-Keeps reference source (truthy code)

    handle_charge_success-Keeps :
        (reference : String) (code : Option String) (source : TrustedPaymentSource)
        → Keeps (SameEvents events) (handle_charge_success provider reference code source)
    unfolding handle_charge_success
    handle_charge_success-Keeps reference code source =
        Keeps-bind (select payment_table (has_reference reference)) _ (Keeps-select payment_table _)
          (λ o. charge_unless_hosted-Keeps reference source code o)

    route_charge-Keeps :
        (payload : PaystackWebhookPayload) (o : Option String)
        → Keeps (SameEvents events) (route_charge provider payload o)
    route_charge-Keeps payload none = Keeps-pure false
    route_charge-Keeps payload (some reference) =
        handle_charge_success-Keeps reference (truthy payload.customer_code) by_webhook

  route_account-Keeps :
      (payload : PaystackWebhookPayload) (a b : Option String)
      → Keeps (SameEvents events) (route_account payload a b)
  route_account-Keeps payload none b = Keeps-pure false
  route_account-Keeps payload (some a) none = Keeps-pure false
  route_account-Keeps payload (some a) (some b) =
      Keeps-seq (attach_dedicated_account a b (or_else payload.bank_name "bank") payload.account_id)
        _ (attach_dedicated_account-Keeps _ _ _ _) (Keeps-pure true)

  route_paid-Keeps : (a b : Option String) → Keeps (SameEvents events) (route_paid a b)
  route_paid-Keeps none b = Keeps-pure false
  route_paid-Keeps (some a) none = Keeps-pure false
  route_paid-Keeps (some a) (some b) =
      Keeps-seq (mark_paid a b) _ (mark_paid-Keeps a b) (Keeps-pure true)

  route_failed-Keeps :
      (status : Failure) (payload : PaystackWebhookPayload) (o : Option String)
      → Keeps (SameEvents events) (route_failed status payload o)
  route_failed-Keeps status payload none = Keeps-pure false
  route_failed-Keeps status payload (some reference) =
      Keeps-seq (mark_failed reference status (failure_reason payload)) _ (mark_failed-Keeps _ _ _)
        (Keeps-pure true)

  module _ (provider : Provider) where
    route_kind-Keeps :
        (kind : EventKind) (payload : PaystackWebhookPayload)
        → Keeps (SameEvents events) (route_kind provider kind payload)
    route_kind-Keeps charge_success payload =
        route_charge-Keeps provider payload (truthy payload.reference)
    route_kind-Keeps account_assigned payload =
        route_account-Keeps payload (truthy payload.customer_code) (truthy payload.account_number)
    route_kind-Keeps transfer_success payload =
        route_paid-Keeps (truthy payload.reference) (truthy payload.transfer_code)
    route_kind-Keeps transfer_failed payload =
        route_failed-Keeps failed_transfer payload (truthy payload.reference)
    route_kind-Keeps transfer_reversed payload =
        route_failed-Keeps reversed_transfer payload (truthy payload.reference)
    route_kind-Keeps other_event payload = Keeps-pure false

    -- No event that Paystack sends touches the record of the events before it.
    pub route-Keeps :
        (payload : PaystackWebhookPayload) → Keeps (SameEvents events) (route provider payload)
    unfolding route
    route-Keeps payload = route_kind-Keeps (kind_of payload.event) payload
