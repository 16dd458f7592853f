-- ===== src/Payments/Verified.antt =====
-- `verifyAndProtectPayment` of payments.service.ts: what it leaves as it was where Paystack does not verify the payment.
use mathlib.Core.Option
use meduman_backend.Prelude.{
  if◌then◌else◌, Bool-cases, Option-cases, ◌===◌, String, ◌≡◌, refl, sym, ap, ◌∙◌, subst, ◌⊎◌, inl,
  inr, false, Option, none, some, arith, eq_iff,
}
use meduman_backend.Prelude.Int.{◌=ℤ◌, eq_of_=ℤ}
use meduman_backend.Store.Enums.{PaymentStatus}
use meduman_backend.Store.Rows.{Payment}
use meduman_backend.Store.World.{World, payment_table}
use meduman_backend.Store.Table.{find_first, find_first-update_many}
use meduman_backend.Store.Action.{Result, ok, update, world_after, result_of, bind_ok, Result-cases}
use meduman_backend.Paystack.{Charge, Provider, request, verify_transaction}
use meduman_backend.Invoices.Lifecycle.{write_audit, mark_paid_by_transaction}
use meduman_backend.Payments.{
  TrustedPaymentSource, has_payment_id, is_paid, mark_payment, failure_of, act_on_charge,
  heal_invoice, verify_and_protect_payment,
}

-- Paystack, asked by the server, reports a successful charge of exactly the payment's amount.
abbrev pub IsVerified : Provider → String → Payment → Type 0
IsVerified provider reference p =
    (charge : Charge) × (request (provider.get_charge reference) ≡ ok charge)
    × (charge.status ≡ "success")
    × (charge.amount ≡ p.amount)

module _ (transaction_id : String) where
  -- Deriving PAID on an invoice touches no transaction, no timeline and no payment.
  pub mark_paid_by_transaction-frame :
      (w : World)
      → let w' = world_after (mark_paid_by_transaction transaction_id) w in
        (w'.transactions ≡ w.transactions)
        × (w'.timeline ≡ w.timeline)
        × (w'.payments ≡ w.payments)
        × (w'.jobs ≡ w.jobs)
  unfolding mark_paid_by_transaction write_audit
  mark_paid_by_transaction-frame w = (ground arith, ground arith, ground arith, ground arith)

-- Nor does a repeated success of a payment that has succeeded, which comes back as it is.
pub heal_invoice-frame :
    (p : Payment) (w : World)
    → let w' = world_after (heal_invoice p) w in
      (result_of (heal_invoice p) w ≡ ok p)
      × (w'.transactions ≡ w.transactions)
      × (w'.timeline ≡ w.timeline)
      × (w'.payments ≡ w.payments)
      × (w'.jobs ≡ w.jobs)
unfolding heal_invoice mark_paid_by_transaction write_audit
heal_invoice-frame p w = (ground arith, ground arith, ground arith, ground arith, ground arith)

-- The payment without its status.
abbrev pub unsettled : Payment → Payment
unsettled p = record p { status = PaymentStatus.pending }

-- Every payment is found by its id as before, but for its status.
abbrev pub SamePayments : World → World → Type 0
SamePayments w w' =
    (id : String)
    → Option.map unsettled (find_first (has_payment_id id) w'.payments)
      ≡ Option.map unsettled (find_first (has_payment_id id) w.payments)

marked-SamePayments :
    (p : Payment) (status : PaymentStatus) (w : World)
    → SamePayments w
        (world_after (update payment_table (has_payment_id p.id) (mark_payment status)) w)
unfolding find_first
marked-SamePayments p status w id =
    elim (Option-cases (find_first (has_payment_id p.id) w.payments)) [
      | inl none_ ↦ rw none_ refl
      | inr (row, found) ↦ rw found (
          ap (Option.map unsettled) (
            find_first-update_many (has_payment_id id) (has_payment_id p.id) (mark_payment status)
              w.payments (λ a. refl))
          ∙ unmarked (find_first (has_payment_id id) w.payments))
    ]
  where
    unmarked :
        (o : Option Payment)
        → Option.map unsettled
            (Option.map (λ a. if has_payment_id p.id a then mark_payment status a else a) o)
          ≡ Option.map unsettled o
    unmarked none = refl
    unmarked (some a) = ground arith

module _ (provider : Provider) where
  -- A charge that Paystack does not call a success only changes the payment's status.
  unpaid_runs :
      (p : Payment) (reference : String) (source : TrustedPaymentSource) (charge : Charge)
      (w : World)
      → is_paid p.status ≡ false
      → request (provider.get_charge reference) ≡ ok charge
      → (charge.status === "success") ≡ false
      → verify_and_protect_payment provider p reference source w
        ≡ update payment_table (has_payment_id p.id) (mark_payment (failure_of charge)) w
  unfolding verify_and_protect_payment verify_transaction act_on_charge
  unpaid_runs p reference source charge w open_ answered failed_ = rw open_ (
      bind_ok (verify_transaction provider reference) (act_on_charge p reference source) {w = w}
        {a = charge} {w' = w} (ground (arith, answered))
      ∙ rw failed_ refl)

  -- Unless the payment is not yet SUCCESS and Paystack has verified it for its amount, no status and no
  -- timeline changes and no payment but in its status, whatever the source and the state of the transaction.
  pub protect_or_frame :
      (p : Payment) (reference : String) (source : TrustedPaymentSource) (w : World)
      → ((is_paid p.status ≡ false) × IsVerified provider reference p)
        ⊎ (((world_after (verify_and_protect_payment provider p reference source) w).transactions
              ≡ w.transactions)
            × ((world_after (verify_and_protect_payment provider p reference source) w).timeline
                ≡ w.timeline)
            × SamePayments w
                (world_after (verify_and_protect_payment provider p reference source) w))
  unfolding verify_and_protect_payment verify_transaction act_on_charge heal_invoice
  protect_or_frame p reference source w = elim (Bool-cases (is_paid p.status)) [
    | inl done ↦
        let (returned, transactions, timeline, payments, jobs) = heal_invoice-frame p w in
        inr (
          rw done transactions,
          rw done timeline,
          λ id.
              ap (λ ps. Option.map unsettled (find_first (has_payment_id id) ps))
                (rw done payments),
        )
    | inr open_ ↦ elim (Result-cases (request (provider.get_charge reference))) [
      | inr (e, silent) ↦ inr (ground arith, ground arith, λ id. ground arith)
      | inl (charge, answered) ↦ elim (Bool-cases (charge.status === "success")) [
        | inr failed_ ↦ inr (
          ground arith,
          ground arith,
          subst (λ (r : Result Payment × World). SamePayments w r.1)
              (sym (unpaid_runs p reference source charge w open_ answered failed_))
              (marked-SamePayments p (failure_of charge) w),
        )
        | inl paid_ ↦ elim (Bool-cases (charge.amount =ℤ p.amount)) [
          | inr differs ↦ inr (ground arith, ground arith, λ id. ground arith)
          | inl same ↦ inl (
            open_,
            (
              charge,
              answered,
              (eq_iff charge.status "success").0 paid_,
              eq_of_=ℤ charge.amount p.amount same,
            ),
          )
        ]
      ]
    ]
  ]
