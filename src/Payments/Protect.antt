-- ===== src/Payments/Protect.antt =====
-- `verifyAndProtectPayment` and `handleChargeSuccess` of payments.service.ts: money becomes protected only on
-- Paystack's own word, for the expected amount, and what a buyer pays covers what the seller gets.
use meduman_backend.Prelude.{
  ◌==◌, Bool-cases, String, ◌≡◌, refl, ap, ◌∙◌, ◌↔◌, ◌⊎◌, inl, inr, Bool, true, Option, none, some,
  List, arith,
}
use meduman_backend.Prelude.Int.{pos, ◌+ℤ◌, ◌-ℤ◌, ◌≤ℤ◌}
use meduman_backend.Store.Rows.{Transaction, Payment}
use meduman_backend.Store.World.{World}
use meduman_backend.Store.Table.{find_first, count, update_many}
use meduman_backend.Store.Action.{
  Result, ok, Action, pure, continue, ◌>>◌, truthy, world_after, result_of, bind_ok, Result-cases,
}
use meduman_backend.Paystack.{Provider}
use meduman_backend.Payouts.{seller_settlement}
use meduman_backend.Payments.{
  TrustedPaymentSource, charge_amount, has_payment_id, has_reference, has_charge_reference,
  of_customer, is_paid, verify_and_protect_payment, unbound, bind_charge, bind_newest, bind_unless,
  resolve_dva_payment, protect_resolved, charge_of_customer, charge_unless_hosted,
  handle_charge_success,
}
use meduman_backend.Payments.Verified.{IsVerified, heal_invoice-frame, protect_or_frame}

-- What the buyer pays covers what the seller is paid exactly where the fee is not negative, under either
-- fee model; the difference is the fee.
pub charge_covers_settlement :
    (tx : Transaction)
    → (charge_amount tx ≡ seller_settlement tx.amount tx.fee_model tx.fee_amount +ℤ tx.fee_amount)
      × ((seller_settlement tx.amount tx.fee_model tx.fee_amount ≤ℤ charge_amount tx)
          ↔ (pos 0 ≤ℤ tx.fee_amount))
unfolding charge_amount seller_settlement ◌+ℤ◌ ◌-ℤ◌
charge_covers_settlement tx = (ground arith, (λ h. ground arith, λ h. ground arith))

-- A payment that the event names is verified under the reference, or no status and no timeline has changed.
abbrev pub VerifiedOrSame : Provider → String → (Payment → Type 0) → World → World → Type 0
VerifiedOrSame provider reference Named w w' =
    ((p : Payment) × Named p × IsVerified provider reference p)
    ⊎ ((w'.transactions ≡ w.transactions) × (w'.timeline ≡ w.timeline))

-- The payment that a `charge.success` names: by our reference, or by the customer of a virtual account.
abbrev pub Named : String → Option String → World → Payment → Type 0
Named reference customer_code w p =
    (find_first (has_reference reference) w.payments ≡ some p)
    ⊎ ((code : String) × (truthy customer_code ≡ some code)
        × (result_of (resolve_dva_payment code reference) w ≡ ok (some p)))

world_after-then_pure :
    {A B : Type 0} (m : Action A) (b : B) (w : World)
    → world_after (m >> pure b) w ≡ world_after m w
world_after-then_pure m b w = elim (Result-cases (result_of m w)) [
  | inl (a, e) ↦ ap (λ r. (continue r (λ _. pure b) (m w).1).1) e
  | inr (e', e) ↦ ap (λ r. (continue r (λ _. pure b) (m w).1).1) e
]

-- Binding a charge to a payment writes nothing but payments, and never throws.
resolve_dva_payment-frame :
    (customer_code reference : String) (w : World)
    → (o : Option Payment) × (after : World) × (resolve_dva_payment customer_code reference w
        ≡ (ok o, after))
      × (after.transactions ≡ w.transactions)
      × (after.timeline ≡ w.timeline)
unfolding resolve_dva_payment
resolve_dva_payment-frame customer_code reference w =
    unless (find_first (has_charge_reference reference) w.payments)
  where
    bound : Payment → List Payment
    bound p = update_many (unbound p.id) (bind_charge reference) w.payments

    newest :
        (o : Option Payment)
        → (r : Option Payment) × (after : World) × (bind_newest reference o w ≡ (ok r, after))
          × (after.transactions ≡ w.transactions)
          × (after.timeline ≡ w.timeline)
    newest none = (none, w, refl, refl, refl)
    newest (some p) = elim (Bool-cases (count (unbound p.id) w.payments == 1)) [
      | inl one ↦ (
        find_first (has_payment_id p.id) (bound p),
        record w { payments = bound p },
        rw one refl,
        refl,
        refl,
      )
      | inr lost ↦ (
        find_first (has_charge_reference reference) (bound p),
        record w { payments = bound p },
        rw lost refl,
        refl,
        refl,
      )
    ]

    unless :
        (o : Option Payment)
        → (r : Option Payment) × (after : World) × (bind_unless customer_code reference o w
            ≡ (ok r, after))
          × (after.transactions ≡ w.transactions)
          × (after.timeline ≡ w.timeline)
    unless (some p) = (some p, w, refl, refl, refl)
    unless none = newest (find_first (of_customer customer_code) w.payments)

module _ (provider : Provider) where
  protect_resolved-frame :
      (reference : String) (source : TrustedPaymentSource) (o : Option Payment) (w : World)
      → VerifiedOrSame provider reference
          (λ p. o ≡ some p)
          w
          (world_after (protect_resolved provider reference source o) w)
  protect_resolved-frame reference source none w = inr (refl, refl)
  protect_resolved-frame reference source (some p) w =
      let same =
        world_after-then_pure (verify_and_protect_payment provider p reference source) true w in
      elim (protect_or_frame provider p reference source w) [
        | inl (open_, verified) ↦ inl (p, refl, verified)
        | inr (transactions, timeline, payments) ↦ inr (
          ap (λ (v : World). v.transactions) same ∙ transactions,
          ap (λ (v : World). v.timeline) same ∙ timeline,
        )
      ]

  charge_of_customer-frame :
      (reference : String) (source : TrustedPaymentSource) (o : Option String) (w : World)
      → VerifiedOrSame provider reference
          (λ p.
            (code : String) × (o ≡ some code)
            × (result_of (resolve_dva_payment code reference) w ≡ ok (some p)))
          w
          (world_after (charge_of_customer provider reference source o) w)
  charge_of_customer-frame reference source none w = inr (refl, refl)
  charge_of_customer-frame reference source (some customer_code) w =
      let (o, after, runs, transactions, timeline) =
        resolve_dva_payment-frame customer_code reference w in
      let next =
        ap (λ (r : Result Bool × World). r.1)
          (bind_ok (resolve_dva_payment customer_code reference)
            (protect_resolved provider reference source) runs) in
      elim (protect_resolved-frame reference source o after) [
        | inl (p, this, verified) ↦ inl (
          p,
          (
            customer_code,
            refl,
            ap (λ (r : Result (Option Payment) × World). r.0) runs
                ∙ ap (λ (q : Option Payment). ok q) this,
          ),
          verified,
        )
        | inr (kept, told) ↦ inr (
          ap (λ (v : World). v.transactions) next ∙ kept ∙ transactions,
          ap (λ (v : World). v.timeline) next ∙ told ∙ timeline,
        )
      ]

  -- The same for a `charge.success`: unless Paystack verifies, for its amount, the payment that has the reference
  -- or else the one that the customer's charge is bound to, no status and no timeline changes.
  pub charge_protects_only_verified :
      (reference : String) (customer_code : Option String) (source : TrustedPaymentSource)
      (w : World)
      → VerifiedOrSame provider reference
          (Named reference customer_code w)
          w
          (world_after (handle_charge_success provider reference customer_code source) w)
  unfolding handle_charge_success
  charge_protects_only_verified reference customer_code source w =
      routed (find_first (has_reference reference) w.payments) refl
    where
      routed :
          (o : Option Payment)
          → find_first (has_reference reference) w.payments ≡ o
          → VerifiedOrSame provider reference
              (Named reference customer_code w)
              w
              (world_after (charge_unless_hosted provider reference source customer_code o) w)
      routed (some p) e = elim (protect_resolved-frame reference source (some p) w) [
        | inl (q, this, verified) ↦ inl (q, inl (e ∙ this), verified)
        | inr same ↦ inr same
      ]
      routed none e = elim (charge_of_customer-frame reference source (truthy customer_code) w) [
        | inl (q, this, verified) ↦ inl (q, inr this, verified)
        | inr same ↦ inr same
      ]

  -- A payment that is SUCCESS is returned as it is, however often its charge is reported: no status, no
  -- payment and no job changes, and Paystack is not asked.
  pub paid_payment_final :
      (p : Payment) (reference : String) (source : TrustedPaymentSource) (w : World)
      → is_paid p.status ≡ true
      → let w' = world_after (verify_and_protect_payment provider p reference source) w in
        (result_of (verify_and_protect_payment provider p reference source) w ≡ ok p)
        × (w'.transactions ≡ w.transactions)
        × (w'.timeline ≡ w.timeline)
        × (w'.payments ≡ w.payments)
        × (w'.jobs ≡ w.jobs)
  unfolding verify_and_protect_payment
  paid_payment_final p reference source w done = rw done (heal_invoice-frame p w)
