-- ===== src/Payments/Laws.antt =====
-- What a verified charge of payments.service.ts does, and that it does it even where the queue is down.
use meduman_backend.Prelude.{
  ◌===◌, String, ◌≡◌, refl, ap, ◌∙◌, true, false, ◌&&◌, some, arith, eq_iff,
}
use meduman_backend.Prelude.Int.{ℤ, ◌=ℤ◌}
use meduman_backend.Store.Enums.{payment_pending, payment_protected, PaymentStatus, same_status}
use meduman_backend.Store.Rows.{Transaction, Payment}
use meduman_backend.Store.World.{World}
use meduman_backend.Store.Table.{find_first, count, update_many}
use meduman_backend.Store.Action.{Result, pure, ◌>>◌, world_after, bind_ok}
use meduman_backend.Machine.{payment_verified, TransactionContext, accept, transition}
use meduman_backend.Transactions.{has_id, in_state, apply}
use meduman_backend.Transactions.Apply.{wrote, apply_ok}
use meduman_backend.Paystack.{Provider, verify_transaction}
use meduman_backend.Invoices.Lifecycle.{write_audit, mark_paid_by_transaction}
use meduman_backend.Payments.{
  TrustedPaymentSource, payment_source, has_payment_id, is_paid, notify_protected,
  protect_transition, mark_verified, protect_payment, act_on_charge, verify_and_protect_payment,
}
use meduman_backend.Payments.Verified.{IsVerified}

eq_=ℤ_refl : (a b : ℤ) → a ≡ b → (a =ℤ b) ≡ true
eq_=ℤ_refl a b e = ground arith

trusted_protects :
    (s : TrustedPaymentSource) (c : TransactionContext)
    → transition payment_pending (payment_verified (payment_source s)) c ≡ accept payment_protected
unfolding transition
trusted_protects s c = ground arith

module _ (provider : Provider) (p : Payment) (reference : String) (source : TrustedPaymentSource)
    (w : World) (open_ : is_paid p.status ≡ false)
    (verified : IsVerified provider reference p) where
  -- A verified charge goes on to `protect_payment`.
  verified_runs :
      verify_and_protect_payment provider p reference source w
      ≡ protect_payment p reference source w
  unfolding verify_and_protect_payment verify_transaction act_on_charge
  verified_runs =
      let (charge, answered, success_, same) = verified in
      rw open_ (
        bind_ok (verify_transaction provider reference) (act_on_charge p reference source) {w = w}
          {a = charge} {w' = w} (ground (arith, answered))
        ∙ rw ((eq_iff charge.status "success").1 success_, eq_=ℤ_refl charge.amount p.amount same)
            refl)

  -- The world in which the transition is asked for.
  abbrev recorded : World
  recorded = record w {
    payments = update_many (has_payment_id p.id) (mark_verified w.now) w.payments;
  }

  -- Steps after the transition move no transaction and no payment, whether or not they throw.
  rest_frame :
      (q : Payment) (v : World)
      → let v' =
          world_after
            (mark_paid_by_transaction p.transaction_id
              >> (notify_protected p.transaction_id >> pure q))
            v in
        (v'.transactions ≡ v.transactions) × (v'.payments ≡ v.payments)
  unfolding mark_paid_by_transaction write_audit notify_protected
  rest_frame q v = (ground arith, ground arith)

  -- A charge that Paystack verifies, for an open payment in the table whose transaction is one row in
  -- PAYMENT_PENDING, moves that transaction to PAYMENT_PROTECTED and the payment to SUCCESS, verified at the time of
  -- the call, and no other row of the two tables, whatever the queue and the chat do after it.
  pub verified_protects :
      (tx : Transaction)
      → find_first (has_payment_id p.id) w.payments ≡ some p
      → find_first (has_id p.transaction_id) w.transactions ≡ some tx
      → tx.status ≡ payment_pending
      → count (in_state p.transaction_id tx.status) w.transactions ≡ 1
      → let w' = world_after (verify_and_protect_payment provider p reference source) w in
        (w'.transactions
          ≡ update_many
              (λ t. t.id === p.transaction_id && same_status t.status tx.status)
              (λ t. record t { status = payment_protected })
              w.transactions)
        × (w'.payments
            ≡ update_many
                (λ q. q.id === p.id)
                (λ q. record q { status = PaymentStatus.success; verified_at = some w.now })
                w.payments)
  unfolding protect_payment find_first mark_paid_by_transaction
  verified_protects tx stored found pending_ one =
      let (outbound, drawn, jobs, done) =
        apply_ok (protect_transition p reference source) recorded tx payment_protected found
          (rw pending_ (trusted_protects source _)) one in
      let after : World =
        record (wrote (protect_transition p reference source) tx payment_protected recorded) {
          outbound = outbound;
          drawn = drawn;
          jobs = jobs;
        } in
      let q : Payment = mark_verified w.now p in
      let runs : verify_and_protect_payment provider p reference source w
          ≡ (mark_paid_by_transaction p.transaction_id
                >> (notify_protected p.transaction_id >> pure q))
              after =
        verified_runs
        ∙ rw stored (bind_ok (apply (protect_transition p reference source)) _ done) in
      let (transactions, payments) = rest_frame q after in
      (
        ap (λ (o : Result Payment × World). o.1.transactions) runs ∙ transactions,
        ap (λ (o : Result Payment × World). o.1.payments) runs ∙ payments,
      )
