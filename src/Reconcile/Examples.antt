-- ===== src/Reconcile/Examples.antt =====
-- The scan at one stranded payment that Paystack reports as paid.
use meduman_backend.Prelude.{ℕ, ◌≤◌, ◌≡◌, refl, ◌⊎◌, true, none, some, [], ◌∷◌}
use meduman_backend.Prelude.Int.{pos}
use meduman_backend.Store.Enums.{payment_pending, PaymentStatus, same_status}
use meduman_backend.Store.Rows.{Payment}
use meduman_backend.Store.World.{World}
use meduman_backend.Store.Table.{find_first, find_many, count, update_many}
use meduman_backend.Store.Action.{ok, result_of}
use meduman_backend.Store.Sample.{with_sale}
use meduman_backend.Machine.{transition}
use meduman_backend.Outbound.{record_for_transition, dispatch}
use meduman_backend.Transactions.{context_of, commit, apply}
use meduman_backend.Paystack.{unreachable, envelope, Provider, request, verify_transaction}
use meduman_backend.Invoices.Lifecycle.{write_audit, mark_paid_by_transaction}
use meduman_backend.Payments.{
  notify_protected, protect_payment, act_on_charge, verify_and_protect_payment, reconcile_payment,
}
use meduman_backend.Reconcile.{reconcile_one, reconcile_all, reconcile_pending}
use meduman_backend.Reconcile.Laws.{taken, VerifiedOf, reconcile_pending_lem}

abbrev paid_provider : Provider
paid_provider = record {
  post_transfer = λ ts r. unreachable;
  get_transfer = λ ts r. unreachable;
  get_charge =
      λ r. envelope true true none (some (record { status = "success"; amount = pos 5100 }));
  post_charge = λ e a r. unreachable;
  post_customer = λ e. unreachable;
  post_dedicated_account = λ c. unreachable;
}

abbrev stranded_payment : Payment
stranded_payment = record {
  id = "p1";
  transaction_id = "t1";
  provider_reference = "mdn_1";
  provider_charge_reference = none;
  provider_customer_code = none;
  provider_dedicated_account_id = none;
  virtual_account_number = none;
  virtual_account_bank = none;
  amount = pos 5100;
  currency = "NGN";
  status = PaymentStatus.pending;
  verified_at = none;
  created_at = 0;
}

abbrev stranded_sale : World
stranded_sale = record (with_sale payment_pending) { payments = stranded_payment ∷ [] }

reconciled : result_of (reconcile_pending paid_provider 900 1000) stranded_sale ≡ ok (1, 1)
unfolding reconcile_pending reconcile_all reconcile_one reconcile_payment verify_and_protect_payment
    verify_transaction act_on_charge protect_payment mark_paid_by_transaction notify_protected
    request find_first find_many apply commit transition count same_status record_for_transition
    update_many context_of write_audit dispatch
reconciled = refl

reconcile_pending_lem_example :
    (checked protected_count : ℕ) × (w' : World) × (reconcile_pending paid_provider 900 1000
        stranded_sale
      ≡ (ok (checked, protected_count), w'))
    × (protected_count ≤ checked)
    × (checked ≤ 100)
    × (VerifiedOf paid_provider (taken 900 1000 stranded_sale) stranded_sale
        ⊎ ((w'.transactions ≡ stranded_sale.transactions) × (w'.timeline ≡ stranded_sale.timeline)))
reconcile_pending_lem_example = reconcile_pending_lem paid_provider 900 1000 stranded_sale
