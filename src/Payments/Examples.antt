-- ===== src/Payments/Examples.antt =====
-- Runs of payments.service.ts against a provider that has collected 5,100 kobo, and the theorems at them.
use meduman_backend.Prelude.{◌===◌, ◌≡◌, refl, ◌↔◌, true, ◌&&◌, Option, none, some, [], ◌∷◌, arith}
use meduman_backend.Prelude.Int.{pos, ◌+ℤ◌, ◌≤ℤ◌}
use meduman_backend.Store.Enums.{
  link_active, payment_pending, payment_protected, PaymentStatus, same_status,
}
use meduman_backend.Store.Rows.{Payment}
use meduman_backend.Store.World.{World}
use meduman_backend.Store.Table.{find_first, count, update_many}
use meduman_backend.Store.Action.{ok, world_after, result_of}
use meduman_backend.Store.Sample.{sale, with_sale}
use meduman_backend.Machine.{transition}
use meduman_backend.Outbound.{record_for_transition}
use meduman_backend.Transactions.{commit, apply}
use meduman_backend.Paystack.{
  unreachable, envelope, Provider, request, create_customer, create_dedicated_account,
}
use meduman_backend.Payouts.{seller_settlement}
use meduman_backend.Payments.{
  by_webhook, charge_amount, mark_payment, verify_and_protect_payment, resolve_dva_payment,
  handle_charge_success,
}
use meduman_backend.Payments.Collect.{
  InitializeVirtualAccountInput, VirtualAccountView, link_buyer, hosted_payment, account_payment,
  open_account, initialize_virtual_account,
}
use meduman_backend.Payments.Account.{SameAccount, initialize_virtual_account_twice}
use meduman_backend.Payments.Verified.{IsVerified}
use meduman_backend.Payments.Protect.{
  charge_covers_settlement, VerifiedOrSame, Named, charge_protects_only_verified,
  paid_payment_final,
}
use meduman_backend.Payments.Laws.{verified_protects}
use meduman_backend.Payments.Once.{BoundOnce, resolve_dva_payment-BoundOnce}

abbrev collected : Provider
collected = record {
  post_transfer = λ ts r. unreachable;
  get_transfer = λ ts r. unreachable;
  get_charge =
      λ r. envelope true true none (some (record { status = "success"; amount = pos 5100 }));
  post_charge = λ e a r. envelope true true none (some "https://pay");
  post_customer = λ e. unreachable;
  post_dedicated_account = λ c. unreachable;
}

-- A payment by virtual account, whose charge has another reference than ours.
abbrev awaited : Payment
awaited = record {
  id = "p1";
  transaction_id = "t1";
  provider_reference = "mdn_dva_1";
  provider_charge_reference = none;
  provider_customer_code = some "CUS_1";
  provider_dedicated_account_id = none;
  virtual_account_number = some "0123456789";
  virtual_account_bank = some "bank";
  amount = pos 5100;
  currency = "NGN";
  status = PaymentStatus.pending;
  verified_at = none;
  created_at = 0;
}

abbrev open_sale : World
open_sale = record (with_sale payment_pending) { payments = awaited ∷ [] }

collected-IsVerified : IsVerified collected "T_1" awaited
unfolding request
collected-IsVerified = (record { status = "success"; amount = pos 5100 }, refl, refl, refl)

charge_covers_settlement_example :
    (charge_amount sale
      ≡ seller_settlement sale.amount sale.fee_model sale.fee_amount +ℤ sale.fee_amount)
    × ((seller_settlement sale.amount sale.fee_model sale.fee_amount ≤ℤ charge_amount sale)
        ↔ (pos 0 ≤ℤ sale.fee_amount))
charge_covers_settlement_example = charge_covers_settlement sale

charge_protects_only_verified_example :
    VerifiedOrSame collected "T_1"
      (Named "T_1" (some "CUS_1") open_sale)
      open_sale
      (world_after (handle_charge_success collected "T_1" (some "CUS_1") by_webhook) open_sale)
charge_protects_only_verified_example =
    charge_protects_only_verified collected "T_1" (some "CUS_1") by_webhook open_sale

paid_payment_final_test :
    let p = mark_payment PaymentStatus.success awaited in
    let w' = world_after (verify_and_protect_payment collected p "T_1" by_webhook) open_sale in
    (result_of (verify_and_protect_payment collected p "T_1" by_webhook) open_sale ≡ ok p)
    × (w'.transactions ≡ open_sale.transactions)
    × (w'.timeline ≡ open_sale.timeline)
    × (w'.payments ≡ open_sale.payments)
    × (w'.jobs ≡ open_sale.jobs)
paid_payment_final_test =
    paid_payment_final collected (mark_payment PaymentStatus.success awaited) "T_1" by_webhook
      open_sale refl

verified_protects_example :
    let w' =
      world_after (verify_and_protect_payment collected awaited "T_1" by_webhook) open_sale in
    (w'.transactions
      ≡ update_many
          (λ t. t.id === "t1" && same_status t.status payment_pending)
          (λ t. record t { status = payment_protected })
          open_sale.transactions)
    × (w'.payments
        ≡ update_many
            (λ q. q.id === "p1")
            (λ q. record q { status = PaymentStatus.success; verified_at = some 1000 })
            open_sale.payments)
unfolding find_first count same_status
verified_protects_example =
    verified_protects collected awaited "T_1" by_webhook open_sale refl collected-IsVerified
      (record sale { status = payment_pending }) refl refl refl refl

resolve_dva_payment-BoundOnce_example :
    BoundOnce "T_1" (world_after (resolve_dva_payment "CUS_1" "T_1") open_sale)
    × ((o : Option Payment) × (result_of (resolve_dva_payment "CUS_1" "T_1") open_sale ≡ ok o))
unfolding count
resolve_dva_payment-BoundOnce_example =
    resolve_dva_payment-BoundOnce "CUS_1" "T_1" "T_1" open_sale (λ id. ground arith) (omega arith)

-- Paystack opens accounts.
abbrev opening : Provider
opening = record collected {
  post_customer = λ e. envelope true true none (some "CUS_1");
  post_dedicated_account = λ c. envelope true true none (
      some (record {
        account_number = some "0123456789";
        bank_name = some "";
        dedicated_account_id = none;
      }));
}

abbrev account_request : InitializeVirtualAccountInput
account_request = record { transaction_id = "t1"; buyer_id = "bola"; email = "bola@mail" }

abbrev account_view : VirtualAccountView
account_view = record {
  payment_id = "fresh";
  account_number = some "0123456789";
  bank_name = some "";
}

account_opened :
    result_of (initialize_virtual_account opening account_request) (with_sale link_active)
    ≡ ok account_view
unfolding initialize_virtual_account open_account create_customer create_dedicated_account request
    find_first apply commit link_buyer account_payment hosted_payment transition count same_status
    record_for_transition update_many
account_opened = refl

initialize_virtual_account_twice_example :
    let w' =
      world_after (initialize_virtual_account opening account_request) (with_sale link_active) in
    (u : VirtualAccountView) × (initialize_virtual_account opening account_request w' ≡ (ok u, w'))
    × SameAccount u account_view
initialize_virtual_account_twice_example =
    initialize_virtual_account_twice opening account_request (with_sale link_active) account_view
      account_opened
