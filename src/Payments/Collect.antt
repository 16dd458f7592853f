-- ===== src/Payments/Collect.antt =====
-- modules/payments/payments.service.ts: opening a collection, by hosted checkout or by a dedicated virtual
-- account, and the account's details when Paystack sends them later.
use meduman_backend.Prelude.{
  or_else, or_option, is_some, ◌===◌, concat, without_dashes, ℕ, String, Bool, not, ◌&&◌, Option,
  none, some, [], ◌∷◌,
}
use meduman_backend.Store.Enums.{PaymentStatus, user}
use meduman_backend.Store.Rows.{text, number, Transaction, Payment}
use meduman_backend.Store.World.{chat_outbound, transaction_table, payment_table}
use meduman_backend.Store.Action.{
  Action, pure, gets, or_throw, ◌>>=◌, ◌>>◌, when, draw, enqueue, select, insert_unique, update,
  truthy,
}
use meduman_backend.Machine.{buyer_initiate_checkout}
use meduman_backend.Transactions.{ApplyTransitionInput, has_id, transaction_not_found, apply}
use meduman_backend.Paystack.{
  DedicatedAccount, Provider, initialize_transaction, create_customer, create_dedicated_account,
}
use meduman_backend.Payments.{charge_amount, has_payment_id, has_reference, of_customer, is_pending}

pub record InitializeCollectionInput : Type 0 where
  pub transaction_id : Option String
  pub public_link_id : Option String
  pub buyer_id : String
  pub email : String

pub record InitializeCollectionResult : Type 0 where
  pub payment_id : String
  pub reference : String
  pub authorization_url : String

pub record InitializeVirtualAccountInput : Type 0 where
  pub transaction_id : String
  pub buyer_id : String
  pub email : String

pub record VirtualAccountView : Type 0 where
  pub payment_id : String
  pub account_number : Option String
  pub bank_name : Option String

abbrev resolve_by_link : Option String → Action (Option Transaction)
resolve_by_link none = pure none
resolve_by_link (some link) = select transaction_table (λ tx. tx.public_link_id === link)

abbrev resolve_by : Option String → Option String → Action (Option Transaction)
resolve_by (some id) link = select transaction_table (has_id id)
resolve_by none link = resolve_by_link link

-- `resolveTransaction`
unfoldable pub resolve_transaction : InitializeCollectionInput → Action (Option Transaction)
resolve_transaction input = resolve_by (truthy input.transaction_id) (truthy input.public_link_id)

abbrev pub checkout_transition : String → String → ApplyTransitionInput
checkout_transition transaction_id buyer_id = record {
  transaction_id = transaction_id;
  event = buyer_initiate_checkout;
  actor = record { id = some buyer_id; type = user; role = some "BUYER" };
  reason = none;
  has_open_dispute = none;
  auto_confirm_window_elapsed = none;
}

abbrev pub set_buyer : String → Transaction → Transaction
set_buyer buyer_id tx = record tx { buyer_id = some buyer_id }

-- `if (!tx.buyerId) await this.prisma.transaction.update`
unfoldable pub link_buyer : Transaction → String → Action (Unit {0})
link_buyer tx buyer_id =
    when (not (is_some (truthy tx.buyer_id)))
      (do update transaction_table (has_id tx.id) (set_buyer buyer_id); pure tt)

-- The row of a hosted checkout.
unfoldable pub hosted_payment : Transaction → String → String → ℕ → Payment
hosted_payment tx reference id now = record {
  id = id;
  transaction_id = tx.id;
  provider_reference = reference;
  provider_charge_reference = none;
  provider_customer_code = none;
  provider_dedicated_account_id = none;
  virtual_account_number = none;
  virtual_account_bank = none;
  amount = charge_amount tx;
  currency = tx.currency;
  status = PaymentStatus.pending;
  verified_at = none;
  created_at = now;
}

-- The row of a virtual account.
unfoldable pub account_payment :
    Transaction → String → String → DedicatedAccount → String → ℕ → Payment
account_payment tx reference customer_code account id now =
    record (hosted_payment tx reference id now) {
      provider_customer_code = some customer_code;
      virtual_account_number = truthy account.account_number;
      virtual_account_bank = truthy account.bank_name;
      provider_dedicated_account_id = truthy account.dedicated_account_id;
    }

abbrev create_payment : Payment → Action Payment
create_payment p = insert_unique payment_table (has_reference p.provider_reference) p

abbrev pub view_account : Payment → VirtualAccountView
view_account p = record {
  payment_id = p.id;
  account_number = p.virtual_account_number;
  bank_name = p.virtual_account_bank;
}

abbrev named : InitializeCollectionInput → String
named input =
    or_else (truthy input.transaction_id) (or_else (truthy input.public_link_id) "unknown")

-- The rows that make `initializeVirtualAccount` answer without a second account.
abbrev pub reusable : String → Payment → Bool
reusable transaction_id p =
    p.transaction_id === transaction_id && (is_pending p.status && is_some p.provider_customer_code)

module _ (provider : Provider) where
  -- `initializeCollection`
  unfoldable pub initialize_collection :
      InitializeCollectionInput → Action InitializeCollectionResult
  initialize_collection input = do
    found ← resolve_transaction input
    tx ← or_throw found (transaction_not_found (named input))
    apply (checkout_transition tx.id input.buyer_id)
    link_buyer tx input.buyer_id
    drawn_reference ← draw
    let reference = concat ("mdn_" ∷ without_dashes drawn_reference ∷ [])
    id ← draw
    now ← gets (λ w. w.now)
    p ← create_payment (hosted_payment tx reference id now)
    authorization_url ← initialize_transaction provider input.email (charge_amount tx) reference
    pure
        (record { payment_id = p.id; reference = reference; authorization_url = authorization_url })

  -- The part of `initializeVirtualAccount` that opens an account.
  unfoldable pub open_account :
      Transaction → InitializeVirtualAccountInput → Action VirtualAccountView
  open_account tx input = do
    apply (checkout_transition tx.id input.buyer_id)
    link_buyer tx input.buyer_id
    drawn_reference ← draw
    let reference = concat ("mdn_dva_" ∷ without_dashes drawn_reference ∷ [])
    customer_code ← create_customer provider input.email
    account ← create_dedicated_account provider customer_code
    id ← draw
    now ← gets (λ w. w.now)
    p ← create_payment (account_payment tx reference customer_code account id now)
    pure (record {
      payment_id = p.id;
      account_number = account.account_number;
      bank_name = account.bank_name;
    })

  abbrev reuse_account :
      Transaction → InitializeVirtualAccountInput → Option Payment → Action VirtualAccountView
  reuse_account tx input (some p) = pure (view_account p)
  reuse_account tx input none = open_account tx input

  -- `initializeVirtualAccount`
  unfoldable pub initialize_virtual_account :
      InitializeVirtualAccountInput → Action VirtualAccountView
  initialize_virtual_account input = do
    found ← select transaction_table (has_id input.transaction_id)
    tx ← or_throw found (transaction_not_found input.transaction_id)
    existing ← select payment_table (reusable tx.id)
    reuse_account tx input existing

abbrev pub set_account : String → String → Option String → Payment → Payment
set_account account_number bank_name dedicated_account_id p = record p {
  virtual_account_number = some account_number;
  virtual_account_bank = some bank_name;
  provider_dedicated_account_id =
      or_option (truthy dedicated_account_id) p.provider_dedicated_account_id;
}

abbrev push_account : Payment → String → String → String → Option String → Action (Unit {0})
push_account p account_number bank_name title none = pure tt
push_account p account_number bank_name title (some buyer_id) = enqueue (
    chat_outbound buyer_id "payment.dva_assigned" (
      ("accountNumber", text account_number)
      ∷ ("bankName", text bank_name)
      ∷ ("amount", number p.amount)
      ∷ ("transactionTitle", text title)
      ∷ []))

abbrev push_to_buyer : Payment → String → String → Option Transaction → Action (Unit {0})
push_to_buyer p account_number bank_name none = pure tt
push_to_buyer p account_number bank_name (some tx) =
    push_account p account_number bank_name tx.title (truthy tx.buyer_id)

-- `attachDedicatedAccount` of the payment that was found.
abbrev attach_to : String → String → Option String → Option Payment → Action (Option Payment)
attach_to account_number bank_name dedicated_account_id none = pure none
attach_to account_number bank_name dedicated_account_id (some p) = do
  updated ←
      update payment_table (has_payment_id p.id)
        (set_account account_number bank_name dedicated_account_id)
  tx ← select transaction_table (has_id p.transaction_id)
  push_to_buyer p account_number bank_name tx
  pure (some updated)

-- `attachDedicatedAccount`
unfoldable pub attach_dedicated_account :
    String → String → String → Option String → Action (Option Payment)
attach_dedicated_account customer_code account_number bank_name dedicated_account_id = do
  found ← select payment_table (λ p. of_customer customer_code p && is_pending p.status)
  attach_to account_number bank_name dedicated_account_id found
