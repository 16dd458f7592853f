-- ===== src/Payouts.antt =====
-- modules/payouts/payouts.service.ts: one payout for each transaction, sent by Paystack transfer.
pub mod Settle
pub mod Release
pub mod Once
pub mod Again
pub mod Amount
pub mod Outcome
pub mod Retry
mod Examples
use meduman_backend.Prelude.{
  ltb, if◌then◌else◌, or_else, is_some, ◌===◌, concat, ◌+◌, String, Bool, true, false, not, ◌&&◌,
  ◌||◌, Option, none, some, [], ◌∷◌,
}
use meduman_backend.Prelude.Int.{ℤ, ◌-ℤ◌}
use meduman_backend.Store.Enums.{
  TransactionStatus, release_processing, FeeModel, buyer_pays, seller_pays, PayoutStatus,
  DisputeStatus, opened, system, same_status, status_name,
}
use meduman_backend.Store.Rows.{text, number, Metadata, Transaction, Dispute, Payout, SellerProfile}
use meduman_backend.Store.World.{transaction_table, dispute_table, payout_table, seller_table}
use meduman_backend.Store.Action.{
  Error, conflict, unprocessable, plain, unique, Result, ok, err, Action, pure, throw, or_throw,
  ◌>>=◌, ◌>>◌, throw_if, draw, select, select_count, insert_unique, update, message, attempt,
  truthy,
}
use meduman_backend.Transactions.{has_id, transaction_not_found}
use meduman_backend.Audit.{AuditEntryInput, log}
use meduman_backend.Paystack.{Transfer, Provider, initiate_transfer, verify_transfer}

-- `releaseIdempotencyKey`
abbrev pub release_idempotency_key : String → String
release_idempotency_key transaction_id = concat ("release:" ∷ transaction_id ∷ [])

-- `sellerSettlement`
unfoldable pub seller_settlement : ℤ → FeeModel → ℤ → ℤ
seller_settlement amount buyer_pays fee_amount = amount
seller_settlement amount seller_pays fee_amount = amount -ℤ fee_amount

abbrev pub has_key : String → Payout → Bool
has_key key p = p.idempotency_key === key

-- The row that `authorizePayout` creates.
unfoldable pub new_payout : Transaction → String → Payout
new_payout tx id = record {
  id = id;
  transaction_id = tx.id;
  seller_id = tx.seller_id;
  idempotency_key = release_idempotency_key tx.id;
  provider_transfer_code = none;
  provider_transfer_reference = none;
  amount = seller_settlement tx.amount tx.fee_model tx.fee_amount;
  currency = tx.currency;
  status = PayoutStatus.pending;
  attempt_count = 0;
  last_error = none;
  merchant_id = truthy tx.merchant_id;
}

-- The `create` of `authorizePayout`; `idempotencyKey` is a unique column.
abbrev create_payout : Transaction → Action Payout
create_payout tx = do
  id ← draw
  insert_unique payout_table (has_key (release_idempotency_key tx.id)) (new_payout tx id)

-- The `catch` of `authorizePayout`.
abbrev reuse_payout : Transaction → Result Payout → Action Payout
reuse_payout tx (ok p) = pure p
reuse_payout tx (err (unique m)) = do
  existing ← select payout_table (has_key (release_idempotency_key tx.id))
  or_throw existing (unique m)
reuse_payout tx (err e) = throw e

-- `authorizePayout`
unfoldable pub authorize_payout : Transaction → Action Payout
authorize_payout tx = do created ← attempt (create_payout tx); reuse_payout tx created

abbrev pub is_success : PayoutStatus → Bool
is_success PayoutStatus.success = true
is_success _ = false

abbrev pub is_retryable : PayoutStatus → Bool
is_retryable PayoutStatus.failed = true
is_retryable PayoutStatus.reversed = true
is_retryable _ = false

abbrev payout_entry : String → Payout → Metadata → AuditEntryInput
payout_entry action p metadata = record {
  action = action;
  target_type = "Payout";
  target_id = some p.id;
  actor_id = none;
  actor_type = some system;
  reason = none;
  metadata = metadata;
}

abbrev mark_sent : String → String → Payout → Payout
mark_sent transfer_code reference p = record p {
  provider_transfer_code = some transfer_code;
  provider_transfer_reference = some reference;
  status = PayoutStatus.processing;
  attempt_count = p.attempt_count + 1;
  last_error = none;
}

-- `recordTransferSent`
unfoldable pub record_transfer_sent : Payout → String → String → Action Payout
record_transfer_sent p transfer_code reference = do
  updated ← update payout_table (has_key p.idempotency_key) (mark_sent transfer_code reference)
  log (
      payout_entry "payout.transfer_sent" p (
        ("transactionId", text p.transaction_id)
        ∷ ("idempotencyKey", text p.idempotency_key)
        ∷ ("amount", number p.amount)
        ∷ ("providerTransferCode", text transfer_code)
        ∷ []))
  pure updated

abbrev pub recipient_of : Option SellerProfile → Option String
recipient_of none = none
recipient_of (some s) = truthy s.provider_recipient_code

abbrev pub no_destination : Payout → Error
no_destination p =
    unprocessable
      (concat ("Seller " ∷ p.seller_id ∷ " has no payout destination — transfer not sent" ∷ []))

-- The disputes that `executeRelease` and `retryTransfer` count: those in status OPEN alone.
abbrev is_open_status : DisputeStatus → Bool
is_open_status opened = true
is_open_status _ = false

abbrev pub open_on : String → Dispute → Bool
open_on transaction_id d = d.transaction_id === transaction_id && is_open_status d.status

abbrev pub release_frozen : String → Error
release_frozen id =
    conflict (concat ("Transaction " ∷ id ∷ " has an open dispute — release is frozen" ∷ []))

abbrev pub not_releasing : String → TransactionStatus → Error
not_releasing id status = plain (
    concat (
      "Transaction "
      ∷ id
      ∷ " is "
      ∷ status_name status
      ∷ ", expected RELEASE_PROCESSING before payout"
      ∷ []))

abbrev note_failure : Error → Payout → Payout
note_failure e p = record p { last_error = some (message e); attempt_count = p.attempt_count + 1 }

-- The failure that `sendTransfer` notes before it throws the provider's error on.
unfoldable pub give_up : Payout → Error → Action Payout
give_up p e = do
  update payout_table (has_key p.idempotency_key) (note_failure e)
  log
      (record (payout_entry "payout.transfer_send_failed" p (
        ("transactionId", text p.transaction_id)
        ∷ ("idempotencyKey", text p.idempotency_key)
        ∷ ("amount", number p.amount)
        ∷ [])) { reason = some (message e) })
  throw e

-- A transfer under the reference that exists already is taken over.
abbrev adopt : Payout → String → Error → Option Transfer → Action Payout
adopt p reference e (some t) = record_transfer_sent p t.transfer_code reference
adopt p reference e none = give_up p e

module _ (provider : Provider) where
  -- The `catch` of `sendTransfer`.
  abbrev after_send : Payout → String → Result Payout → Action Payout
  after_send p reference (ok done) = pure done
  after_send p reference (err e) = do
    existing ← verify_transfer provider reference
    adopt p reference e existing

  -- The `try` of `sendTransfer`.
  unfoldable pub post_transfer : Payout → String → String → Action Payout
  post_transfer p recipient reference = do
    transfer ← initiate_transfer provider (record {
      amount = p.amount;
      recipient = recipient;
      reference = reference;
      reason = concat ("Meduman release " ∷ p.transaction_id ∷ []);
    })
    record_transfer_sent p transfer.transfer_code reference

  -- `sendTransfer`
  unfoldable pub send_transfer : Payout → Option String → Action Payout
  send_transfer p reference =
      if is_success p.status || is_some (truthy p.provider_transfer_code) then pure p else do
        let provider_reference = or_else reference p.idempotency_key
        profile ← select seller_table (λ s. s.user_id === p.seller_id)
        recipient ← or_throw (recipient_of profile) (no_destination p)
        tried ← attempt (post_transfer p recipient provider_reference)
        after_send p provider_reference tried

  -- `executeRelease`
  unfoldable pub execute_release : String → Action Payout
  execute_release transaction_id = do
    found ← select transaction_table (has_id transaction_id)
    tx ← or_throw found (transaction_not_found transaction_id)
    throw_if (not (same_status tx.status release_processing))
        (not_releasing transaction_id tx.status)
    open_disputes ← select_count dispute_table (open_on tx.id)
    throw_if (ltb 0 open_disputes) (release_frozen transaction_id)
    payout ← authorize_payout tx
    send_transfer payout none
