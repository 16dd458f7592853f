-- ===== src/Payouts/Settle.antt =====
-- modules/payouts/payouts.service.ts, what follows a transfer: `markPaid`, `markFailed` and the
-- operator's `retryTransfer`.
use meduman_backend.Prelude.{
  ltb, if◌then◌else◌, or_else, ◌===◌, concat, decimal, ◌+◌, String, not, Option, none, some, [],
  ◌∷◌,
}
use meduman_backend.Store.Enums.{PayoutStatus, admin, system, payout_status_name}
use meduman_backend.Store.Rows.{text, number, Payout}
use meduman_backend.Store.World.{dispute_table, payout_table}
use meduman_backend.Store.Action.{
  Error, not_found, conflict, Action, pure, or_throw, ◌>>=◌, ◌>>◌, throw_if, select, select_count,
  update,
}
use meduman_backend.Machine.{payout_succeeded}
use meduman_backend.Transactions.{ApplyTransitionInput, apply}
use meduman_backend.Audit.{AuditEntryInput, log}
use meduman_backend.Paystack.{Transfer, Provider, verify_transfer}
use meduman_backend.Payouts.{
  has_key, is_success, is_retryable, payout_entry, open_on, release_frozen, send_transfer,
}

abbrev pub payout_not_found : String → Error
payout_not_found key = not_found (concat ("Payout " ∷ key ∷ " not found" ∷ []))

-- The transition that a settled payout asks for.
abbrev pub settled_transition : Payout → String → String → ApplyTransitionInput
settled_transition p key transfer_code = record {
  transaction_id = p.transaction_id;
  event = payout_succeeded;
  actor = record { id = none; type = system; role = some "SYSTEM" };
  reason = some (concat ("payout " ∷ key ∷ " settled (" ∷ transfer_code ∷ ")" ∷ []));
  has_open_dispute = none;
  auto_confirm_window_elapsed = none;
}

abbrev pub mark_success : String → Payout → Payout
mark_success transfer_code p = record p {
  status = PayoutStatus.success;
  provider_transfer_code = some transfer_code;
}

-- `markPaid` of a payout that is not settled.
abbrev settle_payout : String → String → Payout → Action Payout
settle_payout key transfer_code p = do
  updated ← update payout_table (has_key key) (mark_success transfer_code)
  apply (settled_transition p key transfer_code)
  pure updated

-- `markPaid`
unfoldable pub mark_paid : String → String → Action Payout
mark_paid key transfer_code = do
  found ← select payout_table (has_key key)
  p ← or_throw found (payout_not_found key)
  if is_success p.status then pure p else settle_payout key transfer_code p

-- The two values that `markFailed` takes for a status.
pub data Failure : Type 0 where
  failed_transfer reversed_transfer : Failure

abbrev pub failure_status : Failure → PayoutStatus
failure_status failed_transfer = PayoutStatus.failed
failure_status reversed_transfer = PayoutStatus.reversed

abbrev failure_action : Failure → String
failure_action failed_transfer = "payout.transfer_failed"
failure_action reversed_transfer = "payout.transfer_reversed"

abbrev pub mark_failure : Failure → String → Payout → Payout
mark_failure status reason p = record p { status = failure_status status; last_error = some reason }

-- `markFailed` of a payout that is not settled.
abbrev fail_payout : String → Failure → String → Payout → Action Payout
fail_payout key status reason p = do
  updated ← update payout_table (has_key key) (mark_failure status reason)
  log
      (record (payout_entry (failure_action status) p (
        ("transactionId", text p.transaction_id)
        ∷ ("idempotencyKey", text key)
        ∷ ("amount", number p.amount)
        ∷ [])) { reason = some reason })
  pure updated

-- `markFailed`
unfoldable pub mark_failed : String → Failure → String → Action Payout
mark_failed key status reason = do
  found ← select payout_table (has_key key)
  p ← or_throw found (payout_not_found key)
  if is_success p.status then pure p else fail_payout key status reason p

-- Whether Paystack reports that the transfer went through.
abbrev pub succeeded : Option Transfer → Option String
succeeded none = none
succeeded (some t) = if t.status === "success" then some t.transfer_code else none

abbrev pub clear_transfer : Payout → Payout
clear_transfer p = record p {
  status = PayoutStatus.pending;
  provider_transfer_code = none;
  last_error = none;
}

-- `${payout.idempotencyKey}:r${payout.attemptCount + 1}`
unfoldable pub next_reference : Payout → String
next_reference p = concat (p.idempotency_key ∷ ":r" ∷ decimal (p.attempt_count + 1) ∷ [])

abbrev pub prior_reference : Payout → String
prior_reference p = or_else p.provider_transfer_reference p.idempotency_key

-- The branch of `retryTransfer` for a transfer that had gone through after all.
abbrev abort_retry : String → String → Payout → String → Action Payout
abort_retry key admin_id p transfer_code = do
  log
      (record (payout_entry "payout.retry_aborted_already_paid" p (
        ("transactionId", text p.transaction_id)
        ∷ ("providerTransferCode", text transfer_code)
        ∷ [])) {
          actor_id = some admin_id;
          actor_type = some admin;
          reason = some (concat ("Provider reports " ∷ prior_reference p ∷ " succeeded" ∷ []));
        })
  mark_paid key transfer_code

-- What the audit log says of a retry.
abbrev pub retry_entry : String → Payout → AuditEntryInput
retry_entry admin_id p =
    record (payout_entry "payout.transfer_retried" p (
      ("transactionId", text p.transaction_id)
      ∷ ("amount", number p.amount)
      ∷ ("previousReference", text (prior_reference p))
      ∷ ("providerTransferReference", text (next_reference p))
      ∷ [])) {
        actor_id = some admin_id;
        actor_type = some admin;
        reason =
            some
              (or_else p.last_error (concat ("Retry after " ∷ payout_status_name p.status ∷ [])));
      }

module _ (provider : Provider) where
  -- The branch of `retryTransfer` that sends again, under a fresh reference.
  abbrev send_again : String → String → Payout → Action Payout
  send_again key admin_id p = do
    log (retry_entry admin_id p)
    reset ← update payout_table (has_key key) clear_transfer
    send_transfer provider reset (some (next_reference p))

  abbrev retry_from : String → String → Payout → Option String → Action Payout
  retry_from key admin_id p (some transfer_code) = abort_retry key admin_id p transfer_code
  retry_from key admin_id p none = send_again key admin_id p

  -- `retryTransfer`
  unfoldable pub retry_transfer : String → String → Action Payout
  unfolding payout_status_name
  retry_transfer key admin_id = do
    found ← select payout_table (has_key key)
    p ← or_throw found (payout_not_found key)
    throw_if (is_success p.status)
        (conflict (concat ("Payout " ∷ key ∷ " already settled — nothing to retry" ∷ [])))
    throw_if (not (is_retryable p.status)) (
        conflict (
          concat (
            "Payout "
            ∷ key
            ∷ " is "
            ∷ payout_status_name p.status
            ∷ " — only a failed or reversed transfer can be retried"
            ∷ [])))
    open_disputes ← select_count dispute_table (open_on p.transaction_id)
    throw_if (ltb 0 open_disputes) (release_frozen p.transaction_id)
    prior ← verify_transfer provider (prior_reference p)
    retry_from key admin_id p (succeeded prior)
