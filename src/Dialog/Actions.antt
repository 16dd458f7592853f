-- ===== src/Dialog/Actions.antt =====
-- chat-dialog.service.ts: the actions of a buyer and a seller.
use mathlib.Core.Option
use meduman_backend.Prelude.{if◌then◌else◌, ◌===◌, take_text, String, not, Option, none, some}
use meduman_backend.Store.Enums.{
  payment_protected, DisputeReason, delivery_confirmation, same_status,
}
use meduman_backend.Store.Rows.{Transaction, User}
use meduman_backend.Store.ChatRows.{ChatIdentity, dispute_evidence, ChatSession}
use meduman_backend.Store.World.{transaction_table}
use meduman_backend.Store.Action.{
  Action, pure, ◌>>=◌, ◌>>◌, when, select, select_many, attempt, truthy,
}
use meduman_backend.Machine.{seller_mark_delivered}
use meduman_backend.Transactions.{has_id, apply}
use meduman_backend.Disputes.{raise}
use meduman_backend.Payments.Collect.{initialize_virtual_account}
use meduman_backend.Otp.{issue, verify}
use meduman_backend.Linking.Codes.{consume_link}
use meduman_backend.Dialog.Sessions.{no_patch, read_draft, update_session}
use meduman_backend.Dialog.Replies.{
  DialogConfig, is_party, chosen, as_seller, dialog_transition, account_reply, reply_or,
  start_delivery, reply_delivered, awaits_code, code_input, after_verify, link_reply,
}

module _ (config : DialogConfig) where
  -- The `try` of `startPayment`
  unfoldable pub open_payment : ChatIdentity → User → Transaction → Action String
  open_payment identity u tx = do
    account ←
        initialize_virtual_account config.provider
          (record { transaction_id = tx.id; buyer_id = u.id; email = u.email })
    update_session config.ttl_seconds identity.id
        (record no_patch { transaction_id = some (some tx.id) })
    pure (account_reply tx account (truthy account.account_number))

  abbrev pay_found : ChatIdentity → User → Option Transaction → Action String
  pay_found identity u none = pure "No transaction found for that code. Check it and try again."
  pay_found identity u (some tx) =
      if tx.seller_id === u.id
      then pure "You are the seller on this transaction — a buyer pays it, not you."
      else (do
        outcome ← attempt (open_payment identity u tx)
        reply_or "That transaction is not payable right now." outcome)

  -- `startPayment`
  unfoldable pub start_payment : ChatIdentity → User → String → Action String
  start_payment identity u link_code =
      if link_code === "" then pure "Send the transaction code, e.g. /pay abc123..." else (do
        found ← select transaction_table (λ tx. tx.public_link_id === link_code)
        pay_found identity u found)

  -- The `try` of `markDelivered`
  unfoldable pub deliver_and_issue : User → Transaction → Action String
  deliver_and_issue u tx = do
    when (same_status tx.status payment_protected) (start_delivery u tx)
    apply (dialog_transition tx.id seller_mark_delivered (as_seller u.id))
    issue config.otp
        (record { transaction_id = tx.id; purpose = delivery_confirmation; actor = as_seller u.id })
    pure
        "Marked delivered. Your buyer has been sent a confirmation code — funds release once they confirm."

  abbrev deliver_found_tx : User → Option Transaction → Action String
  deliver_found_tx u none = pure "That is not one of your transactions."
  deliver_found_tx u (some tx) =
      if not (tx.seller_id === u.id)
      then pure "That is not one of your transactions."
      else (do outcome ← attempt (deliver_and_issue u tx); reply_delivered outcome)

  abbrev deliver_chosen : User → Option String → Action String
  deliver_chosen u none = pure "No active transaction. Create one with /sell first."
  deliver_chosen u (some id) = do
    found ← select transaction_table (has_id id)
    deliver_found_tx u found

  -- `markDelivered`
  unfoldable pub mark_tx_delivered : User → ChatSession → String → Action String
  mark_tx_delivered u session arg = deliver_chosen u (chosen arg session)

  abbrev pub confirm_found : User → String → Option Transaction → Action String
  confirm_found u code none = pure "Send /help to see what you can do."
  confirm_found u code (some tx) = do
    outcome ← attempt (verify config.otp (code_input u tx code))
    after_verify u tx outcome

  -- `tryConfirmOtp`
  unfoldable pub try_confirm_otp : User → String → Action String
  try_confirm_otp u code = do
    rows ← select_many transaction_table (awaits_code u.id)
    confirm_found u code (config.last_updated rows)

  -- The `try` of `raiseDispute`
  unfoldable pub open_dispute : User → ChatSession → String → Transaction → Action String
  open_dispute u session arg tx = do
    dispute ← raise (record {
      transaction_id = tx.id;
      opened_by = u.id;
      role = some (if tx.seller_id === u.id then "SELLER" else "BUYER");
      reason = DisputeReason.other;
      description = Option.map (take_text 500) (truthy (some arg));
      desired_outcome = none;
    })
    update_session config.ttl_seconds session.chat_identity_id (record {
      step = some dispute_evidence;
      transaction_id = some (some tx.id);
      draft = some (some (record (read_draft session) { dispute_id = some dispute.id }));
    })
    pure
        "Dispute opened. Automated release is now frozen while our team reviews it.\n\nSend a photo or document as evidence now, or reply \"done\"."

  abbrev dispute_found : User → ChatSession → String → Option Transaction → Action String
  dispute_found u session arg none = pure "That is not one of your transactions."
  dispute_found u session arg (some tx) =
      if not (is_party u.id tx) then pure "That is not one of your transactions." else (do
        outcome ← attempt (open_dispute u session arg tx)
        reply_or "A dispute cannot be opened on this transaction right now." outcome)

  abbrev dispute_chosen : User → ChatSession → String → Option String → Action String
  dispute_chosen u session arg none =
      pure "No active transaction to dispute. Open the one you mean with /status first."
  dispute_chosen u session arg (some id) = do
    found ← select transaction_table (has_id id)
    dispute_found u session arg found

  -- `raiseDispute`
  unfoldable pub raise_from_chat : User → ChatSession → String → Action String
  raise_from_chat u session arg = dispute_chosen u session arg (truthy session.transaction_id)

  -- `connectAccount`
  unfoldable pub connect_account : ChatIdentity → String → Action String
  connect_account identity arg =
      if arg === ""
      then pure "Send the code from your Meduman account page, e.g. /connect ABCD2345"
      else (do outcome ← consume_link config.links identity arg; pure (link_reply outcome))
