-- ===== src/Dialog/Replies.antt =====
-- chat-dialog.service.ts: what the actions of a buyer and a seller reply, and what they ask the services for.
use meduman_backend.Prelude.{
  if◌then◌else◌, or_else, or_option, ◌===◌, concat, ℕ, String, Bool, not, ◌&&◌, ◌||◌, Option, none,
  some, List, [], ◌∷◌,
}
use meduman_backend.Store.Enums.{
  confirmation_pending, delivery_confirmation, user, same_status, status_name,
}
use meduman_backend.Store.Rows.{Transaction, User}
use meduman_backend.Store.ChatRows.{ChatSession}
use meduman_backend.Store.World.{Job, transaction_table}
use meduman_backend.Store.Action.{
  Error, transition_rejected, otp_verification, otp_not_issuable, Result, ok, err, Action, pure,
  throw, ◌>>=◌, ◌>>◌, enqueue, select, truthy, same_text?,
}
use meduman_backend.Machine.{TransactionEvent, seller_start_delivery, buyer_confirm}
use meduman_backend.Transactions.{TransitionActor, ApplyTransitionInput, has_id, apply}
use meduman_backend.Paystack.{Provider}
use meduman_backend.Payments.Collect.{VirtualAccountView}
use meduman_backend.Otp.{VerifyOtpInput, OtpConfig}
use meduman_backend.Linking.Codes.{
  LinkConfig, ConsumeOutcome, linked, already_linked, parked, try_later, invalid,
}
use meduman_backend.Dialog.Money.{format_naira}

-- The configuration of the services that the dialog calls, and the row of the latest `updatedAt`, a column that the
-- database keeps, among several.
pub record DialogConfig : Type 0 where
  pub ttl_seconds : ℕ
  pub provider : Provider
  pub otp : OtpConfig
  pub links : LinkConfig
  pub last_updated : List Transaction → Option Transaction

-- `friendlyError`
unfoldable pub friendly_error : Error → String → String
friendly_error (transition_rejected _ _) fallback = fallback
friendly_error _ fallback = "Something went wrong. Please try again in a moment."

abbrev pub is_party : String → Transaction → Bool
is_party user_id tx = tx.seller_id === user_id || same_text? tx.buyer_id (some user_id)

-- `arg || session.transactionId`
abbrev pub chosen : String → ChatSession → Option String
chosen arg session = truthy (or_option (truthy (some arg)) session.transaction_id)

abbrev pub as_seller : String → TransitionActor
as_seller user_id = record { id = some user_id; type = user; role = some "SELLER" }

abbrev pub as_buyer : String → TransitionActor
as_buyer user_id = record { id = some user_id; type = user; role = some "BUYER" }

abbrev pub dialog_transition : String → TransactionEvent → TransitionActor → ApplyTransitionInput
dialog_transition transaction_id event actor = record {
  transaction_id = transaction_id;
  event = event;
  actor = actor;
  reason = none;
  has_open_dispute = none;
  auto_confirm_window_elapsed = none;
}

abbrev pub account_reply : Transaction → VirtualAccountView → Option String → String
account_reply tx account none = concat (
    "Setting up a payment account for \"" ∷ tx.title
    ∷ "\". You'll get the account number here in a moment." ∷ [])
account_reply tx account (some account_number) = concat (
    "To pay for \""
    ∷ tx.title
    ∷ "\" (₦"
    ∷ format_naira tx.amount
    ∷ "), transfer the EXACT amount from your bank app to:\n\n  Account: "
    ∷ account_number
    ∷ "\n  Bank: "
    ∷ or_else account.bank_name "null"
    ∷ "\n\nYour money is held safely and only released to the seller once you confirm delivery."
    ∷ [])

-- The reply of a `try` of which every error is answered by `friendlyError`.
abbrev pub reply_or : String → Result String → Action String
reply_or fallback (ok reply) = pure reply
reply_or fallback (err e) = pure (friendly_error e fallback)

abbrev pub start_delivery : User → Transaction → Action (Unit {0})
start_delivery u tx = do
  apply (dialog_transition tx.id seller_start_delivery (as_seller u.id))
  pure tt

abbrev pub reply_delivered : Result String → Action String
reply_delivered (err (otp_not_issuable _)) =
    pure "Marked delivered, but the buyer is not ready to confirm yet."
reply_delivered r = reply_or "That transaction cannot be marked delivered right now." r

abbrev pub awaits_code : String → Transaction → Bool
awaits_code user_id tx =
    same_text? tx.buyer_id (some user_id) && same_status tx.status confirmation_pending

abbrev pub code_input : User → Transaction → String → VerifyOtpInput
code_input u tx code = record {
  transaction_id = tx.id;
  purpose = delivery_confirmation;
  code = code;
  actor = as_buyer u.id;
}

-- What follows the `try` of `tryConfirmOtp`
unfoldable pub confirm_and_release : User → Transaction → Action String
confirm_and_release u tx = do
  apply (dialog_transition tx.id buyer_confirm (as_buyer u.id))
  enqueue (Job.release tx.id)
  pure (
      concat
        ("✅ Confirmed. Releasing funds to the seller for \"" ∷ tx.title ∷ "\". Thank you!" ∷ []))

abbrev pub after_verify : User → Transaction → Result (Unit {0}) → Action String
after_verify u tx (ok _) = confirm_and_release u tx
after_verify u tx (err (otp_verification _)) =
    pure "That code is invalid or expired. Ask the seller to resend if needed."
after_verify u tx (err e) = throw e

abbrev pub status_of_found : User → Option Transaction → String
status_of_found u none = "No transaction found for you with that code."
status_of_found u (some tx) =
    if not (is_party u.id tx)
    then "No transaction found for you with that code."
    else concat (
        "\""
        ∷ tx.title
        ∷ "\" — ₦"
        ∷ format_naira tx.amount
        ∷ " — status: "
        ∷ status_name tx.status
        ∷ "."
        ∷ [])

abbrev pub status_chosen : User → Option String → Action String
status_chosen u none = pure "No active transaction. /sell to create one or /pay to pay one."
status_chosen u (some id) = do
  found ← select transaction_table (has_id id)
  pure (status_of_found u found)

-- `showStatus`
unfoldable pub show_status : User → ChatSession → String → Action String
unfolding format_naira status_name
show_status u session arg = status_chosen u (chosen arg session)

abbrev pub invalid_reply : String
invalid_reply = "That code isn't valid. Get a fresh one from your Meduman account page."

abbrev pub link_reply : ConsumeOutcome → String
link_reply (linked platform) =
    "Linked ✅ This chat is now connected to your Meduman account — you'll see its transactions in your dashboard."
link_reply already_linked = "Already linked ✅"
link_reply (parked reason) =
    "This chat account has activity we need to review before linking — we'll message you here shortly."
link_reply try_later = "A payout is processing right now — try that code again in a minute."
link_reply invalid = invalid_reply
