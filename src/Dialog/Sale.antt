-- ===== src/Dialog/Sale.antt =====
-- chat-dialog.service.ts: the steps of /sell, in which a seller creates a transaction.
use meduman_backend.Prelude.{
  if◌then◌else◌, ◌===◌, concat, codes_of, take_text, ℕ, zero, suc, String, Bool, Option, none, some,
  [], ◌∷◌, map,
}
use meduman_backend.Prelude.Int.{pos, kobo}
use meduman_backend.Prelude.Codes.{lower, same_codes}
use meduman_backend.Store.Enums.{TransactionOrigin}
use meduman_backend.Store.Rows.{Transaction, SellerProfile, User}
use meduman_backend.Store.ChatRows.{
  ChatPlatform, ChatIdentity, idle, seller_tx_amount, seller_tx_description, ChatSession,
}
use meduman_backend.Store.World.{seller_table}
use meduman_backend.Store.Action.{Action, pure, ◌>>=◌, ◌>>◌, select, insert, truthy}
use meduman_backend.Machine.{seller_publish}
use meduman_backend.Transactions.{CreateDraftInput, apply, create_draft}
use meduman_backend.Linking.Guards.{seller_of}
use meduman_backend.Dialog.Money.{format_naira, parse_naira_to_kobo}
use meduman_backend.Dialog.Sessions.{no_patch, read_draft, update_session, reset_session}
use meduman_backend.Dialog.Replies.{DialogConfig, as_seller, dialog_transition}

-- `toTransactionOrigin` of analytics/origin.mapper.ts
abbrev pub to_transaction_origin : ChatPlatform → TransactionOrigin
to_transaction_origin ChatPlatform.telegram = TransactionOrigin.telegram
to_transaction_origin ChatPlatform.whatsapp = TransactionOrigin.whatsapp
to_transaction_origin ChatPlatform.instagram = TransactionOrigin.instagram
to_transaction_origin ChatPlatform.messenger = TransactionOrigin.messenger
to_transaction_origin ChatPlatform.x = TransactionOrigin.x

abbrev keep_seller : String → Option SellerProfile → Action SellerProfile
keep_seller user_id none =
    insert seller_table (record { user_id = user_id; provider_recipient_code = none })
keep_seller user_id (some s) = pure s

-- `getOrCreate` of users/seller-profile.service.ts
unfoldable pub get_or_create_seller : String → Action SellerProfile
get_or_create_seller user_id = do
  existing ← select seller_table (seller_of user_id)
  keep_seller user_id existing

-- `/^skip$/i`
unfoldable pub is_skip : String → Bool
unfolding codes_of same_codes lower
is_skip t = same_codes (map lower (codes_of t)) (b's' ∷ b'k' ∷ b'i' ∷ b'p' ∷ [])

abbrev payout_hint : Option String → String
payout_hint none =
    "\n\n⚠\u{fe0f} You have not set a payout destination yet. Run /setup_payout so released funds can reach you."
payout_hint (some _) = ""

abbrev created_reply : Transaction → SellerProfile → String
created_reply tx profile = concat (
    "✅ Transaction created: \""
    ∷ tx.title
    ∷ "\" — ₦"
    ∷ format_naira tx.amount
    ∷ ".\n\nShare this code with your buyer. They pay in their own Meduman chat with:\n  /pay "
    ∷ tx.public_link_id
    ∷ "\n"
    ∷ payout_hint (truthy profile.provider_recipient_code)
    ∷ [])

abbrev pub draft_input : ChatIdentity → User → String → ℕ → String → CreateDraftInput
draft_input identity u title amount_kobo typed = record {
  seller_id = u.id;
  title = title;
  amount = pos amount_kobo;
  description = if is_skip typed then none else some (take_text 500 typed);
  currency = none;
  release_rule = none;
  fee_model = none;
  fee_amount = none;
  expected_delivery_date = none;
  merchant_id = none;
  origin = some (to_transaction_origin identity.platform);
}

-- `x || …` on an amount: zero counts as absent.
abbrev non_zero : Option ℕ → Option ℕ
non_zero none = none
non_zero (some zero) = none
non_zero (some (suc n)) = some (suc n)

module _ (config : DialogConfig) where
  -- `captureTitle`
  unfoldable pub capture_title : ChatIdentity → ChatSession → String → Action String
  capture_title identity session typed =
      if typed === "" then pure "Please send a short title for what you are selling." else (do
        update_session config.ttl_seconds identity.id (record no_patch {
          step = some seller_tx_amount;
          draft = some (some (record (read_draft session) { title = some (take_text 120 typed) }));
        })
        pure (
            concat (
              "Got it: \""
              ∷ take_text 120 typed
              ∷ "\". What is the price in Naira? (e.g. 5000)"
              ∷ [])))

  abbrev amount_read : ChatIdentity → ChatSession → Option ℕ → Action String
  amount_read identity session none =
      pure "That does not look like a valid amount. Send the price in Naira, e.g. 5000."
  amount_read identity session (some kobo) = do
    update_session config.ttl_seconds identity.id (record no_patch {
      step = some seller_tx_description;
      draft = some (some (record (read_draft session) { amount_kobo = some kobo }));
    })
    pure (
        concat (
          "Price set to ₦"
          ∷ format_naira (pos kobo)
          ∷ ". Add a short description, or reply \"skip\"."
          ∷ []))

  -- `captureAmount`
  unfoldable pub capture_amount : ChatIdentity → ChatSession → String → Action String
  capture_amount identity session typed =
      amount_read identity session (non_zero (parse_naira_to_kobo typed))

  -- `captureDescriptionAndCreate` of a draft with a title and an amount
  unfoldable pub create_and_publish : ChatIdentity → User → String → ℕ → String → Action String
  unfolding is_skip
  create_and_publish identity u title amount_kobo typed = do
    tx ← create_draft (draft_input identity u title amount_kobo typed)
    apply (dialog_transition tx.id seller_publish (as_seller u.id))
    update_session config.ttl_seconds identity.id
        (record { step = some idle; draft = some none; transaction_id = some (some tx.id) })
    profile ← get_or_create_seller u.id
    pure (created_reply tx profile)

  abbrev create_from : ChatIdentity → User → Option String → Option ℕ → String → Action String
  create_from identity u (some title) (some amount_kobo) typed =
      create_and_publish identity u title amount_kobo typed
  create_from identity u _ _ typed = do
    reset_session config.ttl_seconds identity.id
    pure "Something went wrong building that transaction. Start again with /sell."

  -- `captureDescriptionAndCreate`
  unfoldable pub capture_description : ChatIdentity → User → ChatSession → String → Action String
  capture_description identity u session typed =
      create_from identity u (truthy (read_draft session).title)
        (non_zero (read_draft session).amount_kobo) typed
