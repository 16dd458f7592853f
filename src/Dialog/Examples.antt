-- ===== src/Dialog/Examples.antt =====
-- A buyer types a number without a code, and a link code that is expired.
use mathlib.Core.Option.{some-injective}
use meduman_backend.Prelude.{
  without_white, trim, ◌≡◌, refl, subst, ◌⊎◌, true, false, Option, none, some, List, [], ◌∷◌, arith,
}
use meduman_backend.Prelude.Int.{pos}
use meduman_backend.Store.Enums.{confirmation_pending, delivery_confirmation, active}
use meduman_backend.Store.Rows.{Transaction, User, OtpCode}
use meduman_backend.Store.ChatRows.{ChatPlatform, ChatIdentity, ChatLinkRequest}
use meduman_backend.Store.World.{World}
use meduman_backend.Store.Table.{find_first}
use meduman_backend.Store.Action.{ok, world_after, result_of}
use meduman_backend.Store.Sample.{empty_world, with_sale}
use meduman_backend.Paystack.{unreachable, Provider}
use meduman_backend.Linking.Codes.{new_request, normalize_link_code}
use meduman_backend.Linking.Spent.{OnlyTried}
use meduman_backend.Linking.CodeLaws.{finding}
use meduman_backend.Dialog.Money.{format_naira, parse_naira_to_kobo}
use meduman_backend.Dialog.Replies.{DialogConfig, invalid_reply}
use meduman_backend.Dialog.Actions.{try_confirm_otp, connect_account}
use meduman_backend.Dialog.Amounts.{parse-format_naira}
use meduman_backend.Dialog.Laws.{
  IsConfirmed, IsChoice, confirm_needs_code, is_usable, connect_no_oracle,
}

abbrev dead_provider : Provider
dead_provider = record {
  post_transfer = λ ts r. unreachable;
  get_transfer = λ ts r. unreachable;
  get_charge = λ r. unreachable;
  post_charge = λ e a r. unreachable;
  post_customer = λ e. unreachable;
  post_dedicated_account = λ c. unreachable;
}

abbrev first_row : List Transaction → Option Transaction
first_row [] = none
first_row (tx ∷ txs) = some tx

abbrev plain_dialog : DialogConfig
plain_dialog = record {
  ttl_seconds = 3600;
  provider = dead_provider;
  otp = record {
    hash_code = λ t. t;
    random_digit = λ call position. 0;
    code_length = 6;
    ttl_seconds = 600;
    max_attempts = 5;
  };
  links = record {
    hash_code = λ t. t;
    random_letter = λ call position. 0;
    upper_case = λ t. t;
    code_length = 8;
    ttl_seconds = 600;
    max_attempts = 5;
  };
  last_updated = first_row;
}

abbrev buyer_account : User
buyer_account = record {
  id = "bola";
  email = "bola@mail";
  phone = none;
  role_flags = [];
  status = active;
  merged_into_user_id = none;
  merged_at = none;
}

first_row-IsChoice : IsChoice plain_dialog
first_row-IsChoice [] tx q h e = absurd (ground (arith, e))
first_row-IsChoice (t ∷ ts) tx q (h, hs) e = subst (λ a. q a ≡ true) (some-injective _ _ e) h

-- The code "123456" was issued for the sale.
abbrev awaited_code : OtpCode
awaited_code = record {
  id = "c1";
  transaction_id = "t1";
  code_hash = "123456";
  purpose = delivery_confirmation;
  expires_at = 2000;
  attempt_count = 0;
  consumed_at = none;
}

abbrev awaiting : World
awaiting = record (with_sale confirmation_pending) { otp_codes = awaited_code ∷ [] }

confirm_needs_code_example :
    let w' = world_after (try_confirm_otp plain_dialog buyer_account "123456") awaiting in
    ((w'.transactions ≡ awaiting.transactions)
      × (w'.timeline ≡ awaiting.timeline)
      × (w'.jobs ≡ awaiting.jobs))
    ⊎ IsConfirmed plain_dialog buyer_account "123456" awaiting
confirm_needs_code_example =
    confirm_needs_code plain_dialog first_row-IsChoice buyer_account "123456" awaiting

abbrev bola_chat : ChatIdentity
bola_chat = record {
  id = "ci1";
  platform = ChatPlatform.telegram;
  platform_user_id = "77";
  user_id = "bola";
}

abbrev old_request : ChatLinkRequest
old_request = new_request "l1" "ABCD2345" "web" 500

abbrev with_old_request : World
with_old_request = record empty_world { link_requests = old_request ∷ [] }

old_request-unusable :
    (r : ChatLinkRequest)
    → finding plain_dialog.links "ABCD2345" with_old_request ≡ some r
    → is_usable plain_dialog.links 1000 r ≡ false
unfolding find_first normalize_link_code trim without_white
old_request-unusable r e =
    subst (λ a. is_usable plain_dialog.links 1000 a ≡ false) (some-injective _ _ e) refl

connect_no_oracle_example :
    let w' = world_after (connect_account plain_dialog bola_chat "ABCD2345") with_old_request in
    (result_of (connect_account plain_dialog bola_chat "ABCD2345") with_old_request
      ≡ ok invalid_reply)
    × OnlyTried (finding plain_dialog.links "ABCD2345" with_old_request) with_old_request w'
connect_no_oracle_example =
    connect_no_oracle plain_dialog bola_chat "ABCD2345" with_old_request refl old_request-unusable

parse-format_naira_example : parse_naira_to_kobo (format_naira (pos 123456789)) ≡ some 123456789
parse-format_naira_example = parse-format_naira 123456789
