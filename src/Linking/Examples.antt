-- ===== src/Linking/Examples.antt =====
-- Merges, link codes and reviews at concrete accounts: "chat" is absorbed by "web".
use meduman_backend.Prelude.{
  any, All, without_white, trim, String, ◌≡◌, refl, true, false, Option, none, some, [], ◌∷◌, arith,
}
use meduman_backend.Prelude.Int.{pos}
use meduman_backend.Store.Enums.{PayoutStatus, buyer, active}
use meduman_backend.Store.Rows.{Payout, SellerProfile, User}
use meduman_backend.Store.ChatRows.{
  ChatPlatform, ChatLinkRequestStatus, seller_profile_conflict, ChatIdentity, ChatLinkRequest,
}
use meduman_backend.Store.World.{World}
use meduman_backend.Store.Table.{find_first, count, update_many}
use meduman_backend.Store.Action.{conflict, link_merge_in_flight, ok, err, world_after, result_of}
use meduman_backend.Store.Sample.{empty_world, sale}
use meduman_backend.Linking.Guards.{KeepProfile, keep_target, MergeOptions, merge_guards}
use meduman_backend.Linking.Merge.{MergeReport, merge}
use meduman_backend.Linking.Parties.{is_self, IsTwoSided, merge-IsTwoSided, override_merges_self}
use meduman_backend.Linking.Codes.{
  LinkConfig, linked, invalid, new_request, consume_as, consume_live, normalize_link_code,
  consume_found, consume_link,
}
use meduman_backend.Linking.Review.{ReviewOutcome, complete_request, resolve_link_request}
use meduman_backend.Linking.Spent.{IsSpent, OnlyTried}
use meduman_backend.Linking.CodeLaws.{finding, consume_once}
use meduman_backend.Linking.ReviewLaws.{review_lost}
use meduman_backend.Linking.Absorbed.{Absorbed, merge-Absorbed}

abbrev account : String → User
account id = record {
  id = id;
  email = id;
  phone = none;
  role_flags = buyer ∷ [];
  status = active;
  merged_into_user_id = none;
  merged_at = none;
}

abbrev chat_profile : SellerProfile
chat_profile = record { user_id = "chat"; provider_recipient_code = some "RCP_1" }

abbrev web_profile : SellerProfile
web_profile = record { user_id = "web"; provider_recipient_code = some "RCP_2" }

-- The chat account has sold a transaction to somebody else.
abbrev two_accounts : World
two_accounts = record empty_world {
  users = account "web" ∷ account "chat" ∷ [];
  transactions = record sale { seller_id = "chat" } ∷ [];
  sellers = chat_profile ∷ [];
}

abbrev no_options : MergeOptions
no_options = record { keep_profile = none; override_collision = false }

abbrev one_sale : MergeReport
one_sale = record {
  chat_identities = 0;
  transactions_sold = 1;
  transactions_bought = 0;
  payouts = 0;
  invoices_sold = 0;
  invoices_bought = 0;
  notifications = 0;
  disputes = 0;
  evidence = 0;
  profile_merged = false;
  seller_profile_moved = true;
}

merged : result_of (merge "chat" "web" no_options) two_accounts ≡ ok one_sale
unfolding merge find_first count update_many
merged = refl

merge-Absorbed_example :
    Absorbed "chat" "web" two_accounts (world_after (merge "chat" "web" no_options) two_accounts)
merge-Absorbed_example = merge-Absorbed "chat" "web" no_options two_accounts one_sale merged

merge-IsTwoSided_example :
    All IsTwoSided (world_after (merge "chat" "web" no_options) two_accounts).transactions
merge-IsTwoSided_example =
    merge-IsTwoSided "chat" "web" no_options two_accounts one_sale refl (refl, tt) merged

-- Both accounts sell, and the web account has bought from the chat account.
abbrev both_conflicts : World
both_conflicts = record empty_world {
  users = account "web" ∷ account "chat" ∷ [];
  transactions = record sale { seller_id = "chat"; buyer_id = some "web" } ∷ [];
  sellers = chat_profile ∷ web_profile ∷ [];
}

abbrev overriding : MergeOptions
overriding = record { keep_profile = some keep_target; override_collision = true }

override_merges_self_example :
    (merge_guards "chat" "web" overriding both_conflicts
      ≡ (ok (account "chat", account "web"), both_conflicts))
    × ((r : MergeReport)
        → result_of (merge "chat" "web" overriding) both_conflicts ≡ ok r
        → any is_self (world_after (merge "chat" "web" overriding) both_conflicts).transactions
          ≡ true)
unfolding find_first
override_merges_self_example =
    override_merges_self "chat" "web" overriding both_conflicts (account "chat") (account "web")
      chat_profile web_profile (record sale { seller_id = "chat"; buyer_id = some "web" }) refl refl
      refl refl refl refl refl

abbrev plain_config : LinkConfig
plain_config = record {
  hash_code = λ s. s;
  random_letter = λ call i. i;
  upper_case = λ s. s;
  code_length = 4;
  ttl_seconds = 600;
  max_attempts = 5;
}

abbrev chat_identity : ChatIdentity
chat_identity = record {
  id = "c1";
  platform = ChatPlatform.telegram;
  platform_user_id = "77";
  user_id = "chat";
}

abbrev minted : World
minted = record two_accounts {
  chat_identities = chat_identity ∷ [];
  link_requests = new_request "l1" "ABCD" "web" 9000 ∷ [];
}

consumed :
    result_of (consume_link plain_config chat_identity " ABCD") minted
    ≡ ok (linked ChatPlatform.telegram)
unfolding consume_link consume_found consume_live merge find_first count update_many without_white
    trim consume_as
consumed = refl

consume_once_example :
    let w' = world_after (consume_link plain_config chat_identity " ABCD") minted in
    let w'' = world_after (consume_link plain_config chat_identity "AB CD") w' in
    (result_of (consume_link plain_config chat_identity "AB CD") w' ≡ ok invalid)
    × OnlyTried (finding plain_config "AB CD" w') w' w''
    × IsSpent "ABCD" w''
unfolding count normalize_link_code without_white trim
consume_once_example =
    consume_once plain_config chat_identity chat_identity " ABCD" "AB CD" minted
      (linked ChatPlatform.telegram) (omega arith) refl consumed refl

abbrev flying : Payout
flying = record {
  id = "p1";
  transaction_id = "t1";
  seller_id = "web";
  idempotency_key = "release:t1";
  provider_transfer_code = none;
  provider_transfer_reference = none;
  amount = pos 5000;
  currency = "NGN";
  status = PayoutStatus.processing;
  attempt_count = 1;
  last_error = none;
  merchant_id = none;
}

abbrev parked_request : ChatLinkRequest
parked_request = record (new_request "l1" "ABCD" "web" 9000) {
  status = ChatLinkRequestStatus.pending_review;
  conflict_reason = some seller_profile_conflict;
  source_user_id = some "chat";
  chat_identity_id = some "c1";
}

abbrev in_review : World
in_review = record both_conflicts {
  chat_identities = chat_identity ∷ [];
  link_requests = parked_request ∷ [];
  payouts = flying ∷ [];
}

abbrev lost : World
lost = record in_review {
  link_requests =
      record parked_request { status = ChatLinkRequestStatus.pending; conflict_reason = none } ∷ [];
}

review_lost_example :
    (resolve_link_request "l1" complete_request (some keep_target) "root" in_review
      ≡ (err link_merge_in_flight, lost))
    × ((outcome : ReviewOutcome) (keep' : Option KeepProfile) (admin' : String)
        → resolve_link_request "l1" outcome keep' admin' lost
          ≡ (err (conflict "Link request is PENDING, not PENDING_REVIEW"), lost))
unfolding find_first update_many
review_lost_example =
    review_lost in_review "l1" "root" parked_request chat_identity "chat" "c1" chat_profile
      web_profile flying refl refl refl refl refl refl refl refl refl keep_target
