-- ===== src/Linking/Merge.antt =====
-- account-merge.service.ts: every row of the absorbed account moves to the account that absorbs it.
use meduman_backend.Prelude.{
  if◌then◌else◌, or_option, any, ◌===◌, ℕ, String, Bool, true, false, Option, none, some, List, [],
  ◌∷◌, ◌++◌,
}
use meduman_backend.Prelude.Int.{pos}
use meduman_backend.Store.Enums.{user, UserRole, buyer, seller, freelancer, business, deactivated}
use meduman_backend.Store.Rows.{
  text, number, flag, Metadata, Transaction, Payout, SellerProfile, User, Invoice,
}
use meduman_backend.Store.ChatRows.{Profile}
use meduman_backend.Store.World.{
  transaction_table, dispute_table, payout_table, seller_table, user_table, invoice_table,
  identity_table, profile_table, notification_table, evidence_table,
}
use meduman_backend.Store.Action.{
  Action, pure, gets, transact, ◌>>=◌, ◌>>◌, select, update_rows, update, delete, truthy,
  same_text?,
}
use meduman_backend.Audit.{AuditEntryInput, log}
use meduman_backend.Linking.Guards.{
  KeepProfile, keep_target, keep_source, MergeOptions, has_user_id, seller_of, merge_guards,
}

-- `MergeReport`
pub record MergeReport : Type 0 where
  pub chat_identities : ℕ
  pub transactions_sold : ℕ
  pub transactions_bought : ℕ
  pub payouts : ℕ
  pub invoices_sold : ℕ
  pub invoices_bought : ℕ
  pub notifications : ℕ
  pub disputes : ℕ
  pub evidence : ℕ
  pub profile_merged : Bool
  pub seller_profile_moved : Bool

abbrev pub same_role : UserRole → UserRole → Bool
same_role buyer buyer = true
same_role seller seller = true
same_role freelancer freelancer = true
same_role business business = true
same_role _ _ = false

-- `[...new Set(flags)]`
unfoldable pub distinct_flags : List UserRole → List UserRole → List UserRole
distinct_flags seen [] = []
distinct_flags seen (f ∷ fs) =
    let known = any (same_role f) seen in
    let rest = distinct_flags (if known then seen else f ∷ seen) fs in
    if known then rest else f ∷ rest

abbrev pub fold_profile : KeepProfile → Profile → Profile → Profile → Profile
fold_profile keep winner loser p = record p {
  country = or_option winner.country loser.country;
  city = or_option winner.city loser.city;
  avatar_url = or_option winner.avatar_url loser.avatar_url;
  bio = or_option winner.bio loser.bio;
  channel_links = or_option winner.channel_links loser.channel_links;
}

abbrev pub profile_of : String → Profile → Bool
profile_of id p = p.user_id === id

abbrev fold_into : String → String → KeepProfile → Profile → Profile → Action Bool
fold_into source target keep winner loser = do
  update profile_table (profile_of target) (fold_profile keep winner loser)
  delete profile_table (profile_of source)
  pure true

abbrev merge_with : String → String → Option KeepProfile → Profile → Option Profile → Action Bool
merge_with source target keep p none = do
  update profile_table (profile_of source) (λ a. record a { user_id = target })
  pure true
merge_with source target (some keep_source) p (some q) = fold_into source target keep_source p q
merge_with source target (some keep_target) p (some q) = fold_into source target keep_target q p
merge_with source target none p (some q) = fold_into source target keep_target q p

abbrev merge_from : String → String → Option KeepProfile → Option Profile → Action Bool
merge_from source target keep none = pure false
merge_from source target keep (some p) = do
  q ← select profile_table (profile_of target)
  merge_with source target keep p q

-- `mergeProfile`
unfoldable pub merge_profile : String → String → Option KeepProfile → Action Bool
merge_profile source target keep = do
  p ← select profile_table (profile_of source)
  merge_from source target keep p

abbrev move_existing : String → String → Option SellerProfile → Action Bool
move_existing source target none = do
  update seller_table (seller_of source) (λ s. record s { user_id = target })
  pure true
move_existing source target (some s) = do delete seller_table (seller_of source); pure false

abbrev move_seller_from : String → String → Option SellerProfile → Action Bool
move_seller_from source target none = pure false
move_seller_from source target (some s) = do
  kept ← select seller_table (seller_of target)
  move_existing source target kept

-- Step 5 of `merge`
unfoldable pub move_seller_profile : String → String → Action Bool
move_seller_profile source target = do
  s ← select seller_table (seller_of source)
  move_seller_from source target s

-- Step 6 of `merge`
abbrev pub absorb_fields : User → User → User → User
absorb_fields source target u = record u {
  role_flags = distinct_flags [] (target.role_flags ++ source.role_flags);
  phone = or_option (truthy (or_option target.phone source.phone)) u.phone;
}

-- Step 7 of `merge`
abbrev pub tombstone : String → ℕ → User → User
tombstone target now u = record u {
  status = deactivated;
  merged_into_user_id = some target;
  merged_at = some now;
}

-- `{ sellerId: targetUserId }` and `{ buyerId: targetUserId }` of the tables that have these columns
abbrev pub sold_by : String → Transaction → Transaction
sold_by target tx = record tx { seller_id = target }

abbrev pub bought_by : String → Transaction → Transaction
bought_by target tx = record tx { buyer_id = some target }

abbrev pub billed_by : String → Invoice → Invoice
billed_by target i = record i { seller_id = target }

abbrev pub billed_to : String → Invoice → Invoice
billed_to target i = record i { buyer_id = some target }

abbrev pub owed_to : String → Payout → Payout
owed_to target p = record p { seller_id = target }

-- Steps 1 to 3 of `merge`: the report, once the profiles have moved too.
unfoldable pub reparent : String → String → Action (Bool → Bool → MergeReport)
reparent source target = do
  identities ←
      update_rows identity_table (λ c. c.user_id === source) (λ c. record c { user_id = target })
  sold ← update_rows transaction_table (λ tx. tx.seller_id === source) (sold_by target)
  bought ←
      update_rows transaction_table (λ tx. same_text? tx.buyer_id (some source)) (bought_by target)
  payouts ← update_rows payout_table (λ p. p.seller_id === source) (owed_to target)
  billed ← update_rows invoice_table (λ i. i.seller_id === source) (billed_by target)
  invoices_bought ←
      update_rows invoice_table (λ i. same_text? i.buyer_id (some source)) (billed_to target)
  notifications ←
      update_rows notification_table (λ n. n.user_id === source)
        (λ n. record n { user_id = target })
  disputes ←
      update_rows dispute_table (λ d. d.opened_by === source) (λ d. record d { opened_by = target })
  evidence ←
      update_rows evidence_table (λ e. e.uploaded_by === source)
        (λ e. record e { uploaded_by = target })
  pure (λ merged moved. record {
    chat_identities = identities;
    transactions_sold = sold;
    transactions_bought = bought;
    payouts = payouts;
    invoices_sold = billed;
    invoices_bought = invoices_bought;
    notifications = notifications;
    disputes = disputes;
    evidence = evidence;
    profile_merged = merged;
    seller_profile_moved = moved;
  })

-- Steps 1 to 5 of `merge`
unfoldable pub move_rows : String → String → Option KeepProfile → Action MergeReport
unfolding reparent merge_profile move_seller_profile
move_rows source target keep = do
  report ← reparent source target
  merged ← merge_profile source target keep
  moved ← move_seller_profile source target
  pure (report merged moved)

abbrev pub report_facts : MergeReport → Metadata
report_facts r =
    ("chatIdentities", number (pos r.chat_identities))
    ∷ ("transactionsSold", number (pos r.transactions_sold))
    ∷ ("transactionsBought", number (pos r.transactions_bought))
    ∷ ("payouts", number (pos r.payouts))
    ∷ ("invoicesSold", number (pos r.invoices_sold))
    ∷ ("invoicesBought", number (pos r.invoices_bought))
    ∷ ("notifications", number (pos r.notifications))
    ∷ ("disputes", number (pos r.disputes))
    ∷ ("evidence", number (pos r.evidence))
    ∷ ("profileMerged", flag r.profile_merged)
    ∷ ("sellerProfileMoved", flag r.seller_profile_moved)
    ∷ []

abbrev pub link_entry : String → String → String → AuditEntryInput
link_entry action target_id actor_id = record {
  action = action;
  target_type = "ChatLinkRequest";
  target_id = some target_id;
  actor_id = some actor_id;
  actor_type = some user;
  reason = none;
  metadata = [];
}

-- Steps 6 to 8 of `merge`
unfoldable pub close_account : String → String → User × User → MergeReport → Action MergeReport
close_account source target (s, t) report = do
  update user_table (has_user_id target) (absorb_fields s t)
  now ← gets (λ w. w.now)
  update user_table (has_user_id source) (tombstone target now)
  log (record (link_entry "chat.account_linked" target target) {
    target_type = "User";
    metadata = ("sourceUserId", text source) ∷ report_facts report;
  })
  pure report

-- The body of the transaction of `merge`
unfoldable pub merge_body : String → String → MergeOptions → Action MergeReport
merge_body source target opts = do
  accounts ← merge_guards source target opts
  report ← move_rows source target opts.keep_profile
  close_account source target accounts report

-- `merge`
unfoldable pub merge : String → String → MergeOptions → Action MergeReport
unfolding merge_body merge_guards move_rows close_account
merge source target opts = transact (merge_body source target opts)
