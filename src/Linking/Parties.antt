-- ===== src/Linking/Parties.antt =====
-- account-merge.service.ts: one account on both sides of a transaction, and the guard against it.
use meduman_backend.Prelude.{
  any, All, All-map, String, ◌≡◌, refl, Bool, true, false, Option, none, some, arith, eq_iff,
}
use meduman_backend.Store.Rows.{Transaction, SellerProfile, User}
use meduman_backend.Store.World.{World}
use meduman_backend.Store.Table.{find_first, All-zip, find_none-All, any-map-find_first}
use meduman_backend.Store.Action.{ok, same_text?, world_after, result_of}
use meduman_backend.Linking.Guards.{
  MergeOptions, has_user_id, seller_of, between, flies_for, merge_guards,
}
use meduman_backend.Linking.Merge.{MergeReport, merge}
use meduman_backend.Linking.Moved.{rename_transaction, merge-Ran, merge-Moved}

-- `{ sellerId: x, buyerId: x }`
abbrev pub is_self : Transaction → Bool
is_self tx = same_text? tx.buyer_id (some tx.seller_id)

abbrev pub IsTwoSided : Transaction → Type 0
IsTwoSided tx = is_self tx ≡ false

module _ (source target : String) where
  rename-IsTwoSided :
      (tx : Transaction)
      → (between source target tx ≡ false) × IsTwoSided tx
      → IsTwoSided (rename_transaction source target tx)
  rename-IsTwoSided tx (apart, h) = go tx.buyer_id refl
    where
      go : (b : Option String) → tx.buyer_id ≡ b → IsTwoSided (rename_transaction source target tx)
      go none e = rw e refl
      go (some b) e = ground (
        arith,
        apart,
        h,
        eq_iff b tx.seller_id,
        eq_iff b source,
        eq_iff tx.seller_id source,
        eq_iff target b,
        eq_iff b target,
        eq_iff target tx.seller_id,
        eq_iff tx.seller_id target,
        eq_iff target target,
      )

  nobody_between :
      (opts : MergeOptions) (w : World) (accounts : User × User)
      → opts.override_collision ≡ false
      → merge_guards source target opts w ≡ (ok accounts, w)
      → find_first (between source target) w.transactions ≡ none
  unfolding merge_guards
  nobody_between opts w accounts strict h = ground (arith, h)

  -- Where no admin overrides a collision, a merge that returned leaves no transaction with one account on both
  -- sides, if there was none.
  pub merge-IsTwoSided :
      (opts : MergeOptions) (w : World) (r : MergeReport)
      → opts.override_collision ≡ false
      → All IsTwoSided w.transactions
      → result_of (merge source target opts) w ≡ ok r
      → All IsTwoSided (world_after (merge source target opts) w).transactions
  merge-IsTwoSided opts w r strict before h =
      let ran = merge-Ran source target opts w r h in
      rw (merge-Moved source target opts w r h).0 (
        All-map IsTwoSided (λ tx. (between source target tx ≡ false) × IsTwoSided tx)
          (rename_transaction source target) w.transactions rename-IsTwoSided
          (All-zip _ _ w.transactions
            (find_none-All (between source target) w.transactions
              (nobody_between opts w ran.accounts strict ran.guarded))
            before))

  rename_between-is_self :
      (tx : Transaction)
      → between source target tx ≡ true
      → is_self (rename_transaction source target tx) ≡ true
  rename_between-is_self tx h = go tx.buyer_id refl
    where
      go :
          (b : Option String)
          → tx.buyer_id ≡ b
          → is_self (rename_transaction source target tx) ≡ true
      go none e = ground (arith, h)
      go (some b) e = ground (
        arith,
        h,
        eq_iff b tx.seller_id,
        eq_iff b source,
        eq_iff tx.seller_id source,
        eq_iff target b,
        eq_iff b target,
        eq_iff target tx.seller_id,
        eq_iff tx.seller_id target,
        eq_iff target target,
      )

  -- An admin's override is meant for two seller profiles only. Where both accounts have one, the guards do not look at
  -- the transactions: they pass although one stands between the two accounts, and the merge, if it returns, leaves a
  -- transaction with one account on both sides.
  pub override_merges_self :
      (opts : MergeOptions) (w : World) (s t : User) (p q : SellerProfile) (tx : Transaction)
      → opts.override_collision ≡ true
      → find_first (seller_of source) w.sellers ≡ some p
      → find_first (seller_of target) w.sellers ≡ some q
      → find_first (flies_for source target) w.payouts ≡ none
      → find_first (has_user_id source) w.users ≡ some s
      → find_first (has_user_id target) w.users ≡ some t
      → find_first (between source target) w.transactions ≡ some tx
      → (merge_guards source target opts w ≡ (ok (s, t), w))
        × ((r : MergeReport)
            → result_of (merge source target opts) w ≡ ok r
            → any is_self (world_after (merge source target opts) w).transactions ≡ true)
  unfolding merge_guards
  override_merges_self opts w s t p q tx over hp hq calm hs ht stands = (
    ground (arith, over, hp, hq, calm, hs, ht),
    λ r h. rw (merge-Moved source target opts w r h).0 (
        any-map-find_first (between source target) is_self (rename_transaction source target)
          w.transactions rename_between-is_self stands),
  )
