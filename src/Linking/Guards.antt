-- ===== src/Linking/Guards.antt =====
-- account-merge.service.ts: what refuses a merge, checked before it and again inside its transaction.
use meduman_backend.Prelude.{
  is_some, ◌===◌, String, Bool, true, false, not, ◌&&◌, ◌||◌, Option, none, some,
}
use meduman_backend.Store.Enums.{PayoutStatus}
use meduman_backend.Store.Rows.{Transaction, Payout, SellerProfile, User, Invoice}
use meduman_backend.Store.ChatRows.{
  ChatLinkConflictReason, seller_profile_conflict, self_transaction_conflict,
}
use meduman_backend.Store.World.{
  transaction_table, payout_table, seller_table, user_table, invoice_table,
}
use meduman_backend.Store.Action.{
  plain, link_merge_collision, link_merge_in_flight, Action, pure, throw, or_throw, ◌>>=◌, ◌>>◌,
  throw_if, select, same_text?,
}

pub data KeepProfile : Type 0 where
  keep_target keep_source : KeepProfile

-- The `opts` of `merge`: `override_collision` is 'SELLER_PROFILE_CONFLICT' where it is true.
pub record MergeOptions : Type 0 where
  pub keep_profile : Option KeepProfile
  pub override_collision : Bool

abbrev pub has_user_id : String → User → Bool
has_user_id id u = u.id === id

abbrev pub seller_of : String → SellerProfile → Bool
seller_of id s = s.user_id === id

-- `{ OR: pair }`
abbrev pub between : String → String → Transaction → Bool
between source target tx =
    (tx.seller_id === source && same_text? tx.buyer_id (some target))
    || (tx.seller_id === target && same_text? tx.buyer_id (some source))

abbrev pub invoice_between : String → String → Invoice → Bool
invoice_between source target i =
    (i.seller_id === source && same_text? i.buyer_id (some target))
    || (i.seller_id === target && same_text? i.buyer_id (some source))

-- Which of the facts that were read is the collision.
unfoldable pub collision_of : (two_sellers between_them : Bool) → Option ChatLinkConflictReason
collision_of true between_them = some seller_profile_conflict
collision_of false true = some self_transaction_conflict
collision_of false false = none

-- `detectCollision`
unfoldable pub detect_collision : String → String → Action (Option ChatLinkConflictReason)
unfolding collision_of
detect_collision source target = do
  source_seller ← select seller_table (seller_of source)
  target_seller ← select seller_table (seller_of target)
  self_transaction ← select transaction_table (between source target)
  self_invoice ← select invoice_table (invoice_between source target)
  pure (
      collision_of (is_some source_seller && is_some target_seller)
        (is_some self_transaction || is_some self_invoice))

-- `NON_TERMINAL_PAYOUT`
abbrev pub is_in_flight : PayoutStatus → Bool
is_in_flight PayoutStatus.pending = true
is_in_flight PayoutStatus.processing = true
is_in_flight _ = false

abbrev pub flies_for : String → String → Payout → Bool
flies_for a b p = (p.seller_id === a || p.seller_id === b) && is_in_flight p.status

-- `hasInFlightPayout` of two users
unfoldable pub has_in_flight_payout : String → String → Action Bool
has_in_flight_payout a b = do
  in_flight ← select payout_table (flies_for a b)
  pure (is_some in_flight)

-- `if (collision && collision !== opts.overrideCollision) throw`
abbrev refuse_collision : MergeOptions → Option ChatLinkConflictReason → Action (Unit {0})
refuse_collision opts none = pure tt
refuse_collision opts (some seller_profile_conflict) =
    throw_if (not opts.override_collision) (link_merge_collision seller_profile_conflict)
refuse_collision opts (some self_transaction_conflict) =
    throw (link_merge_collision self_transaction_conflict)

-- The guards of `merge` and the two accounts it reads.
unfoldable pub merge_guards : String → String → MergeOptions → Action (User × User)
unfolding detect_collision has_in_flight_payout
merge_guards source target opts = do
  collision ← detect_collision source target
  refuse_collision opts collision
  in_flight ← has_in_flight_payout source target
  throw_if in_flight link_merge_in_flight
  found ← select user_table (has_user_id source)
  s ← or_throw found (plain "No User found")
  found' ← select user_table (has_user_id target)
  t ← or_throw found' (plain "No User found")
  pure (s, t)
