-- ===== src/Linking/ReviewLaws.antt =====
-- chat-link.service.ts: a review by an admin that meets a payout in flight.
use meduman_backend.Prelude.{◌===◌, String, ◌≡◌, refl, ◌∙◌, true, Option, some, arith}
use meduman_backend.Store.Rows.{Payout, SellerProfile}
use meduman_backend.Store.ChatRows.{
  ChatLinkRequestStatus, seller_profile_conflict, ChatIdentity, ChatLinkRequest,
}
use meduman_backend.Store.World.{World}
use meduman_backend.Store.Table.{find_first, update_many, find_first-where, find_first-update_many}
use meduman_backend.Store.Action.{conflict, link_merge_in_flight, err, truthy}
use meduman_backend.Linking.Guards.{KeepProfile, MergeOptions, seller_of, flies_for, merge_guards}
use meduman_backend.Linking.Merge.{merge_body, merge}
use meduman_backend.Linking.Codes.{has_link_id}
use meduman_backend.Linking.Review.{
  ReviewOutcome, complete_request, promoted, complete_parked, resolve_link_request,
}

module _ (source target : String) where
  merge_in_flight :
      (opts : MergeOptions) (w : World) (p q : SellerProfile) (payout : Payout)
      → opts.override_collision ≡ true
      → find_first (seller_of source) w.sellers ≡ some p
      → find_first (seller_of target) w.sellers ≡ some q
      → find_first (flies_for source target) w.payouts ≡ some payout
      → merge source target opts w ≡ (err link_merge_in_flight, w)
  unfolding merge merge_body merge_guards
  merge_in_flight opts w p q payout over hp hq flies = ground (arith, over, hp, hq, flies)

module _ (w : World) (id admin_id : String) (r : ChatLinkRequest) (identity : ChatIdentity)
    (source identity_id : String) (p q : SellerProfile) (payout : Payout)
    (found : find_first (has_link_id id) w.link_requests ≡ some r)
    (parked_ : r.status ≡ ChatLinkRequestStatus.pending_review)
    (reason : r.conflict_reason ≡ some seller_profile_conflict)
    (from : truthy r.source_user_id ≡ some source)
    (chat : truthy r.chat_identity_id ≡ some identity_id)
    (known : find_first (λ c. c.id === identity_id) w.chat_identities ≡ some identity)
    (hp : find_first (seller_of source) w.sellers ≡ some p)
    (hq : find_first (seller_of r.target_user_id) w.sellers ≡ some q)
    (flies : find_first (flies_for source r.target_user_id) w.payouts ≡ some payout) where
  -- The world that the failed review leaves.
  abbrev promoted_world : World
  promoted_world = record w {
    link_requests = update_many (has_link_id id) promoted w.link_requests;
  }

  complete_fails :
      (keep : KeepProfile)
      → complete_parked id source r.target_user_id identity_id keep admin_id w
        ≡ (err link_merge_in_flight, promoted_world)
  unfolding complete_parked find_first update_many
  complete_fails keep =
      rw (found, known)
        (ground (
          arith,
          merge_in_flight source r.target_user_id
              (record { keep_profile = some keep; override_collision = true }) promoted_world p q
              payout refl hp hq flies,
        ))

  now_promoted :
      find_first (has_link_id id) (update_many (has_link_id id) promoted w.link_requests)
      ≡ some (promoted r)
  now_promoted =
      find_first-update_many (has_link_id id) (has_link_id id) promoted w.link_requests (λ a. refl)
      ∙ rw found (rw (find_first-where (has_link_id id) w.link_requests found) refl)

  -- Where an admin completes, with a profile to keep, the review of a request that was parked for
  -- SELLER_PROFILE_CONFLICT between two accounts that both have a seller profile, while a payout of either is in flight,
  -- the call throws and has then taken the request out of review: in the world it leaves, an attempt to complete or
  -- reject the request is refused.
  pub review_lost :
      (keep : KeepProfile)
      → (resolve_link_request id complete_request (some keep) admin_id w
          ≡ (err link_merge_in_flight, promoted_world))
        × ((outcome : ReviewOutcome) (keep' : Option KeepProfile) (admin' : String)
            → resolve_link_request id outcome keep' admin' promoted_world
              ≡ (err (conflict "Link request is PENDING, not PENDING_REVIEW"), promoted_world))
  unfolding resolve_link_request find_first
  review_lost keep = (
    ground (arith, complete_fails keep, found, parked_, reason, from, chat),
    λ outcome keep' admin'. rw now_promoted refl,
  )
