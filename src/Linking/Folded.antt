-- ===== src/Linking/Folded.antt =====
-- account-merge.service.ts: what a merge makes of the seller profiles, the profiles and the users.
use mathlib.Core.Option
use meduman_backend.Prelude.{
  if◌then◌else◌, Option-cases, is_some, ◌===◌, ℕ, String, ◌≡◌, refl, sym, ap, ◌∙◌, inl, inr, not,
  Option, none, some, List, ◌∷◌, map, arith,
}
use meduman_backend.Store.Enums.{deactivated}
use meduman_backend.Store.Rows.{AuditLog, SellerProfile, User}
use meduman_backend.Store.ChatRows.{Profile}
use meduman_backend.Store.World.{World}
use meduman_backend.Store.Table.{
  find_first, find_many, update_many, find_first-update_many, find_many-none, update_many_id,
  update_many_none, count-find_none, update_many-map,
}
use meduman_backend.Store.Action.{ok, world_after, result_of}
use meduman_backend.Linking.Guards.{KeepProfile, keep_target, keep_source, has_user_id, seller_of}
use meduman_backend.Linking.Merge.{
  MergeReport, fold_profile, profile_of, merge_profile, move_seller_profile, absorb_fields,
  close_account,
}
use meduman_backend.Linking.Moved.{absorb}

module _ (source target : String) where
  -- A table with one row at most for each account: the absorbed account's row goes where the other has one, and is
  -- renamed where it has none.
  abbrev pub SellersMoved : List SellerProfile → List SellerProfile → Type 0
  SellersMoved xs ys = ys ≡ (
      if is_some (find_first (λ s. s.user_id === target) xs)
      then find_many (λ s. not (s.user_id === source)) xs
      else map (λ (s : SellerProfile). record s { user_id = absorb source target s.user_id }) xs)

  -- The same of the profiles, where the row that stays is changed, but for its owner.
  abbrev pub ProfilesMoved : List Profile → List Profile → Type 0
  ProfilesMoved xs ys =
      (fold : Profile → Profile) × ((p : Profile) → (fold p).user_id ≡ p.user_id)
      × (ys ≡ (
          if is_some (find_first (λ p. p.user_id === target) xs)
          then find_many (λ p. not (p.user_id === source))
              (update_many (λ p. p.user_id === target) fold xs)
          else map (λ (p : Profile). record p { user_id = absorb source target p.user_id }) xs))

  -- The absorbed account is DEACTIVATED and points to the other, of which the roles and the phone are changed at most.
  abbrev pub UsersClosed : ℕ → List User → List User → Type 0
  UsersClosed now xs ys =
      (join : User → User) × ((u : User)
        → join u ≡ record u { role_flags = (join u).role_flags; phone = (join u).phone })
      × (ys
          ≡ update_many (λ u. u.id === source)
              (λ u. record u {
                status = deactivated;
                merged_into_user_id = some target;
                merged_at = some now;
              })
              (update_many (λ u. u.id === target) join xs))

  no_seller :
      (xs : List SellerProfile) → find_first (seller_of source) xs ≡ none → SellersMoved xs xs
  no_seller xs gone = elim (Option-cases (find_first (seller_of target) xs)) [
    | inl free ↦ rw free (
        sym (update_many_none _ _ xs (count-find_none (seller_of source) xs gone))
        ∙ update_many-map (seller_of source) (λ s. record s { user_id = target }) _ xs
            (λ s. ground arith))
    | inr (q, taken) ↦ rw taken (sym (find_many-none (seller_of source) xs gone))
  ]

  pub move_seller_profile_lem :
      (v : World)
      → SellersMoved v.sellers (world_after (move_seller_profile source target) v).sellers
  unfolding move_seller_profile find_first
  move_seller_profile_lem v = elim (Option-cases (find_first (seller_of source) v.sellers)) [
    | inl gone ↦ rw gone (no_seller v.sellers gone)
    | inr (s, here) ↦ elim (Option-cases (find_first (seller_of target) v.sellers)) [
      | inl free ↦ rw here (
          rw free (
            rw here (
              update_many-map (seller_of source) (λ a. record a { user_id = target }) _ v.sellers
                (λ a. ground arith))))
      | inr (q, taken) ↦ rw here (rw taken (rw here refl))
    ]
  ]

  no_profile : (xs : List Profile) → find_first (profile_of source) xs ≡ none → ProfilesMoved xs xs
  no_profile xs gone = elim (Option-cases (find_first (profile_of target) xs)) [
    | inl free ↦ (
      λ p. p,
      λ p. refl,
      rw free (
          sym (update_many_none _ _ xs (count-find_none (profile_of source) xs gone))
          ∙ update_many-map (profile_of source) (λ p. record p { user_id = target }) _ xs
              (λ p. ground arith)),
    )
    | inr (q, taken) ↦ (
      λ p. p,
      λ p. refl,
      rw taken (
          sym (
            ap (find_many (λ p. not (profile_of source p))) (update_many_id (profile_of target) xs)
            ∙ find_many-none (profile_of source) xs gone)),
    )
  ]

  -- Both accounts have a profile: one is folded into the other.
  fold_profiles :
      (keep : Option KeepProfile) (v : World) (p q : Profile)
      → find_first (profile_of source) v.profiles ≡ some p
      → find_first (profile_of target) v.profiles ≡ some q
      → (k : KeepProfile) × (a : Profile) × (b : Profile) × ((world_after
            (merge_profile source target keep)
            v).profiles
          ≡ find_many
              (λ p. not (profile_of source p))
              (update_many (profile_of target) (fold_profile k a b) v.profiles))
  unfolding merge_profile find_first update_many find_many
  fold_profiles keep v p q here taken = by_choice keep
    where
      still :
          (f : Profile → Profile)
          → ((a : Profile) → profile_of source (f a) ≡ profile_of source a)
          → (a : Profile) × (find_first
                (profile_of source)
                (update_many (profile_of target) f v.profiles)
              ≡ some a)
      still f same = (
        _,
        find_first-update_many (profile_of source) (profile_of target) f v.profiles same
            ∙ ap (Option.map (λ a. if profile_of target a then f a else a)) here,
      )

      by_choice :
          (keep : Option KeepProfile)
          → (k : KeepProfile) × (a : Profile) × (b : Profile) × ((world_after
                (merge_profile source target keep)
                v).profiles
              ≡ find_many
                  (λ p. not (profile_of source p))
                  (update_many (profile_of target) (fold_profile k a b) v.profiles))
      by_choice none =
          let (a, again) = still (fold_profile keep_target q p) (λ a. refl) in
          (keep_target, q, p, rw here (rw taken (rw taken (rw again refl))))
      by_choice (some keep_target) =
          let (a, again) = still (fold_profile keep_target q p) (λ a. refl) in
          (keep_target, q, p, rw here (rw taken (rw taken (rw again refl))))
      by_choice (some keep_source) =
          let (a, again) = still (fold_profile keep_source p q) (λ a. refl) in
          (keep_source, p, q, rw here (rw taken (rw taken (rw again refl))))

  pub merge_profile_lem :
      (keep : Option KeepProfile) (v : World)
      → ProfilesMoved v.profiles (world_after (merge_profile source target keep) v).profiles
  unfolding merge_profile find_first
  merge_profile_lem keep v = elim (Option-cases (find_first (profile_of source) v.profiles)) [
    | inl gone ↦ rw gone (no_profile v.profiles gone)
    | inr (p, here) ↦ elim (Option-cases (find_first (profile_of target) v.profiles)) [
      | inl free ↦ (
        λ a. a,
        λ a. refl,
        rw here (
            rw free (
              rw here (
                update_many-map (profile_of source) (λ a. record a { user_id = target }) _
                  v.profiles (λ a. ground arith)))),
      )
      | inr (q, taken) ↦
          let (k, a, b, folded) = fold_profiles keep v p q here taken in
          (fold_profile k a b, λ c. refl, folded ∙ rw taken refl)
    ]
  ]

  -- Steps 6 to 8, where they return.
  pub close_account_lem :
      (accounts : User × User) (report r : MergeReport) (v : World)
      → result_of (close_account source target accounts report) v ≡ ok r
      → let w' = world_after (close_account source target accounts report) v in
        UsersClosed v.now v.users w'.users
        × ((row : AuditLog) × (row.action ≡ "chat.account_linked") × (w'.audit ≡ row ∷ v.audit))
  unfolding close_account find_first update_many
  close_account_lem (s, t) report r v h =
      elim (Option-cases (find_first (has_user_id target) v.users)) [
        | inl gone ↦ absurd (ground (arith, h))
        | inr (a, here) ↦
            elim (Option-cases (
              find_first (has_user_id source)
                (update_many (has_user_id target) (absorb_fields s t) v.users))) [
                  | inl gone ↦ absurd (ground (arith, h))
                  | inr (b, found) ↦ (
                    (absorb_fields s t, λ u. refl, rw here (rw found refl)),
                    rw here (rw found (_, refl, refl)),
                  )
                ]
      ]
