-- ===== src/Linking/Absorbed.antt =====
-- What a merge of account-merge.service.ts leaves: the rows moved, the two profiles folded into one, the absorbed account
-- closed, and every other column of the database as it was.
use meduman_backend.Prelude.{String, ◌≡◌, refl, sym, ap, ◌∙◌, subst, Bool, Option, ◌∷◌}
use meduman_backend.Store.Rows.{AuditLog}
use meduman_backend.Store.World.{World}
use meduman_backend.Store.Action.{Result, ok, world_after, result_of, bind_returns}
use meduman_backend.Store.Keeps.{Keeps-pure, Keeps-bind}
use meduman_backend.Linking.Guards.{KeepProfile, MergeOptions}
use meduman_backend.Linking.Merge.{
  MergeReport, merge_profile, move_seller_profile, reparent, move_rows, close_account, merge,
}
use meduman_backend.Linking.Moved.{
  Moved, merge_profile-frame, move_seller_profile-frame, close_account-frame, move_rows-Moved,
  merge-Ran,
}
use meduman_backend.Linking.Folded.{
  SellersMoved, ProfilesMoved, UsersClosed, move_seller_profile_lem, merge_profile_lem,
  close_account_lem,
}

module _ (source target : String) where
  -- The tables that steps 1 to 5 write are those named here.
  abbrev OnlyRows : World → World → Type 0
  OnlyRows w v = v ≡ record w {
    transactions = v.transactions;
    invoices = v.invoices;
    payouts = v.payouts;
    chat_identities = v.chat_identities;
    notifications = v.notifications;
    disputes = v.disputes;
    evidence = v.evidence;
    sellers = v.sellers;
    profiles = v.profiles;
  }

  -- The tables that the whole merge writes.
  abbrev pub Closed : World → World → Type 0
  Closed w w' = w' ≡ record w {
    transactions = w'.transactions;
    invoices = w'.invoices;
    payouts = w'.payouts;
    chat_identities = w'.chat_identities;
    notifications = w'.notifications;
    disputes = w'.disputes;
    evidence = w'.evidence;
    sellers = w'.sellers;
    profiles = w'.profiles;
    users = w'.users;
    audit = w'.audit;
  }

  pub record Absorbed (w w' : World) : Type 0 where
    pub rows : Moved source target w w'
    pub sellers : SellersMoved source target w.sellers w'.sellers
    pub profiles : ProfilesMoved source target w.profiles w'.profiles
    pub users : UsersClosed source target w.now w.users w'.users
    pub audit : (row : AuditLog) × (row.action ≡ "chat.account_linked") × (w'.audit ≡ row ∷ w.audit)
    pub rest : Closed w w'

  move_rows-OnlyRows :
      (keep : Option KeepProfile) (w : World)
      → OnlyRows w (world_after (move_rows source target keep) w)
  unfolding move_rows reparent
  move_rows-OnlyRows keep w =
      (Keeps-bind {P = OnlyRows w} (merge_profile source target keep) _
          (record {
            at = λ v h.
                subst (OnlyRows w)
                  (sym (
                    ap (λ (o : Result Bool × World). o.1)
                      (merge_profile-frame source target keep v)))
                  (ap
                    (λ (u : World). record u {
                      profiles = (world_after (merge_profile source target keep) v).profiles;
                    })
                    h);
          })
          (λ merged.
            Keeps-bind (move_seller_profile source target) _
              (record {
                at = λ v h.
                    subst (OnlyRows w)
                      (sym (
                        ap (λ (o : Result Bool × World). o.1)
                          (move_seller_profile-frame source target v)))
                      (ap
                        (λ (u : World). record u {
                          sellers = (world_after (move_seller_profile source target) v).sellers;
                        })
                        h);
              })
              (λ moved. Keeps-pure _))).at
        _ refl

  -- Steps 4 and 5, where steps 1 to 5 return.
  move_rows_folds :
      (keep : Option KeepProfile) (w : World) (report : MergeReport)
      → result_of (move_rows source target keep) w ≡ ok report
      → let v = world_after (move_rows source target keep) w in
        SellersMoved source target w.sellers v.sellers
        × ProfilesMoved source target w.profiles v.profiles
  unfolding move_rows reparent
  move_rows_folds keep w report h =
      let v1 = world_after (reparent source target) w in
      let v2 = world_after (merge_profile source target keep) v1 in
      let v3 = world_after (move_seller_profile source target) v2 in
      let (merged, _, first) = bind_returns (merge_profile source target keep) _ v1 report h in
      let (moved, _, second) =
        bind_returns (move_seller_profile source target) _ v2 report
          (ap (λ (o : Result MergeReport × World). o.0) (sym first) ∙ h) in
      let ended : world_after (move_rows source target keep) w ≡ v3 =
        ap (λ (o : Result MergeReport × World). o.1) (first ∙ second) in
      let sellers : v2.sellers ≡ w.sellers =
        ap (λ (o : Result Bool × World). o.1.sellers) (merge_profile-frame source target keep v1) in
      let profiles : v3.profiles ≡ v2.profiles =
        ap (λ (o : Result Bool × World). o.1.profiles)
          (move_seller_profile-frame source target v2) in
      let (fold, owner, folded) = merge_profile_lem source target keep v1 in
      (
        subst
            (λ xs.
              SellersMoved source target xs (world_after (move_rows source target keep) w).sellers)
            sellers
            (subst (λ (v : World). SellersMoved source target v2.sellers v.sellers) (sym ended)
              (move_seller_profile_lem source target v2)),
        (fold, owner, ap (λ (v : World). v.profiles) ended ∙ profiles ∙ folded),
      )

  absorbed :
      (w v w' : World)
      → OnlyRows w v
      → w' ≡ record v { users = w'.users; audit = w'.audit }
      → Moved source target w v
      → SellersMoved source target w.sellers v.sellers
        × ProfilesMoved source target w.profiles v.profiles
      → UsersClosed source target v.now v.users w'.users
      → ((row : AuditLog) × (row.action ≡ "chat.account_linked") × (w'.audit ≡ row ∷ v.audit))
      → Absorbed w w'
  absorbed w v w' only framed rows (sellers, (fold, owner, folded)) users audit = record {
    rows = subst (Moved source target w) (sym framed) rows;
    sellers = ap (λ (u : World). u.sellers) framed ∙ sellers;
    profiles = (fold, owner, ap (λ (u : World). u.profiles) framed ∙ folded);
    users = subst (λ (u : World). UsersClosed source target u.now u.users w'.users) only users;
    audit =
        subst
          (λ (u : World).
            (row : AuditLog) × (row.action ≡ "chat.account_linked") × (w'.audit ≡ row ∷ u.audit))
          only audit;
    rest =
        subst (Closed w) (sym framed)
          (ap (λ (u : World). record u { users = w'.users; audit = w'.audit }) only);
  }

  -- A merge that returned has done this and nothing else. It has renamed the absorbed account to the other in every
  -- column that says to whom a transaction, an invoice, a payout, a chat identity, a notification, a dispute or a piece
  -- of evidence belongs. The absorbed account's seller profile and profile are renamed where the other account has none,
  -- and removed where it has one; of the profiles the other account's row alone is changed then, and not its owner. The
  -- absorbed account is DEACTIVATED, with a pointer to the other and the time of the merge; of the other account the
  -- roles and the phone are changed at most. One row is added to the audit log.
  pub merge-Absorbed :
      (opts : MergeOptions) (w : World) (r : MergeReport)
      → result_of (merge source target opts) w ≡ ok r
      → Absorbed w (world_after (merge source target opts) w)
  merge-Absorbed opts w r h =
      let ran = merge-Ran source target opts w r h in
      let v = world_after (move_rows source target opts.keep_profile) w in
      let ended : merge source target opts w
          ≡ close_account source target ran.accounts ran.report v =
        ran.ended in
      let (users, audit) =
        close_account_lem source target ran.accounts ran.report r v
          (ap (λ (o : Result MergeReport × World). o.0) (sym ended) ∙ h) in
      let only = move_rows-OnlyRows opts.keep_profile w in
      let framed =
        ap (λ (o : Result MergeReport × World). o.1)
          (close_account-frame source target ran.accounts ran.report v) in
      subst (λ (o : Result MergeReport × World). Absorbed w o.1) (sym ended)
        (absorbed w v (world_after (close_account source target ran.accounts ran.report) v) only
          framed (move_rows-Moved source target opts.keep_profile w)
          (move_rows_folds opts.keep_profile w ran.report ran.moved) users audit)
