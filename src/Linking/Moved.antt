-- ===== src/Linking/Moved.antt =====
-- What a merge of account-merge.service.ts has done to the tables: one substitution of the absorbed account by the
-- other, in every column that says to whom a row belongs.
use meduman_backend.Prelude.{
  if◌then◌else◌, ◌===◌, String, ◌≡◌, refl, sym, ap, ◌∙◌, subst, inl, inr, Bool, Option, none, some,
  List, map, arith,
}
use meduman_backend.Store.Rows.{Transaction, Dispute, Payout, User, Invoice}
use meduman_backend.Store.ChatRows.{ChatIdentity, Notification, Evidence}
use meduman_backend.Store.World.{World}
use meduman_backend.Store.Table.{find_first, update_many, update_many-map, update_many_twice}
use meduman_backend.Store.Action.{
  Error, Result, ok, err, Action, ◌>>=◌, same_text?, world_after, result_of, transact_returns,
  transact_throws, Result-cases, bind_returns,
}
use meduman_backend.Store.Keeps.{Keeps, Keeps-pure, Keeps-bind}
use meduman_backend.Linking.Guards.{KeepProfile, MergeOptions, merge_guards}
use meduman_backend.Linking.Merge.{
  MergeReport, merge_profile, move_seller_profile, sold_by, bought_by, billed_by, billed_to,
  reparent, move_rows, close_account, merge_body, merge,
}

-- The account that a reference names after the merge.
abbrev pub absorb : String → String → String → String
absorb source target id = if id === source then target else id

abbrev pub absorb? : String → String → Option String → Option String
absorb? source target none = none
absorb? source target (some id) = some (absorb source target id)

abbrev pub rename_transaction : String → String → Transaction → Transaction
rename_transaction source target tx = record tx {
  seller_id = absorb source target tx.seller_id;
  buyer_id = absorb? source target tx.buyer_id;
}

abbrev pub rename_invoice : String → String → Invoice → Invoice
rename_invoice source target i = record i {
  seller_id = absorb source target i.seller_id;
  buyer_id = absorb? source target i.buyer_id;
}

module _ (source target : String) where
  moved_transactions :
      (xs : List Transaction)
      → update_many
          (λ tx. same_text? tx.buyer_id (some source))
          (bought_by target)
          (update_many (λ tx. tx.seller_id === source) (sold_by target) xs)
        ≡ map (rename_transaction source target) xs
  moved_transactions xs = update_many_twice _ _ _ _ _ xs (λ tx. ground arith)

  moved_invoices :
      (xs : List Invoice)
      → update_many
          (λ i. same_text? i.buyer_id (some source))
          (billed_to target)
          (update_many (λ i. i.seller_id === source) (billed_by target) xs)
        ≡ map (rename_invoice source target) xs
  moved_invoices xs = update_many_twice _ _ _ _ _ xs (λ i. ground arith)

  -- The guards read, and write nothing.
  merge_guards-frame :
      (opts : MergeOptions) (w : World) → world_after (merge_guards source target opts) w ≡ w
  unfolding merge_guards
  merge_guards-frame opts w = ground arith

  -- What the tables say after the rows have moved: the owners are renamed, and the history, the payments and the
  -- jobs are as they were.
  abbrev pub Moved : World → World → Type 0
  Moved w w' =
      (w'.transactions ≡ map (rename_transaction source target) w.transactions)
      × (w'.invoices ≡ map (rename_invoice source target) w.invoices)
      × (w'.payouts
          ≡ map (λ (p : Payout). record p { seller_id = absorb source target p.seller_id })
              w.payouts)
      × (w'.chat_identities
          ≡ map (λ (c : ChatIdentity). record c { user_id = absorb source target c.user_id })
              w.chat_identities)
      × (w'.notifications
          ≡ map (λ (n : Notification). record n { user_id = absorb source target n.user_id })
              w.notifications)
      × (w'.disputes
          ≡ map (λ (d : Dispute). record d { opened_by = absorb source target d.opened_by })
              w.disputes)
      × (w'.evidence
          ≡ map (λ (e : Evidence). record e { uploaded_by = absorb source target e.uploaded_by })
              w.evidence)
      × (w'.timeline ≡ w.timeline)
      × (w'.payments ≡ w.payments)
      × (w'.transfers ≡ w.transfers)
      × (w'.jobs ≡ w.jobs)
      × (w'.outbound ≡ w.outbound)
      × (w'.link_requests ≡ w.link_requests)

  reparent-Moved : (w : World) → Moved w (world_after (reparent source target) w)
  unfolding reparent
  reparent-Moved w = (
    moved_transactions w.transactions,
    moved_invoices w.invoices,
    update_many-map _ _ _ w.payouts (λ p. ground arith),
    update_many-map _ _ _ w.chat_identities (λ c. ground arith),
    update_many-map _ _ _ w.notifications (λ n. ground arith),
    update_many-map _ _ _ w.disputes (λ d. ground arith),
    update_many-map _ _ _ w.evidence (λ e. ground arith),
    refl,
    refl,
    refl,
    refl,
    refl,
    refl,
  )

  pub merge_profile-frame :
      (keep : Option KeepProfile) (w : World)
      → merge_profile source target keep w ≡ (
        result_of (merge_profile source target keep) w,
        record w { profiles = (world_after (merge_profile source target keep) w).profiles },
      )
  unfolding merge_profile find_first
  merge_profile-frame keep w = ground arith

  pub move_seller_profile-frame :
      (w : World)
      → move_seller_profile source target w ≡ (
        result_of (move_seller_profile source target) w,
        record w { sellers = (world_after (move_seller_profile source target) w).sellers },
      )
  unfolding move_seller_profile find_first
  move_seller_profile-frame w = ground arith

  pub close_account-frame :
      (accounts : User × User) (report : MergeReport) (w : World)
      → let w' = world_after (close_account source target accounts report) w in
        close_account source target accounts report w ≡ (
          result_of (close_account source target accounts report) w,
          record w { users = w'.users; audit = w'.audit },
        )
  unfolding close_account find_first
  close_account-frame (s, t) report w = ground arith

  module _ (w : World) where
    merge_profile-Keeps :
        (keep : Option KeepProfile) → Keeps (Moved w) (merge_profile source target keep)
    merge_profile-Keeps keep = record {
      at = λ v h.
          subst (Moved w) (sym (ap (λ (p : Result Bool × World). p.1) (merge_profile-frame keep v)))
            h;
    }

    move_seller_profile-Keeps : Keeps (Moved w) (move_seller_profile source target)
    move_seller_profile-Keeps = record {
      at = λ v h.
          subst (Moved w)
            (sym (ap (λ (p : Result Bool × World). p.1) (move_seller_profile-frame v))) h;
    }

    close_account-Keeps :
        (accounts : User × User) (report : MergeReport)
        → Keeps (Moved w) (close_account source target accounts report)
    close_account-Keeps accounts report = record {
      at = λ v h.
          subst (Moved w)
            (sym (
              ap (λ (p : Result MergeReport × World). p.1) (close_account-frame accounts report v)))
            h;
    }

  pub move_rows-Moved :
      (keep : Option KeepProfile) (w : World)
      → Moved w (world_after (move_rows source target keep) w)
  unfolding move_rows
  move_rows-Moved keep w =
      (Keeps-bind (merge_profile source target keep) _ (merge_profile-Keeps w keep) (λ merged.
          Keeps-bind (move_seller_profile source target) _ (move_seller_profile-Keeps w)
            (λ moved. Keeps-pure _))).at
        _ (reparent-Moved w)

  -- A merge that returned has passed its guards in the world it started from, and has run to its end.
  pub record Ran (opts : MergeOptions) (w : World) (r : MergeReport) : Type 0 where
    pub accounts : User × User
    pub report : MergeReport
    pub moved : result_of (move_rows source target opts.keep_profile) w ≡ ok report
    pub guarded : merge_guards source target opts w ≡ (ok accounts, w)
    pub ended :
        merge source target opts w
        ≡ close_account source target accounts report
            (world_after (move_rows source target opts.keep_profile) w)

  pub merge-Ran :
      (opts : MergeOptions) (w : World) (r : MergeReport)
      → result_of (merge source target opts) w ≡ ok r
      → Ran opts w r
  unfolding merge
  merge-Ran opts w r h =
      let guards = merge_guards source target opts in
      let (inner, same) = transact_returns (guards >>= rest) w r h in
      let (accounts, guarded, e) = bind_returns guards rest w r inner in
      let (report, moved, e') =
        bind_returns (move_rows source target opts.keep_profile)
          (close_account source target accounts) (world_after guards w) r
          (ap (λ (p : Result MergeReport × World). p.0) (sym e) ∙ inner) in
      record {
        accounts = accounts;
        report = report;
        moved =
            ap (result_of (move_rows source target opts.keep_profile))
              (sym (merge_guards-frame opts w))
            ∙ moved;
        guarded = λ i. (guarded i, merge_guards-frame opts w i);
        ended =
            same
            ∙ e
            ∙ e'
            ∙ ap
                (λ v.
                  close_account source target accounts report
                    (world_after (move_rows source target opts.keep_profile) v))
                (merge_guards-frame opts w);
      }
    where
      rest : User × User → Action MergeReport
      rest accounts =
          move_rows source target opts.keep_profile >>= close_account source target accounts

  -- A merge that returned has moved the rows.
  pub merge-Moved :
      (opts : MergeOptions) (w : World) (r : MergeReport)
      → result_of (merge source target opts) w ≡ ok r
      → Moved w (world_after (merge source target opts) w)
  merge-Moved opts w r h =
      let ran = merge-Ran opts w r h in
      subst (λ (p : Result MergeReport × World). Moved w p.1) (sym ran.ended)
        ((close_account-Keeps w ran.accounts ran.report).at _ (move_rows-Moved opts.keep_profile w))

  pub merge_throws :
      (opts : MergeOptions) (w : World) (e : Error)
      → result_of (merge source target opts) w ≡ err e
      → world_after (merge source target opts) w ≡ w
  unfolding merge
  merge_throws opts w e h = transact_throws (merge_body source target opts) w e h

  pub merge-link_requests :
      (opts : MergeOptions) (w : World)
      → (world_after (merge source target opts) w).link_requests ≡ w.link_requests
  merge-link_requests opts w = elim (Result-cases (result_of (merge source target opts) w)) [
    | inl (r, h) ↦ (merge-Moved opts w r h).12
    | inr (e, h) ↦ ap (λ (v : World). v.link_requests) (merge_throws opts w e h)
  ]
