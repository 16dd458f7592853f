-- ===== src/AutoRelease/Laws.antt =====
-- The scan of auto-release.service.ts never releases under an open dispute.
use mathlib.Core.Option
use meduman_backend.Prelude.{
  if◌then◌else◌, Bool-cases, Option-cases, length, ◌===◌, ℕ, ◌+◌, ◌≤◌, String, ◌≡◌, refl, sym, ap,
  ◌∙◌, ◌≢◌, inl, inr, true, false, Option, none, some, List, [], ◌∷◌, arith, eq_iff,
}
use meduman_backend.Store.Enums.{TransactionStatus}
use meduman_backend.Store.Rows.{Transaction, Dispute, TimelineEvent}
use meduman_backend.Store.World.{Job, World}
use meduman_backend.Store.Table.{find_first, find_many, update_many, find_first-update_many}
use meduman_backend.Store.Action.{enqueue, attempt, world_after, result_of, Result-cases}
use meduman_backend.Store.Keeps.{Keeps, Keeps-pure, Keeps-if, Keeps-attempt, Keeps-bind, Keeps-seq}
use meduman_backend.Machine.{auto_confirm, TransactionContext, accept, transition}
use meduman_backend.Transactions.{has_id, freezes, context_of, in_state, move_to, apply}
use meduman_backend.Transactions.Apply.{apply_error_unchanged, Applied, refused, apply-Applied}
use meduman_backend.AutoRelease.{
  is_candidate, entered, auto_transition, confirm_and_enqueue, counted, release_one, release_all,
  scan_and_release,
}

-- A transaction under an open dispute, which the scan must leave alone.
abbrev pub Frozen : Transaction → List Dispute → World → Type 0
Frozen tx disputes w =
    (find_first (has_id tx.id) w.transactions ≡ some tx) × (w.disputes ≡ disputes)

-- With an open dispute the machine refuses AUTO_CONFIRM in every state.
auto_refused :
    (s t : TransactionStatus) (c : TransactionContext)
    → c.has_open_dispute ≡ true
    → transition s auto_confirm c ≢ accept t
unfolding transition
auto_refused s t c h e = ground arith

-- An update of the rows of one id leaves the row found for another.
find_other :
    (id : String) (s next : TransactionStatus) (xs : List Transaction) (tx : Transaction)
    → (tx.id === id) ≡ false
    → find_first (has_id tx.id) xs ≡ some tx
    → find_first (has_id tx.id) (update_many (in_state id s) (move_to next) xs) ≡ some tx
find_other id s next xs tx differs found =
    find_first-update_many (has_id tx.id) (in_state id s) (move_to next) xs (λ a. refl)
    ∙ ap (Option.map (λ a. if in_state id s a then move_to next a else a)) found
    ∙ rw differs refl

module _ (tx : Transaction) (disputes : List Dispute)
    (open_ : 1 ≤ length (find_many (freezes tx.id) disputes)) where
  -- A confirmation that went through was of another transaction.
  moved-other :
      (id : String) (w : World) (row : Transaction) (w' : World)
      → Applied (auto_transition id) w row w'
      → w.disputes ≡ disputes
      → (tx.id === id) ≡ false
  unfolding context_of
  moved-other id w row w' done same = elim (Bool-cases (tx.id === id)) [
    | inr differs ↦ differs
    | inl own ↦ absurd (
        auto_refused done.tx.status done.next_state _
          (frozen_context id w done.tx same ((eq_iff tx.id id).0 own)) done.allowed)
  ]
    where
      frozen_context :
          (id : String) (w : World) (row : Transaction)
          → w.disputes ≡ disputes
          → tx.id ≡ id
          → (context_of
              (auto_transition id)
              row
              (find_many (freezes id) w.disputes)).has_open_dispute
            ≡ true
      frozen_context id w row same own = rw (same, sym own) (ground (arith, open_))

  apply-Keeps : (id : String) → Keeps (Frozen tx disputes) (apply (auto_transition id))
  apply-Keeps id = record {
    at = λ w h. elim (Result-cases (result_of (apply (auto_transition id)) w)) [
      | inr (e, refused) ↦ rw (apply_error_unchanged (auto_transition id) w e refused) h
      | inl (row, moved) ↦ moved_keeps w row (apply-Applied (auto_transition id) w row moved) h
    ];
  }
    where
      moved_keeps :
          (w : World) (row : Transaction)
          → Applied (auto_transition id) w row (world_after (apply (auto_transition id)) w)
          → Frozen tx disputes w
          → Frozen tx disputes (world_after (apply (auto_transition id)) w)
      moved_keeps w row done (found, same) =
          let (outbound, drawn, jobs, written) = done.written in
          (
            rw (ap (λ (v : World). v.transactions) written) (
                find_other id done.tx.status done.next_state w.transactions tx
                  (moved-other id w row _ done same) found),
            ap (λ (v : World). v.disputes) written ∙ same,
          )

  enqueue-Keeps : (job : Job) → Keeps (Frozen tx disputes) (enqueue job)
  enqueue-Keeps job = record {
    at = λ w h. elim (Option-cases w.queue_error) [ inl up ↦ rw up h | inr (m, down) ↦ rw down h ];
  }

  release_one-Keeps :
      (window_ms now : ℕ) (candidate : Transaction) (o : Option TimelineEvent)
      → Keeps (Frozen tx disputes) (release_one window_ms now candidate o)
  unfolding release_one confirm_and_enqueue
  release_one-Keeps window_ms now candidate none = Keeps-pure 0
  release_one-Keeps window_ms now candidate (some ev) = Keeps-if _ _ _ (Keeps-pure 0) (
      Keeps-bind (attempt (confirm_and_enqueue candidate.id)) _
        (Keeps-attempt _ (
          Keeps-seq (apply (auto_transition candidate.id)) _ (apply-Keeps candidate.id)
            (enqueue-Keeps _)))
        (λ outcome. Keeps-pure (counted outcome)))

  release_all-Keeps :
      (window_ms now : ℕ) (timeline : List TimelineEvent) (txs : List Transaction)
      → Keeps (Frozen tx disputes) (release_all window_ms now timeline txs)
  unfolding release_all
  release_all-Keeps window_ms now timeline [] = Keeps-pure 0
  release_all-Keeps window_ms now timeline (candidate ∷ txs) =
      Keeps-bind (release_one window_ms now candidate (find_first (entered candidate.id) timeline))
        _ (release_one-Keeps window_ms now candidate _)
        (λ first.
          Keeps-bind (release_all window_ms now timeline txs) _
            (release_all-Keeps window_ms now timeline txs) (λ rest. Keeps-pure (first + rest)))

  -- The scan leaves the row of a transaction with a freezing dispute, OPEN or UNDER_REVIEW, exactly as it was,
  -- however long its window has been over, and whatever it does to the others.
  pub scan_and_release-Frozen :
      (window_ms now : ℕ) (w : World)
      → Frozen tx disputes w
      → Frozen tx disputes (world_after (scan_and_release window_ms now) w)
  unfolding scan_and_release
  scan_and_release-Frozen window_ms now w h =
      (release_all-Keeps window_ms now w.timeline (find_many is_candidate w.transactions)).at w h
