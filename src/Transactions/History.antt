-- ===== src/Transactions/History.antt =====
-- The timeline against the status: in every world that transactions.service.ts can leave, the timeline
-- of a transaction is a walk through the state machine from DRAFT to the status of its row.
use mathlib.Core.Bool.{false≢true}
use meduman_backend.Prelude.{
  Bool-cases, All, ◌===◌, ◌≤◌, String, ◌≡◌, refl, sym, ap, ◌∙◌, subst, inl, inr, Bool, true, false,
  List, [], ◌∷◌, arith, eq_iff,
}
use meduman_backend.Store.Enums.{TransactionStatus, same_status_refl, same_status→eq}
use meduman_backend.Store.Rows.{Transaction, TimelineEvent}
use meduman_backend.Store.World.{World}
use meduman_backend.Store.Table.{
  find_many, count, find_first-where, count-update_many, All-update_many, All-zip, unique_row,
}
use meduman_backend.Store.Action.{world_after, result_of, Result-cases}
use meduman_backend.Machine.{TransactionEvent, TransactionContext, accept, transition}
use meduman_backend.Transactions.{
  ApplyTransitionInput, has_id, freezes, context_of, in_state, move_to, timeline_row, apply,
}
use meduman_backend.Transactions.Apply.{apply_error_unchanged, Applied, apply-Applied}

-- The timeline of one transaction, newest first.
abbrev is_of : String → TimelineEvent → Bool
is_of id ev = ev.transaction_id === id

abbrev pub events_of : String → World → List TimelineEvent
events_of id w = find_many (is_of id) w.timeline

-- The machine has an event, and a context, that takes one status to the other.
abbrev pub Allowed : TransactionStatus → TransactionStatus → Type 0
Allowed s t = (e : TransactionEvent) × (c : TransactionContext) × (transition s e c ≡ accept t)

-- A timeline that starts at DRAFT and ends at the status, each row an allowed step from the row before.
abbrev pub Walk : List TimelineEvent → TransactionStatus → Type 0
Walk [] s = s ≡ TransactionStatus.draft
Walk (ev ∷ evs) s = (ev.new_state ≡ s) × Allowed ev.old_state ev.new_state × Walk evs ev.old_state

-- Ids are unique, and every status is the end of the walk that the timeline records.
pub record IsConsistent (w : World) : Type 0 where
  pub unique : (id : String) → count (has_id id) w.transactions ≤ 1
  pub recorded : All (λ tx. Walk (events_of tx.id w) tx.status) w.transactions

same_text→eq : (a b : String) → (a === b) ≡ true → a ≡ b
same_text→eq a b h = (eq_iff a b).0 h

module _ (input : ApplyTransitionInput) (w : World) (row : Transaction) (w' : World)
    (done : Applied input w row w') (before : IsConsistent w) where
  open done use {tx, next_state, found, allowed}

  timeline-grows :
      w'.timeline ≡ timeline_row input tx next_state (w.uuid w.drawn) w.now ∷ w.timeline
  timeline-grows = let (o, d, j, e) = done.written in ap (λ (v : World). v.timeline) e

  -- The row that moved: its timeline is longer by the step that the machine allowed.
  moved-Walk :
      (a : Transaction)
      → in_state input.transaction_id tx.status a ≡ true
      → Walk (events_of a.id w) a.status
      → Walk (events_of a.id w') next_state
  unfolding find_many timeline_row
  moved-Walk a h walk =
      let same : (input.transaction_id === a.id) ≡ true =
        (eq_iff input.transaction_id a.id).1
          (sym (same_text→eq a.id input.transaction_id (ground arith))) in
      let status : a.status ≡ tx.status = same_status→eq a.status tx.status (ground arith) in
      rw timeline-grows (
        rw same
          (refl, (input.event, context, allowed), subst (Walk (events_of a.id w)) status walk))
    where
      context : TransactionContext
      context = context_of input tx (find_many (freezes input.transaction_id) w.disputes)

  -- Any other row: its timeline is as it was.
  still-Walk :
      (a : Transaction)
      → in_state input.transaction_id tx.status a ≡ false
      → (Walk (events_of a.id w) a.status) × (has_id input.transaction_id a ≡ true → a ≡ tx)
      → Walk (events_of a.id w') a.status
  unfolding find_many timeline_row
  still-Walk a h (walk, only) = elim (Bool-cases (input.transaction_id === a.id)) [
    | inl same ↦ absurd (not_tx (only (a_has_id same)))
    | inr other_id ↦ rw timeline-grows (rw other_id walk)
  ]
    where
      a_has_id : (input.transaction_id === a.id) ≡ true → has_id input.transaction_id a ≡ true
      a_has_id same =
          (eq_iff a.id input.transaction_id).1 (sym (same_text→eq input.transaction_id a.id same))

      tx_in_state : in_state input.transaction_id tx.status tx ≡ true
      tx_in_state = ground (
        arith,
        find_first-where (has_id input.transaction_id) w.transactions found,
        same_status_refl tx.status,
      )

      not_tx : a ≡ tx → ⊥
      not_tx e = false≢true (sym h ∙ ap (in_state input.transaction_id tx.status) e ∙ tx_in_state)

  after-IsConsistent : IsConsistent w'
  after-IsConsistent =
      let (o, d, j, e) = done.written in
      record {
        unique = λ id. rw (ap (λ (v : World). v.transactions) e) (
            rw
              (count-update_many (has_id id) (in_state input.transaction_id tx.status)
                (move_to next_state) w.transactions (λ a. refl))
              (before.unique id));
        recorded = rw (ap (λ (v : World). v.transactions) e) (
            All-update_many
              (λ a.
                Walk (events_of a.id w) a.status × (has_id input.transaction_id a ≡ true → a ≡ tx))
              (λ a. Walk (events_of a.id w') a.status) (in_state input.transaction_id tx.status)
              (move_to next_state) w.transactions (λ a hit p. moved-Walk a hit p.0)
              (λ a miss p. still-Walk a miss p)
              (All-zip (λ a. Walk (events_of a.id w) a.status)
                (λ a. has_id input.transaction_id a ≡ true → a ≡ tx) w.transactions before.recorded
                (unique_row (has_id input.transaction_id) w.transactions
                  (before.unique input.transaction_id) found)));
      }

-- A request to the service, whether it returns or throws, keeps ids unique and keeps every
-- transaction's timeline a walk of allowed steps from DRAFT to the status in its row.
pub apply-IsConsistent :
    (input : ApplyTransitionInput) (w : World)
    → IsConsistent w
    → IsConsistent (world_after (apply input) w)
apply-IsConsistent input w before = elim (Result-cases (result_of (apply input) w)) [
  | inl (row, e) ↦
      after-IsConsistent input w row (world_after (apply input) w) (apply-Applied input w row e)
        before
  | inr (e, threw) ↦ rw (apply_error_unchanged input w e threw) before
]

-- Requests one after another.
abbrev pub apply_all : List ApplyTransitionInput → World → World
apply_all [] w = w
apply_all (input ∷ inputs) w = apply_all inputs (world_after (apply input) w)

-- Whatever the requests and their order, the timeline still explains every status.
pub apply_all-IsConsistent :
    (inputs : List ApplyTransitionInput) (w : World)
    → IsConsistent w
    → IsConsistent (apply_all inputs w)
apply_all-IsConsistent [] w before = before
apply_all-IsConsistent (input ∷ inputs) w before =
    apply_all-IsConsistent inputs (world_after (apply input) w) (apply-IsConsistent input w before)
