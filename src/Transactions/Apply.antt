-- ===== src/Transactions/Apply.antt =====
-- `apply` of modules/transactions/transactions.service.ts: all or nothing, one timeline and one audit
-- row for each change of status, and no change that the machine does not allow.
use meduman_backend.Prelude.{
  ◌==◌, Bool-cases, Option-cases, concat, ℕ, ◌+◌, String, ◌≡◌, refl, ap, ◌∙◌, ◌≢◌, ◌⊎◌, inl, inr,
  Option, none, some, List, [], ◌∷◌, arith,
}
use meduman_backend.Store.Enums.{TransactionStatus, same_status_refl}
use meduman_backend.Store.Rows.{Transaction, OutboundEvent}
use meduman_backend.Store.World.{Job, webhook_delivery, World}
use meduman_backend.Store.Table.{
  find_first, find_many, count, update_many, find_first-where, find_first-update_many,
}
use meduman_backend.Store.Action.{
  RejectionReason, illegal_transition, Error, transition_rejected, Result, ok, err, transact,
  world_after, result_of, bind_ok, transact_ok,
}
use meduman_backend.Machine.{TransitionResult, accept, reject, event_type, transition}
use meduman_backend.Outbound.{dispatch, record_for_transition_lem}
use meduman_backend.Transactions.{
  ApplyTransitionInput, has_id, transaction_not_found, freezes, context_of, in_state, move_to,
  timeline_row, audit_row, view_of, commit, dispatch_new, apply,
}

-- A transition that throws, for whatever reason (no such row, the machine's refusal, a concurrent
-- change), leaves every table, the queue and the supply of identifiers as they were.
pub apply_error_unchanged :
    (input : ApplyTransitionInput) (w : World) (e : Error)
    → result_of (apply input) w ≡ err e
    → world_after (apply input) w ≡ w
unfolding apply dispatch
apply_error_unchanged input w e h = ground arith

pub TransitionResult-cases :
    (r : TransitionResult)
    → ((t : TransactionStatus) × (r ≡ accept t))
      ⊎ ((reason : RejectionReason) × (m : String) × (r ≡ reject reason m))
TransitionResult-cases (accept t) = inl (t, refl)
TransitionResult-cases (reject reason m) = inr (reason, m, refl)

-- What the machine is asked about a row.
abbrev pub verdict : ApplyTransitionInput → World → Transaction → TransitionResult
verdict input w tx =
    transition tx.status input.event
      (context_of input tx (find_many (freezes input.transaction_id) w.disputes))

-- The world with the three rows of a change of status written.
abbrev pub wrote : ApplyTransitionInput → Transaction → TransactionStatus → World → World
wrote input tx next w = record w {
  transactions =
      update_many (in_state input.transaction_id tx.status) (move_to next) w.transactions;
  timeline = timeline_row input tx next (w.uuid w.drawn) w.now ∷ w.timeline;
  audit = audit_row input tx next ∷ w.audit;
}

-- What a call of `apply` that returned has done.
pub record Applied (input : ApplyTransitionInput) (w : World) (row : Transaction) (w' : World)
    : Type 0 where
  pub tx : Transaction
  pub next_state : TransactionStatus
  pub found : find_first (has_id input.transaction_id) w.transactions ≡ some tx
  pub allowed : verdict input w tx ≡ accept next_state
  pub returned : row ≡ move_to next_state tx
  pub once : count (in_state input.transaction_id tx.status) w.transactions ≡ 1
  -- The only writes: the status of the row, one timeline row, one audit row, the outbox, and a job.
  pub written :
      (outbound : List OutboundEvent) × (drawn : ℕ) × (jobs : List Job) × (w'
        ≡ record (wrote input tx next_state w) { outbound = outbound; drawn = drawn; jobs = jobs })

move_to-has_id :
    (id : String) (s : TransactionStatus) (a : Transaction) → has_id id (move_to s a) ≡ has_id id a
move_to-has_id id s a = refl

-- The row that the update has just written is the row that was read, in its new state.
pub reread :
    (id : String) (next : TransactionStatus) (w : World) (tx : Transaction)
    → find_first (has_id id) w.transactions ≡ some tx
    → find_first (has_id id) (update_many (in_state id tx.status) (move_to next) w.transactions)
      ≡ some (move_to next tx)
reread id next w tx found =
    rw
      (
        find_first-update_many (has_id id) (in_state id tx.status) (move_to next) w.transactions
            (move_to-has_id id next),
        found,
      )
      (ground
        (arith, find_first-where (has_id id) w.transactions found, same_status_refl tx.status))

module _ (input : ApplyTransitionInput) (w : World) (tx : Transaction) (next : TransactionStatus)
    (found : find_first (has_id input.transaction_id) w.transactions ≡ some tx)
    (allowed : verdict input w tx ≡ accept next) where
  -- The transaction of the database, where exactly one row is still in the state that was read.
  pub commit_lem :
      count (in_state input.transaction_id tx.status) w.transactions ≡ 1
      → (o : Option String) × (outbound : List OutboundEvent) × (drawn : ℕ) × (commit input tx next
            w
          ≡ (
            ok (move_to next tx, o),
            record (wrote input tx next w) { outbound = outbound; drawn = drawn },
          ))
  unfolding commit
  commit_lem one =
      let (o, outbound, drawn, e) =
        record_for_transition_lem (event_type input.event) (view_of tx next)
          (record (wrote input tx next w) { drawn = w.drawn + 1 }) in
      (o, outbound, drawn, rw one (rw e (rw (reread input.transaction_id next w tx found))))

  count-commit :
      (done : Transaction × Option String)
      → (commit input tx next w).0 ≡ ok done
      → count (in_state input.transaction_id tx.status) w.transactions ≡ 1
  unfolding commit
  count-commit done h = ground arith

  pub commit_concurrent :
      count (in_state input.transaction_id tx.status) w.transactions ≢ 1
      → (commit input tx next w).0
        ≡ err (
            transition_rejected illegal_transition
              (concat ("Transaction " ∷ input.transaction_id ∷ " changed state concurrently" ∷ [])))
  unfolding commit
  commit_concurrent ne = ground arith

  -- The enqueue after the transaction adds a job, or is swallowed.
  dispatch_new_lem :
      (o : Option String) (v : World)
      → (jobs : List Job) × (dispatch_new o v ≡ (ok tt, record v { jobs = jobs }))
  unfolding dispatch
  dispatch_new_lem none v = (v.jobs, refl)
  dispatch_new_lem (some id) v = elim (Option-cases v.queue_error) [
    | inl up ↦ (webhook_delivery id ∷ v.jobs, rw up)
    | inr (m, down) ↦ (v.jobs, rw down)
  ]

  -- An event that the machine allows goes through where one row is still in the state read.
  pub apply_ok :
      count (in_state input.transaction_id tx.status) w.transactions ≡ 1
      → (outbound : List OutboundEvent) × (drawn : ℕ) × (jobs : List Job) × (apply input w ≡ (
        ok (move_to next tx),
        record (wrote input tx next w) { outbound = outbound; drawn = drawn; jobs = jobs },
      ))
  unfolding apply
  apply_ok one =
      let (o, outbound, drawn, e) = commit_lem one in
      let (jobs, d) =
        dispatch_new_lem o
          (record (wrote input tx next w) { outbound = outbound; drawn = drawn }) in
      (
        outbound,
        drawn,
        jobs,
        rw found (
            rw allowed (
              bind_ok (transact (commit input tx next)) _ (transact_ok (commit input tx next) e)
              ∙ bind_ok (dispatch_new o) _ d)),
      )

  apply_concurrent :
      count (in_state input.transaction_id tx.status) w.transactions ≢ 1
      → result_of (apply input) w
        ≡ err (
            transition_rejected illegal_transition
              (concat ("Transaction " ∷ input.transaction_id ∷ " changed state concurrently" ∷ [])))
  unfolding apply commit
  apply_concurrent ne = ground arith

  settled :
      (row : Transaction)
      → result_of (apply input) w ≡ ok row
      → Applied input w row (world_after (apply input) w)
  settled row h =
      elim (Bool-cases (count (in_state input.transaction_id tx.status) w.transactions == 1)) [
        | inl one ↦ once_settled (ground arith)
        | inr other_count ↦ cc (apply_concurrent (ground arith))
      ]
    where
      once_settled :
          count (in_state input.transaction_id tx.status) w.transactions ≡ 1
          → Applied input w row (world_after (apply input) w)
      once_settled one =
          let (outbound, drawn, jobs, e) = apply_ok one in
          record {
            tx = tx;
            next_state = next;
            found = found;
            allowed = allowed;
            returned = cc e;
            once = one;
            written = (outbound, drawn, jobs, ap (λ (p : Result Transaction × World). p.1) e);
          }

no_row :
    (input : ApplyTransitionInput) (w : World)
    → find_first (has_id input.transaction_id) w.transactions ≡ none
    → result_of (apply input) w ≡ err (transaction_not_found input.transaction_id)
unfolding apply
no_row input w h = ground arith

pub refused :
    (input : ApplyTransitionInput) (w : World) (tx : Transaction) (reason : RejectionReason)
    (m : String)
    → find_first (has_id input.transaction_id) w.transactions ≡ some tx
    → verdict input w tx ≡ reject reason m
    → result_of (apply input) w ≡ err (transition_rejected reason m)
unfolding apply
refused input w tx reason m found denied = ground arith

-- A transition that returns has read the row, was allowed by the machine in the row's state, returns
-- the row with nothing but its status changed, and has written exactly the new status, one timeline
-- row, one audit row, the outbox and a job of it: every other table is as it was.
pub apply-Applied :
    (input : ApplyTransitionInput) (w : World) (row : Transaction)
    → result_of (apply input) w ≡ ok row
    → Applied input w row (world_after (apply input) w)
apply-Applied input w row h =
    elim (Option-cases (find_first (has_id input.transaction_id) w.transactions)) [
      | inl missing ↦ cc (no_row input w missing)
      | inr (tx, found) ↦ elim (TransitionResult-cases (verdict input w tx)) [
        | inl (next, allowed) ↦ settled input w tx next found allowed row h
        | inr (reason, m, denied) ↦ cc (refused input w tx reason m found denied)
      ]
    ]
