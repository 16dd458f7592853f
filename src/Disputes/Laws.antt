-- ===== src/Disputes/Laws.antt =====
-- disputes.service.ts: a second open dispute freezes a resolution, what a resolution leaves behind, and what
-- it leaves behind where the queue is down.
use meduman_backend.Prelude.{
  Bool-cases, ◌===◌, ℕ, ◌≤◌, String, ◌≡◌, refl, sym, ap, ◌∙◌, subst, ◌≢◌, inl, inr, true, none,
  some, List, ◌∷◌, arith, eq_iff,
}
use meduman_backend.Store.Enums.{TransactionStatus, disputed, release_processing, resolved_release}
use meduman_backend.Store.Rows.{Transaction, Dispute}
use meduman_backend.Store.World.{Job, World}
use meduman_backend.Store.Table.{find_first, find_many, count, update_many, find_first-where}
use meduman_backend.Store.Action.{
  illegal_transition, Error, plain, ok, err, world_after, result_of, bind_ok, Result-cases,
}
use meduman_backend.Machine.{
  TransactionEvent, resolve_dispute_for_seller, TransactionContext, accept, reject, transition,
}
use meduman_backend.Transactions.{has_id, freezes, context_of, in_state, move_to, apply}
use meduman_backend.Transactions.Apply.{
  apply_error_unchanged, verdict, wrote, reread, apply_ok, refused, apply-Applied,
}
use meduman_backend.Disputes.{
  to_seller, ResolveDisputeInput, has_dispute_id, is_open, other_open, resolution_event,
  resolve_transition, close_dispute, conclude, resolve,
}

-- The machine never takes the seller's side while a dispute is open.
seller_side_refused :
    (s t : TransactionStatus) (event : TransactionEvent) (c : TransactionContext)
    → event ≡ resolve_dispute_for_seller
    → c.has_open_dispute ≡ true
    → transition s event c ≢ accept t
unfolding transition
seller_side_refused s t event c side h e = ground arith

-- The transition of a resolution for the seller, with other disputes open.
frozen_apply :
    (input : ResolveDisputeInput) (d : Dispute) (n : ℕ) (w : World)
    → input.outcome ≡ to_seller
    → 1 ≤ n
    → (e : Error) × (apply (resolve_transition input d n) w ≡ (err e, w))
unfolding context_of
frozen_apply input d n w side others =
    elim (Result-cases (result_of (apply (resolve_transition input d n)) w)) [
      | inl (row, moved) ↦
          let done = apply-Applied (resolve_transition input d n) w row moved in
          absurd (
            seller_side_refused done.tx.status done.next_state (resolution_event input.outcome)
              (context_of (resolve_transition input d n) done.tx
                (find_many (freezes d.transaction_id) w.disputes))
              (ap resolution_event side) (ground arith) done.allowed)
      | inr (e, refused) ↦ (
        e,
        ground (arith, refused, apply_error_unchanged (resolve_transition input d n) w e refused),
      )
    ]

-- While another dispute on the same transaction is open, resolving one for the seller is refused: it returns
-- nothing and leaves the world as it was, whatever the state of the transaction.
pub other_dispute_freezes :
    (input : ResolveDisputeInput) (w : World) (d : Dispute)
    → input.outcome ≡ to_seller
    → find_first (has_dispute_id input.dispute_id) w.disputes ≡ some d
    → 1 ≤ count (other_open d) w.disputes
    → (world_after (resolve input) w ≡ w) × ((q : Dispute) → result_of (resolve input) w ≢ ok q)
unfolding resolve find_first count
other_dispute_freezes input w d side found others =
    let (e, refused) = frozen_apply input d (count (other_open d) w.disputes) w side others in
    elim (Bool-cases (is_open d)) [
      | inr closed ↦ (ground arith, λ q e. ground arith)
      | inl open_ ↦ (ground (arith, refused), λ q e. ground (arith, refused))
    ]

-- Where the transition of a resolution throws, the resolution does.
resolve_refused :
    (input : ResolveDisputeInput) (w : World) (d : Dispute) (n : ℕ) (e : Error)
    → find_first (has_dispute_id input.dispute_id) w.disputes ≡ some d
    → is_open d ≡ true
    → count (other_open d) w.disputes ≡ n
    → result_of (apply (resolve_transition input d n)) w ≡ err e
    → (q : Dispute) → result_of (resolve input) w ≢ ok q
unfolding resolve find_first count
resolve_refused input w d n e found open_ others refused q h = ground (arith, refused)

already_releasing :
    (event : TransactionEvent) (c : TransactionContext)
    → event ≡ resolve_dispute_for_seller
    → (m : String) × (transition release_processing event c ≡ reject illegal_transition m)
unfolding transition
already_releasing event c side = rw side (_, refl)

conclude_down :
    (input : ResolveDisputeInput) (d : Dispute) (v : World) (m : String)
    → input.outcome ≡ to_seller
    → v.queue_error ≡ some m
    → conclude input d v ≡ (err (plain m), v)
unfolding conclude
conclude_down input d v m side down = rw (side, down) refl

conclude_up :
    (input : ResolveDisputeInput) (d : Dispute) (v : World)
    → input.outcome ≡ to_seller
    → v.queue_error ≡ none
    → find_first (has_dispute_id d.id) v.disputes ≡ some d
    → conclude input d v ≡ (
      ok (close_dispute input v.now d),
      record v {
        jobs = Job.release d.transaction_id ∷ v.jobs;
        disputes = update_many (has_dispute_id d.id) (close_dispute input v.now) v.disputes;
      },
    )
unfolding conclude find_first
conclude_up input d v side up own = rw (side, up) (rw own refl)

-- The world after the transition of a resolution, before the job is put on the queue.
module _ (input : ResolveDisputeInput) (w : World) (d : Dispute) (tx : Transaction)
    (side : input.outcome ≡ to_seller)
    (found : find_first (has_dispute_id input.dispute_id) w.disputes ≡ some d)
    (open_ : is_open d ≡ true) (alone : count (other_open d) w.disputes ≡ 0)
    (stored : find_first (has_id d.transaction_id) w.transactions ≡ some tx)
    (disputed_ : tx.status ≡ disputed)
    (one : count (in_state d.transaction_id tx.status) w.transactions ≡ 1) where
  allowed_for_seller : verdict (resolve_transition input d 0) w tx ≡ accept release_processing
  unfolding transition context_of
  allowed_for_seller = rw (disputed_, side) refl

  -- Where the queue is down, resolving the only open dispute of a disputed transaction, one row, for the seller throws
  -- after its transition: the transaction is in RELEASE_PROCESSING, every dispute is as it was, and resolving again
  -- returns nothing.
  pub resolve_stuck :
      (m : String)
      → w.queue_error ≡ some m
      → let w' = world_after (resolve input) w in
        (result_of (resolve input) w ≡ err (plain m))
        × (find_first (has_id d.transaction_id) w'.transactions
            ≡ some (move_to release_processing tx))
        × (w'.disputes ≡ w.disputes)
        × ((q : Dispute) → result_of (resolve input) w' ≢ ok q)
  unfolding resolve find_first count
  resolve_stuck m down =
      let (outbound, drawn, jobs, done) =
        apply_ok (resolve_transition input d 0) w tx release_processing stored allowed_for_seller
          one in
      let after : World = record (wrote (resolve_transition input d 0) tx release_processing w) {
        outbound = outbound;
        drawn = drawn;
        jobs = jobs;
      } in
      let runs : resolve input w ≡ (err (plain m), after) = rw found (
        rw open_ (
          rw alone (
            bind_ok (apply (resolve_transition input d 0)) _ done
            ∙ conclude_down input d after m side down))) in
      let moved = reread d.transaction_id release_processing w tx stored in
      let (why, denied) =
        already_releasing (resolution_event input.outcome)
          (context_of (resolve_transition input d 0) (move_to release_processing tx)
            (find_many (freezes d.transaction_id) w.disputes))
          (ap resolution_event side) in
      let no_more = resolve_refused input after d 0 _ found open_ alone (
        refused (resolve_transition input d 0) after (move_to release_processing tx)
          illegal_transition why moved denied) in
      rw runs (refl, moved, refl, no_more)

  -- A dispute that this resolution has closed in the seller's favour.
  abbrev pub released_dispute : Dispute → Dispute
  released_dispute e = record e {
    status = resolved_release;
    resolved_at = some w.now;
    resolved_by = some input.resolved_by;
    resolution = input.resolution;
  }

  close_dispute_released : (e : Dispute) → close_dispute input w.now e ≡ released_dispute e
  close_dispute_released e = rw side refl

  -- Where the queue answers, resolving the only open dispute of a disputed transaction, one row, for the seller moves the
  -- transaction to RELEASE_PROCESSING, asks the queue for its release last, and writes RESOLVED_RELEASE, the time, the
  -- admin and the text of the resolution into the dispute, and nothing into the other disputes; the dispute is returned
  -- as it is then.
  pub resolve_releases :
      w.queue_error ≡ none
      → let w' = world_after (resolve input) w in
        (result_of (resolve input) w ≡ ok (released_dispute d))
        × (find_first (has_id d.transaction_id) w'.transactions
            ≡ some (record tx { status = release_processing }))
        × (w'.disputes ≡ update_many (λ e. e.id === d.id) released_dispute w.disputes)
        × ((jobs : List Job) × (w'.jobs ≡ Job.release d.transaction_id ∷ jobs))
  unfolding resolve find_first count
  resolve_releases up =
      let (outbound, drawn, jobs, done) =
        apply_ok (resolve_transition input d 0) w tx release_processing stored allowed_for_seller
          one in
      let after : World = record (wrote (resolve_transition input d 0) tx release_processing w) {
        outbound = outbound;
        drawn = drawn;
        jobs = jobs;
      } in
      let own : find_first (has_dispute_id d.id) w.disputes ≡ some d =
        subst (λ id. find_first (has_dispute_id id) w.disputes ≡ some d)
          (sym (
            (eq_iff d.id input.dispute_id).0
              (find_first-where (has_dispute_id input.dispute_id) w.disputes found)))
          found in
      let runs : resolve input w ≡ (
        ok (close_dispute input w.now d),
        record after {
          jobs = Job.release d.transaction_id ∷ jobs;
          disputes = update_many (has_dispute_id d.id) (close_dispute input w.now) w.disputes;
        },
      ) =
        rw found (
          rw open_ (
            rw alone (
              bind_ok (apply (resolve_transition input d 0)) _ done
              ∙ conclude_up input d after side up own))) in
      let moved = reread d.transaction_id release_processing w tx stored in
      rw runs (
        ap ok (close_dispute_released d),
        moved,
        λ i. update_many (has_dispute_id d.id) (λ e. close_dispute_released e i) w.disputes,
        (jobs, refl),
      )
