-- ===== src/Transactions/Race.antt =====
-- Two requests at once, in `apply` of transactions.service.ts: each reads the row and asks the machine
-- before either writes. The conditional update is the only thing between them.
use meduman_backend.Prelude.{
  Bool-cases, concat, String, ◌≡◌, ap, ◌≢◌, inl, inr, Option, some, List, [], ◌∷◌, arith,
}
use meduman_backend.Store.Enums.{TransactionStatus, same_status, same_status→eq}
use meduman_backend.Store.Rows.{Transaction}
use meduman_backend.Store.World.{World}
use meduman_backend.Store.Table.{find_first, count, update_many, count-update_many_zero}
use meduman_backend.Store.Action.{
  illegal_transition, transition_rejected, ok, err, transact, world_after, result_of,
}
use meduman_backend.Machine.{accept}
use meduman_backend.Transactions.{ApplyTransitionInput, has_id, in_state, move_to, commit}
use meduman_backend.Transactions.Apply.{verdict, wrote, commit_lem}

clear_state :
    (id : String) (s next : TransactionStatus) (xs : List Transaction)
    → next ≢ s
    → count (in_state id s) (update_many (in_state id s) (move_to next) xs) ≡ 0
clear_state id s next xs moved = count-update_many_zero (in_state id s) (move_to next) xs (λ a h.
    elim (Bool-cases (same_status next s)) [
      | inl same ↦ absurd (moved (same_status→eq next s same))
      | inr differs ↦ ground arith
    ])

-- A decision taken on a row that has since left the state that was read writes nothing.
pub stale_commit_refused :
    (input : ApplyTransitionInput) (tx : Transaction) (next : TransactionStatus) (w : World)
    → count (in_state input.transaction_id tx.status) w.transactions ≡ 0
    → transact (commit input tx next) w ≡ (
      err (
          transition_rejected illegal_transition
            (concat ("Transaction " ∷ input.transaction_id ∷ " changed state concurrently" ∷ []))),
      w,
    )
unfolding commit
stale_commit_refused input tx next w none_left = rw (none_left, transact)

-- Of two requests that read the same row and were both allowed, whatever their events, only one can
-- commit, provided that it changes the status: the second is refused as changed concurrently and
-- leaves the world as the first left it.
pub race_one_winner :
    (first second : ApplyTransitionInput) (w : World) (tx : Transaction)
    (next next' : TransactionStatus)
    → first.transaction_id ≡ second.transaction_id
    → find_first (has_id first.transaction_id) w.transactions ≡ some tx
    → verdict first w tx ≡ accept next
    → next ≢ tx.status
    → count (in_state first.transaction_id tx.status) w.transactions ≡ 1
    → let w' = world_after (commit first tx next) w in
      ((row : Transaction × Option String) × (result_of (commit first tx next) w ≡ ok row))
      × (transact (commit second tx next') w' ≡ (
        err (
            transition_rejected illegal_transition (
              concat
                ("Transaction " ∷ second.transaction_id ∷ " changed state concurrently" ∷ []))),
        w',
      ))
race_one_winner first second w tx next next' same found allowed moved one =
    let (o, outbound, drawn, e) = commit_lem first w tx next found allowed one in
    (
      ((move_to next tx, o), ap (λ p. p.0) e),
      rw (e, world_after)
          (stale_commit_refused second tx next'
            (record (wrote first tx next w) { outbound = outbound; drawn = drawn })
            (rw (← same) (clear_state first.transaction_id tx.status next w.transactions moved))),
    )
