-- ===== src/Payouts/Release.antt =====
-- `executeRelease` of payouts.service.ts: when money may leave, how much, and that it leaves once.
use meduman_backend.Prelude.{
  ltb, Bool-cases, Option-cases, is_some, ◌+◌, String, ◌≡◌, refl, ◌⊎◌, inl, inr, true, ◌||◌, Option,
  none, some, ◌∷◌, arith,
}
use meduman_backend.Store.Enums.{release_processing, same_status, same_status→eq}
use meduman_backend.Store.Rows.{Transaction, Payout}
use meduman_backend.Store.World.{World}
use meduman_backend.Store.Table.{find_first, count}
use meduman_backend.Store.Action.{Error, ok, err, ◌>>=◌, truthy}
use meduman_backend.Transactions.{has_id, transaction_not_found}
use meduman_backend.Paystack.{Provider}
use meduman_backend.Payouts.{
  release_idempotency_key, has_key, new_payout, authorize_payout, is_success, open_on,
  release_frozen, not_releasing, send_transfer, execute_release,
}

-- What must hold of the world before a release may touch anything.
pub record MayRelease (id : String) (w : World) : Type 0 where
  pub tx : Transaction
  pub found : find_first (has_id id) w.transactions ≡ some tx
  pub releasing : tx.status ≡ release_processing
  pub undisputed : count (open_on tx.id) w.disputes ≡ 0

module _ (provider : Provider) where
  -- A release of a transaction that is missing, is not in RELEASE_PROCESSING, or has a dispute in status
  -- OPEN throws and leaves the world as it was: no payout row, no request to Paystack.
  pub release_guarded :
      (id : String) (w : World)
      → MayRelease id w ⊎ ((e : Error) × (execute_release provider id w ≡ (err e, w)))
  unfolding execute_release
  release_guarded id w = elim (Option-cases (find_first (has_id id) w.transactions)) [
    | inl missing ↦ inr (transaction_not_found id, ground arith)
    | inr (tx, found) ↦ elim (Bool-cases (same_status tx.status release_processing)) [
      | inr idle ↦ inr (not_releasing id tx.status, ground arith)
      | inl releasing ↦ elim (Bool-cases (ltb 0 (count (open_on tx.id) w.disputes))) [
        | inl frozen ↦ inr (release_frozen id, ground arith)
        | inr clear ↦ inl (record {
          tx = tx;
          found = found;
          releasing = same_status→eq _ _ releasing;
          undisputed = ground arith;
        })
      ]
    ]
  ]

  -- Otherwise it is exactly the two steps that follow the guards.
  pub release_runs :
      (id : String) (w : World) (may : MayRelease id w)
      → execute_release provider id w
        ≡ (authorize_payout may.tx >>= λ p. send_transfer provider p none) w
  unfolding execute_release same_status authorize_payout
  release_runs id w may = rw may.found (rw may.releasing (rw may.undisputed refl))

  -- A payout that is settled, or already carries a transfer code, is returned as it is.
  pub send_transfer_sent :
      (p : Payout) (reference : Option String) (w : World)
      → (is_success p.status || is_some (truthy p.provider_transfer_code)) ≡ true
      → send_transfer provider p reference w ≡ (ok p, w)
  unfolding send_transfer
  send_transfer_sent p reference w h = rw h

-- Where a payout has the key of the transaction, authorizing finds it and writes no row.
pub authorize_existing :
    (tx : Transaction) (p : Payout) (w : World)
    → find_first (has_key (release_idempotency_key tx.id)) w.payouts ≡ some p
    → authorize_payout tx w ≡ (ok p, record w { drawn = w.drawn + 1 })
unfolding authorize_payout
authorize_existing tx p w h = ground arith

-- Where none has, it writes one, with the seller's settlement for its amount.
pub authorize_new :
    (tx : Transaction) (w : World)
    → find_first (has_key (release_idempotency_key tx.id)) w.payouts ≡ none
    → authorize_payout tx w ≡ (
      ok (new_payout tx (w.uuid w.drawn)),
      record w { drawn = w.drawn + 1; payouts = new_payout tx (w.uuid w.drawn) ∷ w.payouts },
    )
unfolding authorize_payout
authorize_new tx w h = ground arith
