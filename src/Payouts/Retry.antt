-- ===== src/Payouts/Retry.antt =====
-- What `retryTransfer` of payouts.service.ts does: when it refuses, and what it sends.
use Prim.Native.String
use text.Mathlib.TextLemmas.{append_cancel_left, append-nil}
use text.Mathlib.TextPositions.{len-append}
use meduman_backend.Prelude.{
  ◌===◌, concat, decimal, ◌+◌, ◌≤◌, String, ◌≡◌, refl, sym, ap, ◌∙◌, ◌≢◌, ◌⊎◌, true, false, none,
  some, [], ◌∷◌, arith,
}
use meduman_backend.Store.Rows.{Payout}
use meduman_backend.Store.World.{World}
use meduman_backend.Store.Table.{find_first, count, update_many}
use meduman_backend.Store.Action.{Result, ok, world_after, result_of}
use meduman_backend.Audit.{entry_row}
use meduman_backend.Paystack.{Provider, request, found_transfer, verify_transfer}
use meduman_backend.Payouts.{
  has_key, is_success, is_retryable, recipient_of, open_on, send_transfer,
}
use meduman_backend.Payouts.Settle.{
  succeeded, clear_transfer, next_reference, prior_reference, retry_entry, retry_transfer,
}
use meduman_backend.Payouts.Amount.{send_transfer-transfers}

module _ (provider : Provider) where
  -- `retryTransfer` refuses a payout that is settled or under way, and one whose transaction has a
  -- dispute in status OPEN: it returns nothing, and the world stays as it was.
  pub retry_guarded :
      (key admin_id : String) (w : World) (p : Payout)
      → find_first (has_key key) w.payouts ≡ some p
      → (is_retryable p.status ≡ false) ⊎ (1 ≤ count (open_on p.transaction_id) w.disputes)
      → (world_after (retry_transfer provider key admin_id) w ≡ w)
        × ((q : Payout) → result_of (retry_transfer provider key admin_id) w ≢ ok q)
  unfolding retry_transfer
  retry_guarded key admin_id w p found why = (ground arith, λ q e. ground arith)

  next_reference-ne : (p : Payout) → next_reference p ≢ p.idempotency_key
  unfolding next_reference
  next_reference-ne p e =
      longer (append_cancel_left p.idempotency_key _ "" (e ∙ sym (append-nil p.idempotency_key)))
    where
      longer : String.◌++◌ ":r" (concat (decimal (p.attempt_count + 1) ∷ [])) ≢ ""
      longer h =
          omega
            (arith, len-append ":r" (concat (decimal (p.attempt_count + 1) ∷ [])), ap String.len h)

  -- A retry that Paystack does not report as paid sends again.
  pub retry_runs :
      (key admin_id : String) (w : World) (p : Payout)
      → find_first (has_key key) w.payouts ≡ some p
      → is_retryable p.status ≡ true
      → count (open_on p.transaction_id) w.disputes ≡ 0
      → succeeded (found_transfer (request (provider.get_transfer w.transfers (prior_reference p))))
        ≡ none
      → retry_transfer provider key admin_id w
        ≡ send_transfer provider (clear_transfer p) (some (next_reference p)) (record w {
          audit = entry_row (retry_entry admin_id p) ∷ w.audit;
          payouts = update_many (has_key key) clear_transfer w.payouts;
        })
  unfolding retry_transfer find_first verify_transfer
  retry_runs key admin_id w p found bounced clear unpaid =
      let open_ : is_success p.status ≡ false = ground (arith, bounced) in
      rw found (rw (open_, bounced) (rw clear (rw unpaid (rw found refl))))

  -- A retry of a payout that failed or was reversed, whose transaction has no dispute in status OPEN and whose seller
  -- has a recipient code, and that Paystack does not report as paid, asks for one more transfer: of the payout's
  -- amount, to that recipient, under `<key>:r<attempts + 1>`, which is not the key that the first transfer went
  -- under. A look-up that fails counts as not paid.
  pub retry-transfers :
      (key admin_id recipient : String) (w : World) (p : Payout)
      → find_first (has_key key) w.payouts ≡ some p
      → is_retryable p.status ≡ true
      → count (open_on p.transaction_id) w.disputes ≡ 0
      → recipient_of (find_first (λ s. s.user_id === p.seller_id) w.sellers) ≡ some recipient
      → succeeded (found_transfer (request (provider.get_transfer w.transfers (prior_reference p))))
        ≡ none
      → let reference = concat (p.idempotency_key ∷ ":r" ∷ decimal (p.attempt_count + 1) ∷ []) in
        ((world_after (retry_transfer provider key admin_id) w).transfers
          ≡ record {
            amount = p.amount;
            recipient = recipient;
            reference = reference;
            reason = concat ("Meduman release " ∷ p.transaction_id ∷ []);
          }
            ∷ w.transfers)
        × (reference ≢ p.idempotency_key)
  unfolding next_reference
  retry-transfers key admin_id recipient w p found bounced clear known unpaid =
      let runs = retry_runs key admin_id w p found bounced clear unpaid in
      (
        ap (λ (o : Result Payout × World). o.1.transfers) runs
            ∙ send_transfer-transfers provider (clear_transfer p) (some (next_reference p))
                recipient _ (ground (arith, bounced)) known,
        next_reference-ne p,
      )
