-- ===== src/Webhooks/Retried.antt =====
-- webhooks.service.ts and payouts.service.ts: the report on a transfer that was sent again.
use meduman_backend.Prelude.{
  Option-cases, ◌===◌, concat, decimal, ◌+◌, String, ◌≡◌, refl, ap, ◌∙◌, inl, inr, true, none, some,
  List, [], ◌∷◌, arith,
}
use meduman_backend.Store.Rows.{Payout}
use meduman_backend.Store.World.{World}
use meduman_backend.Store.Table.{find_first, count, count_pos_of_find, count-update_many}
use meduman_backend.Store.Action.{Result, err, truthy, world_after}
use meduman_backend.Paystack.{Provider, request, found_transfer}
use meduman_backend.Payouts.{has_key, is_retryable, recipient_of, open_on}
use meduman_backend.Payouts.Settle.{
  payout_not_found, mark_paid, succeeded, clear_transfer, next_reference, prior_reference,
  retry_transfer,
}
use meduman_backend.Payouts.Once.{send_transfer-Keeps}
use meduman_backend.Payouts.Retry.{retry_runs, retry-transfers}
use meduman_backend.Webhooks.{PaystackWebhookPayload, kind_of, route}

-- A report of success is not matched where no payout has its reference for a key.
paid_unmatched :
    (provider : Provider) (payload : PaystackWebhookPayload) (reference code : String) (w : World)
    → payload.event ≡ "transfer.success"
    → truthy payload.reference ≡ some reference
    → truthy payload.transfer_code ≡ some code
    → find_first (has_key reference) w.payouts ≡ none
    → route provider payload w ≡ (err (payout_not_found reference), w)
unfolding route kind_of mark_paid find_first
paid_unmatched provider payload reference code w event named coded unknown =
    rw (event, named, coded) (rw unknown refl)

find_none_of_count :
    (key : String) (xs : List Payout)
    → count (has_key key) xs ≡ 0
    → find_first (has_key key) xs ≡ none
find_none_of_count key xs h = elim (Option-cases (find_first (has_key key) xs)) [
  | inl gone ↦ gone
  | inr (p, found) ↦ absurd (omega (arith, count_pos_of_find (has_key key) xs found))
]

-- The success of a retried transfer is not matched with its payout. Where a retry sends again (the payout failed or was
-- reversed, its transaction has no dispute in status OPEN, its seller has a recipient code, and Paystack does not report
-- the transfer before as paid) and no payout has the new reference for its key, the retry posts a transfer under that
-- reference; and a transfer.success that names this reference and a transfer code, routed afterwards, throws not found and
-- changes nothing.
pub retried_report_unmatched :
    (provider : Provider) (key admin_id recipient code : String) (w : World) (p : Payout)
    (payload : PaystackWebhookPayload)
    → find_first (has_key key) w.payouts ≡ some p
    → is_retryable p.status ≡ true
    → count (open_on p.transaction_id) w.disputes ≡ 0
    → recipient_of (find_first (λ s. s.user_id === p.seller_id) w.sellers) ≡ some recipient
    → succeeded (found_transfer (request (provider.get_transfer w.transfers (prior_reference p))))
      ≡ none
    → payload.event ≡ "transfer.success"
    → truthy payload.reference
      ≡ some (concat (p.idempotency_key ∷ ":r" ∷ decimal (p.attempt_count + 1) ∷ []))
    → truthy payload.transfer_code ≡ some code
    → count
        (has_key (concat (p.idempotency_key ∷ ":r" ∷ decimal (p.attempt_count + 1) ∷ [])))
        w.payouts
      ≡ 0
    → let reference = concat (p.idempotency_key ∷ ":r" ∷ decimal (p.attempt_count + 1) ∷ []) in
      let w' = world_after (retry_transfer provider key admin_id) w in
      (w'.transfers
        ≡ record {
          amount = p.amount;
          recipient = recipient;
          reference = reference;
          reason = concat ("Meduman release " ∷ p.transaction_id ∷ []);
        }
          ∷ w.transfers)
      × (route provider payload w' ≡ (err (payout_not_found reference), w'))
retried_report_unmatched provider key admin_id recipient code w p payload found bounced clear known
      unpaid event named coded free =
    let reference = concat (p.idempotency_key ∷ ":r" ∷ decimal (p.attempt_count + 1) ∷ []) in
    let runs = retry_runs provider key admin_id w p found bounced clear unpaid in
    (
      (retry-transfers provider key admin_id recipient w p found bounced clear known unpaid).0,
      paid_unmatched provider payload reference code _ event named coded (
          find_none_of_count reference _ (
            ap (λ (o : Result Payout × World). count (has_key reference) o.1.payouts) runs
            ∙ (send_transfer-Keeps provider reference 0 (clear_transfer p)
                  (some (next_reference p))).at
                _
                (count-update_many (has_key reference) (has_key key) clear_transfer w.payouts
                    (λ a. refl)
                  ∙ free))),
    )
