-- ===== src/Payouts/Amount.antt =====
-- How much a release pays: `sellerSettlement` of payouts.service.ts against `chargeAmount` of
-- modules/payments/payments.service.ts, and the request that Paystack gets.
use meduman_backend.Prelude.{
  or_else, ◌===◌, concat, ◌+◌, String, ◌≡◌, refl, ap, ◌∙◌, false, Option, none, some, [], ◌∷◌,
  arith,
}
use meduman_backend.Store.Rows.{Transaction, Payout}
use meduman_backend.Store.World.{TransferRequest, World}
use meduman_backend.Store.Table.{find_first}
use meduman_backend.Store.Action.{Result, world_after, bind_ok}
use meduman_backend.Paystack.{Provider, initiate_transfer, verify_transfer}
use meduman_backend.Payouts.{
  release_idempotency_key, seller_settlement, has_key, new_payout, authorize_payout,
  record_transfer_sent, recipient_of, give_up, post_transfer, send_transfer, execute_release,
}
use meduman_backend.Payouts.Release.{MayRelease, release_runs, authorize_new}
use meduman_backend.Payouts.Once.{is_sent}

-- The request to Paystack that pays a transaction out.
abbrev pub payout_request : Transaction → String → TransferRequest
payout_request tx recipient = record {
  amount = seller_settlement tx.amount tx.fee_model tx.fee_amount;
  recipient = recipient;
  reference = release_idempotency_key tx.id;
  reason = concat ("Meduman release " ∷ tx.id ∷ []);
}

module _ (provider : Provider) where
  pub send_transfer-transfers :
      (p : Payout) (reference : Option String) (recipient : String) (w : World)
      → is_sent p ≡ false
      → recipient_of (find_first (λ s. s.user_id === p.seller_id) w.sellers) ≡ some recipient
      → (world_after (send_transfer provider p reference) w).transfers
        ≡ record {
          amount = p.amount;
          recipient = recipient;
          reference = or_else reference p.idempotency_key;
          reason = concat ("Meduman release " ∷ p.transaction_id ∷ []);
        }
          ∷ w.transfers
  unfolding send_transfer post_transfer record_transfer_sent initiate_transfer verify_transfer
      give_up find_first
  send_transfer-transfers p reference recipient w fresh known = rw (fresh, known) (ground arith)

  -- The first release of a transaction asks Paystack once, whatever Paystack answers: for the seller's
  -- settlement, to the seller's own recipient code, under the reference that every retry of the job uses.
  pub first_release-transfers :
      (id : String) (w : World) (may : MayRelease id w) (recipient : String)
      → find_first (has_key (release_idempotency_key may.tx.id)) w.payouts ≡ none
      → recipient_of (find_first (λ s. s.user_id === may.tx.seller_id) w.sellers) ≡ some recipient
      → (world_after (execute_release provider id) w).transfers
        ≡ payout_request may.tx recipient ∷ w.transfers
  unfolding new_payout
  first_release-transfers id w may recipient fresh known =
      ap (λ (o : Result Payout × World). o.1.transfers)
        (release_runs provider id w may
          ∙ bind_ok (authorize_payout may.tx) (λ p. send_transfer provider p none)
              (authorize_new may.tx w fresh))
      ∙ send_transfer-transfers (new_payout may.tx (w.uuid w.drawn)) none recipient
          (record w {
            drawn = w.drawn + 1;
            payouts = new_payout may.tx (w.uuid w.drawn) ∷ w.payouts;
          })
          refl known
