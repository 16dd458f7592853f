-- ===== src/Payouts/Examples.antt =====
-- Runs of payouts.service.ts against a provider that takes every transfer, and the theorems at them.
use meduman_backend.Prelude.{
  decimal, ◌+◌, String, ◌≡◌, refl, subst, ◌≢◌, ◌⊎◌, inl, true, false, none, some, List, [], ◌∷◌,
}
use meduman_backend.Prelude.Int.{pos}
use meduman_backend.Store.Enums.{release_processing, completed, PayoutStatus, same_status}
use meduman_backend.Store.Rows.{Transaction, Payout, SellerProfile}
use meduman_backend.Store.World.{World}
use meduman_backend.Store.Table.{find_first, find_many, count, update_many}
use meduman_backend.Store.Action.{Error, Result, ok, err, truthy, world_after, result_of}
use meduman_backend.Store.Sample.{sale, with_sale}
use meduman_backend.Store.Keeps.{Keeps}
use meduman_backend.Machine.{transition}
use meduman_backend.Outbound.{record_for_transition, dispatch}
use meduman_backend.Transactions.{has_id, commit, apply}
use meduman_backend.Transactions.Apply.{Applied}
use meduman_backend.Paystack.{unreachable, envelope, Transfer, Provider, request, initiate_transfer}
use meduman_backend.Payouts.{
  seller_settlement, new_payout, authorize_payout, record_transfer_sent, open_on, post_transfer,
  send_transfer, execute_release,
}
use meduman_backend.Payouts.Settle.{
  settled_transition, mark_success, mark_paid, failed_transfer, reversed_transfer, mark_failure,
  mark_failed, retry_transfer,
}
use meduman_backend.Payouts.Release.{MayRelease, release_guarded}
use meduman_backend.Payouts.Once.{AtMostOne, execute_release-Keeps}
use meduman_backend.Payouts.Again.{GivesCodes, release_again}
use meduman_backend.Payouts.Amount.{payout_request, first_release-transfers}
use meduman_backend.Payouts.Outcome.{
  TransferReport, paid_report, failed_report, take_reports, mark_failed-frame, paid_world,
  paid_once_for_all, mark_paid-completes,
}
use meduman_backend.Payouts.Retry.{retry_guarded, retry-transfers}

abbrev generous : Provider
generous = record {
  post_transfer = λ ts r.
      envelope true true none (some (record { transfer_code = "TRF_1"; status = "pending" }));
  get_transfer = λ ts r. envelope false false (some "Transfer not found") none;
  get_charge = λ r. unreachable;
  post_charge = λ e a r. unreachable;
  post_customer = λ e. unreachable;
  post_dedicated_account = λ c. unreachable;
}

abbrev ada : SellerProfile
ada = record { user_id = "ada"; provider_recipient_code = some "RCP_ada" }

abbrev confirmed : World
confirmed = record (with_sale release_processing) { sellers = ada ∷ [] }

abbrev confirmed_sale : Transaction
confirmed_sale = record sale { status = release_processing }

abbrev confirmed_found : find_first (has_id "t1") confirmed.transactions ≡ some confirmed_sale
unfolding find_first
confirmed_found = refl

abbrev confirmed_undisputed : count (open_on "t1") confirmed.disputes ≡ 0
unfolding count
confirmed_undisputed = refl

abbrev confirmed_may : MayRelease "t1" confirmed
confirmed_may = record {
  tx = confirmed_sale;
  found = confirmed_found;
  releasing = refl;
  undisputed = confirmed_undisputed;
}

abbrev IsCoded : Result Transfer → Type 0
IsCoded (ok t) = truthy (some t.transfer_code) ≡ some t.transfer_code
IsCoded (err e) = Unit

generous_codes : GivesCodes generous
unfolding request
generous_codes = record { posted = λ ts r t e. subst IsCoded e refl; known = λ ts r t e. cc e }

release_guarded_example :
    MayRelease "t1" confirmed
    ⊎ ((e : Error) × (execute_release generous "t1" confirmed ≡ (err e, confirmed)))
release_guarded_example = release_guarded generous "t1" confirmed

-- The payout after the first transfer.
abbrev sent_payout : Payout
sent_payout = record {
  id = "fresh";
  transaction_id = "t1";
  seller_id = "ada";
  idempotency_key = "release:t1";
  provider_transfer_code = some "TRF_1";
  provider_transfer_reference = some "release:t1";
  amount = pos 5000;
  currency = "NGN";
  status = PayoutStatus.processing;
  attempt_count = 1;
  last_error = none;
  merchant_id = some "m1";
}

release_runs_once : result_of (execute_release generous "t1") confirmed ≡ ok sent_payout
unfolding execute_release authorize_payout new_payout seller_settlement send_transfer post_transfer
    initiate_transfer request record_transfer_sent find_first count update_many same_status
release_runs_once = refl

release_again_example :
    let w' = world_after (execute_release generous "t1") confirmed in
    execute_release generous "t1" w' ≡ (ok sent_payout, record w' { drawn = w'.drawn + 1 })
release_again_example =
    release_again generous generous_codes "t1" confirmed sent_payout release_runs_once

first_release-transfers_example :
    (world_after (execute_release generous "t1") confirmed).transfers
    ≡ payout_request confirmed_sale "RCP_ada" ∷ []
unfolding find_first
first_release-transfers_example =
    first_release-transfers generous "t1" confirmed confirmed_may "RCP_ada" refl refl

execute_release-Keeps_test : Keeps (AtMostOne "release:t1") (execute_release generous "t1")
execute_release-Keeps_test = execute_release-Keeps generous "release:t1" "t1"

-- The world in which Paystack has taken the transfer, and one in which it has then failed.
abbrev transferred : World
transferred = record confirmed { payouts = sent_payout ∷ [] }

abbrev bounced_payout : Payout
bounced_payout = mark_failure failed_transfer "insufficient balance" sent_payout

abbrev bounced : World
bounced = record confirmed { payouts = bounced_payout ∷ [] }

abbrev late_reports : List TransferReport
late_reports = failed_report reversed_transfer "closed account" ∷ paid_report "TRF_9" ∷ []

paid_once_for_all_example :
    let w' = world_after (mark_paid "release:t1" "TRF_1") transferred in
    take_reports "release:t1" late_reports w' ≡ w'
unfolding find_first new_payout
paid_once_for_all_example =
    paid_once_for_all "release:t1" "TRF_1" transferred sent_payout late_reports refl

mark_failed-frame_test :
    let w' =
      world_after (mark_failed "release:t1" reversed_transfer "closed account") transferred in
    (w'.transactions ≡ transferred.transactions)
    × (w'.timeline ≡ [])
    × (w'.disputes ≡ [])
    × (w'.jobs ≡ [])
    × (w'.transfers ≡ [])
mark_failed-frame_test =
    mark_failed-frame "release:t1" reversed_transfer "closed account" transferred

paid_runs :
    result_of (mark_paid "release:t1" "TRF_1") transferred ≡ ok (mark_success "TRF_1" sent_payout)
unfolding mark_paid apply commit transition record_for_transition dispatch find_first find_many
    count update_many same_status new_payout
paid_runs = refl

mark_paid-completes_example :
    (mark_success "TRF_1" sent_payout
      ≡ record sent_payout { status = PayoutStatus.success; provider_transfer_code = some "TRF_1" })
    × ((row : Transaction) × (row.status ≡ completed)
        × Applied
            (settled_transition sent_payout "release:t1" "TRF_1")
            (paid_world "release:t1" "TRF_1" transferred)
            row
            (world_after (mark_paid "release:t1" "TRF_1") transferred))
unfolding find_first new_payout
mark_paid-completes_example =
    mark_paid-completes "release:t1" "TRF_1" transferred sent_payout
      (mark_success "TRF_1" sent_payout) refl refl paid_runs

retry_guarded_test :
    (world_after (retry_transfer generous "release:t1" "root") transferred ≡ transferred)
    × ((q : Payout) → result_of (retry_transfer generous "release:t1" "root") transferred ≢ ok q)
unfolding find_first new_payout
retry_guarded_test =
    retry_guarded generous "release:t1" "root" transferred sent_payout refl (inl refl)

retry-transfers_example :
    ((world_after (retry_transfer generous "release:t1" "root") bounced).transfers
      ≡ record {
        amount = sent_payout.amount;
        recipient = "RCP_ada";
        reference = "release:t1:r2";
        reason = "Meduman release t1";
      }
        ∷ [])
    × (◌≢◌ {A = String} "release:t1:r2" "release:t1")
unfolding find_first count new_payout request decimal
retry-transfers_example =
    retry-transfers generous "release:t1" "root" "RCP_ada" bounced bounced_payout refl refl refl
      refl refl
