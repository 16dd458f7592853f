-- ===== src/Webhooks/Examples.antt =====
-- Runs of webhooks.service.ts, and the theorems at them.
use meduman_backend.Prelude.{
  ◌===◌, decimal, ◌+◌, ◌≡◌, refl, ◌≢◌, inl, Bool, true, none, some, [], ◌∷◌,
}
use meduman_backend.Prelude.Int.{pos}
use meduman_backend.Store.Enums.{release_processing, PayoutStatus}
use meduman_backend.Store.Rows.{Payout}
use meduman_backend.Store.World.{World}
use meduman_backend.Store.Table.{find_first, count}
use meduman_backend.Store.Action.{ok, err, world_after, result_of}
use meduman_backend.Store.Sample.{with_sale}
use meduman_backend.Paystack.{unreachable, envelope, Provider, request}
use meduman_backend.Payouts.Settle.{payout_not_found, retry_transfer}
use meduman_backend.Webhooks.{
  PaystackWebhookPayload, duplicate_event, handled_event, Platform, is_stale, route,
  handle_paystack_event,
}
use meduman_backend.Webhooks.Laws.{Passes, event_once, event_refused}
use meduman_backend.Webhooks.Retried.{retried_report_unmatched}

abbrev offline : Provider
offline = record {
  post_transfer = λ ts r. unreachable;
  get_transfer = λ ts r. unreachable;
  get_charge = λ r. unreachable;
  post_charge = λ e a r. unreachable;
  post_customer = λ e. unreachable;
  post_dedicated_account = λ c. unreachable;
}

abbrev transfer_report : PaystackWebhookPayload
transfer_report = record {
  event = "transfer.success";
  id = some "77";
  reference = some "release:t1:r2";
  transfer_code = some "TRF_2";
  status = some "success";
  reason = none;
  customer_code = none;
  account_id = none;
  account_number = none;
  bank_name = none;
  paid_at = none;
  created_at = none;
  created_at_camel = none;
}

abbrev node : Platform
node = record {
  signature_valid = λ raw_body signature. signature === "good";
  parse_body = λ raw_body. some transfer_report;
  parse_date = λ stamp. none;
}

abbrev releasing : World
releasing = with_sale release_processing

abbrev releasing_passes : (w : World) → Passes node 300 offline "{}" "good" transfer_report w
unfolding is_stale
releasing_passes w = (refl, refl, refl)

event_once_example :
    let w' = world_after (handle_paystack_event node 300 offline "{}" "good") releasing in
    handle_paystack_event node 300 offline "{}" "good" w'
    ≡ (ok duplicate_event, record w' { drawn = w'.drawn + 1 })
event_once_example =
    event_once node 300 offline "{}" "good" "{}" "good" transfer_report transfer_report releasing
      (releasing_passes releasing)
      (releasing_passes
        (world_after (handle_paystack_event node 300 offline "{}" "good") releasing))
      refl

event_refused_test :
    (world_after (handle_paystack_event node 300 offline "{}" "forged") releasing ≡ releasing)
    × ((handled : Bool)
        → result_of (handle_paystack_event node 300 offline "{}" "forged") releasing
          ≢ ok (handled_event handled))
event_refused_test = event_refused node 300 offline "{}" "forged" releasing (inl refl)

-- Paystack takes every transfer, and knows of none that has succeeded.
abbrev taking : Provider
taking = record offline {
  post_transfer = λ ts r.
      envelope true true none (some (record { transfer_code = "TRF_2"; status = "pending" }));
}

-- A payout whose first transfer failed.
abbrev bounced : Payout
bounced = record {
  id = "po1";
  transaction_id = "t1";
  seller_id = "ada";
  idempotency_key = "release:t1";
  provider_transfer_code = some "TRF_1";
  provider_transfer_reference = some "release:t1";
  amount = pos 5000;
  currency = "NGN";
  status = PayoutStatus.failed;
  attempt_count = 1;
  last_error = none;
  merchant_id = none;
}

abbrev to_retry : World
to_retry = record releasing {
  payouts = bounced ∷ [];
  sellers = record { user_id = "ada"; provider_recipient_code = some "RCP_ada" } ∷ [];
}

retried_report_unmatched_example :
    let w' = world_after (retry_transfer taking "release:t1" "root") to_retry in
    (w'.transfers
      ≡ record {
        amount = pos 5000;
        recipient = "RCP_ada";
        reference = "release:t1:r2";
        reason = "Meduman release t1";
      }
        ∷ [])
    × (route taking transfer_report w' ≡ (err (payout_not_found "release:t1:r2"), w'))
unfolding find_first count request decimal
retried_report_unmatched_example =
    retried_report_unmatched taking "release:t1" "root" "RCP_ada" "TRF_2" to_retry bounced
      transfer_report refl refl refl refl refl refl refl refl refl
