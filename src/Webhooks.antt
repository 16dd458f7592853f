-- ===== src/Webhooks.antt =====
-- modules/webhooks/webhooks.service.ts: Paystack's signed events, each processed once at most.
pub mod Frame
pub mod Laws
pub mod Retried
mod Examples
use meduman_backend.Prelude.{
  ltb, if◌then◌else◌, or_else, or_option, ◌===◌, concat, ℕ, ◌+◌, ◌*◌, String, Bool, true, false,
  not, Option, none, some, [], ◌∷◌,
}
use meduman_backend.Store.Rows.{WebhookEvent}
use meduman_backend.Store.World.{webhook_table}
use meduman_backend.Store.Action.{
  unauthorized, plain, unique, Result, ok, err, Action, pure, throw, gets, or_throw, ◌>>=◌, ◌>>◌,
  throw_if, draw, insert_unique, update, message, attempt, truthy,
}
use meduman_backend.Machine.{event_type}
use meduman_backend.Paystack.{Provider}
use meduman_backend.Payouts.Settle.{
  mark_paid, Failure, failed_transfer, reversed_transfer, mark_failed,
}
use meduman_backend.Payments.{by_webhook, handle_charge_success}
use meduman_backend.Payments.Collect.{attach_dedicated_account}

-- The fields of `PaystackWebhookPayload` that are read; the `data` that is missing is a payload without them, and
-- an `id` that is a number is its numeral.
pub record PaystackWebhookPayload : Type 0 where
  pub event : String
  pub id : Option String
  pub reference : Option String
  pub transfer_code : Option String
  pub status : Option String
  pub reason : Option String
  pub customer_code : Option String
  pub account_id : Option String
  pub account_number : Option String
  pub bank_name : Option String
  pub paid_at : Option String
  pub created_at : Option String
  pub created_at_camel : Option String

-- What is answered with status 200.
pub data WebhookResult : Type 0 where
  stale_event duplicate_event : WebhookResult
  handled_event : (handled : Bool) → WebhookResult

-- The code that is not under src/: the HMAC check of node:crypto, `JSON.parse` (`none` where it throws), and
-- `Date.parse` in milliseconds (`none` for NaN).
pub record Platform : Type 0 where
  pub signature_valid : (raw_body signature : String) → Bool
  pub parse_body : String → Option PaystackWebhookPayload
  pub parse_date : String → Option ℕ

-- `${payload.event}:${data.id ?? data.reference ?? 'unknown'}`
unfoldable pub provider_event_id : PaystackWebhookPayload → String
provider_event_id payload =
    concat (payload.event ∷ ":" ∷ or_else payload.id (or_else payload.reference "unknown") ∷ [])

abbrev pub has_event_id : String → WebhookEvent → Bool
has_event_id event_id e = e.provider_event_id === event_id

abbrev pub has_row_id : String → WebhookEvent → Bool
has_row_id id e = e.id === id

abbrev pub new_event : PaystackWebhookPayload → String → WebhookEvent
new_event payload id = record {
  id = id;
  provider_event_id = provider_event_id payload;
  event_type = payload.event;
  processed_at = none;
  processing_result = none;
}

-- The `create` under the unique `providerEventId`.
unfoldable pub record_event : PaystackWebhookPayload → Action WebhookEvent
record_event payload = do
  id ← draw
  insert_unique webhook_table (has_event_id (provider_event_id payload)) (new_event payload id)

abbrev pub mark_processed : ℕ → String → WebhookEvent → WebhookEvent
mark_processed now processing_result e = record e {
  processed_at = some now;
  processing_result = some processing_result;
}

-- The kinds of event that `route` tells apart.
pub data EventKind : Type 0 where
  charge_success account_assigned transfer_success transfer_failed transfer_reversed other_event :
      EventKind

unfoldable pub kind_of : String → EventKind
kind_of event =
    if event === "charge.success"
    then charge_success
    else if event === "dedicatedaccount.assign.success"
    then account_assigned
    else if event === "transfer.success"
    then transfer_success
    else if event === "transfer.failed"
    then transfer_failed
    else if event === "transfer.reversed"
    then transfer_reversed
    else other_event

module _ (platform : Platform) (max_age_seconds : ℕ) where
  abbrev older : ℕ → Option ℕ → Bool
  older now none = false
  older now (some ts) = ltb (ts + max_age_seconds * 1000) now

  abbrev stale_stamp : ℕ → Option String → Bool
  stale_stamp now none = false
  stale_stamp now (some stamp) = older now (platform.parse_date stamp)

  -- `isStale`
  unfoldable pub is_stale : ℕ → PaystackWebhookPayload → Bool
  is_stale now payload =
      stale_stamp now
        (truthy (or_option payload.paid_at (or_option payload.created_at payload.created_at_camel)))

module _ (provider : Provider) where
  abbrev pub route_charge : PaystackWebhookPayload → Option String → Action Bool
  route_charge payload none = pure false
  route_charge payload (some reference) =
      handle_charge_success provider reference (truthy payload.customer_code) by_webhook

abbrev pub route_account : PaystackWebhookPayload → Option String → Option String → Action Bool
route_account payload (some customer_code) (some account_number) = do
  attach_dedicated_account customer_code account_number (or_else payload.bank_name "bank")
      payload.account_id
  pure true
route_account payload _ _ = pure false

abbrev pub route_paid : Option String → Option String → Action Bool
route_paid (some reference) (some transfer_code) = do mark_paid reference transfer_code; pure true
route_paid _ _ = pure false

abbrev pub failure_reason : PaystackWebhookPayload → String
failure_reason payload =
    or_else payload.reason
      (or_else payload.status (concat ("Paystack reported " ∷ payload.event ∷ [])))

abbrev pub route_failed : Failure → PaystackWebhookPayload → Option String → Action Bool
route_failed status payload none = pure false
route_failed status payload (some reference) = do
  mark_failed reference status (failure_reason payload)
  pure true

-- The update of the row after `route`, and the error on where there was one.
abbrev pub note_outcome : String → Result Bool → Action WebhookResult
note_outcome id (ok handled) = do
  now ← gets (λ w. w.now)
  update webhook_table (has_row_id id) (mark_processed now (if handled then "ok" else "unhandled"))
  pure (handled_event handled)
note_outcome id (err e) = do
  now ← gets (λ w. w.now)
  update webhook_table (has_row_id id) (mark_processed now (concat ("error: " ∷ message e ∷ [])))
  throw e

module _ (provider : Provider) where
  abbrev pub route_kind : EventKind → PaystackWebhookPayload → Action Bool
  route_kind charge_success payload = route_charge provider payload (truthy payload.reference)
  route_kind account_assigned payload =
      route_account payload (truthy payload.customer_code) (truthy payload.account_number)
  route_kind transfer_success payload =
      route_paid (truthy payload.reference) (truthy payload.transfer_code)
  route_kind transfer_failed payload =
      route_failed failed_transfer payload (truthy payload.reference)
  route_kind transfer_reversed payload =
      route_failed reversed_transfer payload (truthy payload.reference)
  route_kind other_event payload = pure false

  -- `route`
  unfoldable pub route : PaystackWebhookPayload → Action Bool
  route payload = route_kind (kind_of payload.event) payload

  -- What `handlePaystackEvent` does once the event is recorded, or is known.
  abbrev pub process : PaystackWebhookPayload → Result WebhookEvent → Action WebhookResult
  process payload (ok row) = do outcome ← attempt (route payload); note_outcome row.id outcome
  process payload (err (unique m)) = pure duplicate_event
  process payload (err e) = throw e

  unfoldable pub handle_fresh : PaystackWebhookPayload → Action WebhookResult
  handle_fresh payload = do recorded ← attempt (record_event payload); process payload recorded

module _ (platform : Platform) (max_age_seconds : ℕ) (provider : Provider) where
  -- `handlePaystackEvent`
  unfoldable pub handle_paystack_event : String → String → Action WebhookResult
  handle_paystack_event raw_body signature = do
    throw_if (not (platform.signature_valid raw_body signature))
        (unauthorized "Invalid webhook signature")
    payload ← or_throw (platform.parse_body raw_body) (plain "SyntaxError")
    now ← gets (λ w. w.now)
    if is_stale platform max_age_seconds now payload
        then pure stale_event
        else handle_fresh provider payload
