-- ===== src/Delivery/Deliver.antt =====
-- webhook-delivery.service.ts and outbound-event-relay.service.ts: one event is posted to its merchant, and events that
-- got lost are put on the queue again.
use meduman_backend.Prelude.{
  ltb, leb, if◌then◌else◌, length, take, ◌===◌, concat, decimal, ℕ, zero, suc, ◌+◌, ◌*◌, ◌/◌,
  String, Bool, true, false, not, ◌&&◌, Option, none, some, List, [], ◌∷◌,
}
use meduman_backend.Store.Enums.{OutboundEventStatus}
use meduman_backend.Store.Rows.{OutboundEvent}
use meduman_backend.Store.World.{webhook_delivery, WebhookPost, World, outbound_table}
use meduman_backend.Store.Action.{
  bad_request, plain, Result, ok, err, Action, pure, throw, gets, ◌>>=◌, ◌>>◌, enqueue, select,
  select_many, update, message, attempt,
}
use meduman_backend.Delivery.Address.{assert_public_url}
use meduman_backend.Delivery.Endpoints.{
  answered, unanswered, MerchantConfig, ResolvedEndpoint, build_signature_header,
  resolve_for_delivery,
}

abbrev pub has_outbound_id : String → OutboundEvent → Bool
has_outbound_id id e = e.id === id

abbrev pub is_delivered : OutboundEventStatus → Bool
is_delivered OutboundEventStatus.delivered = true
is_delivered _ = false

abbrev pub is_undelivered : OutboundEventStatus → Bool
is_undelivered OutboundEventStatus.pending = true
is_undelivered _ = false

abbrev pub mark_delivered : ℕ → OutboundEvent → OutboundEvent
mark_delivered now e = record e {
  status = OutboundEventStatus.delivered;
  delivered_at = some now;
  attempt_count = e.attempt_count + 1;
  last_error = none;
}

abbrev pub mark_failed_event : String → OutboundEvent → OutboundEvent
mark_failed_event message e = record e {
  status = OutboundEventStatus.failed;
  last_error = some message;
}

-- The row after an attempt that failed: dead where `dead` holds.
abbrev pub note_attempt : ℕ → String → Bool → OutboundEvent → OutboundEvent
note_attempt attempts message dead e = record e {
  attempt_count = attempts;
  last_error = some message;
  status = if dead then OutboundEventStatus.failed else e.status;
}

module _ (config : MerchantConfig) where
  abbrev pub request_of : OutboundEvent → ResolvedEndpoint → ℕ → WebhookPost
  request_of event endpoint now =
      let raw_body = config.event_json event in
      record {
        url = endpoint.url;
        event_id = event.id;
        signature = build_signature_header config endpoint.secret (now / 1000) raw_body;
        body = raw_body;
      }

  -- `fetch`: the request goes out, and the endpoint answers or does not.
  unfoldable pub fetch : WebhookPost → Action Bool
  fetch post w =
      let w' = record w { posted = post ∷ w.posted } in
      elim (config.answer w.posted post) [
        | answered res_ok status ↦
            if res_ok
            then (ok true, w')
            else (err (plain (concat ("HTTP " ∷ decimal status ∷ []))), w')
        | unanswered m ↦ (err (plain m), w')
      ]

  -- The `try` of `deliver`
  unfoldable pub post_event : String → OutboundEvent → ResolvedEndpoint → Action (Unit {0})
  unfolding fetch
  post_event event_id event endpoint = do
    assert_public_url config.urls endpoint.url (not endpoint.livemode)
    now ← gets (λ w. w.now)
    fetch (request_of event endpoint now)
    update outbound_table (has_outbound_id event_id) (mark_delivered now)
    pure tt

  -- The `catch` of `deliver`
  unfoldable pub settle_attempt : String → OutboundEvent → Result (Unit {0}) → Action (Unit {0})
  settle_attempt event_id event (ok _) = pure tt
  settle_attempt event_id event (err (bad_request m)) = do
    update outbound_table (has_outbound_id event_id) (note_attempt (event.attempt_count + 1) m true)
    pure tt
  settle_attempt event_id event (err e) =
      let exhausted = leb config.max_attempts (event.attempt_count + 1) in
      (do
        update outbound_table (has_outbound_id event_id)
            (note_attempt (event.attempt_count + 1) (message e) exhausted)
        if exhausted then pure tt else throw e)

  abbrev pub to_endpoint : String → OutboundEvent → Option ResolvedEndpoint → Action (Unit {0})
  to_endpoint event_id event none = do
    update outbound_table (has_outbound_id event_id) (mark_failed_event "no active endpoint")
    pure tt
  to_endpoint event_id event (some endpoint) = do
    outcome ← attempt (post_event event_id event endpoint)
    settle_attempt event_id event outcome

  abbrev pub deliver_found : String → Option OutboundEvent → Action (Unit {0})
  deliver_found event_id none = pure tt
  deliver_found event_id (some event) = if is_delivered event.status then pure tt else (do
    endpoint ← resolve_for_delivery config event.merchant_id
    to_endpoint event_id event endpoint)

  -- `deliver`
  unfoldable pub deliver : String → Action (Unit {0})
  deliver event_id = do
    event ← select outbound_table (has_outbound_id event_id)
    deliver_found event_id event

  abbrev pub next_run : (World → Option World) → Result (Unit {0}) × World → Option World
  next_run again (ok _, w) = some w
  next_run again (err _, w) = again w

  -- The worker runs a job again while it throws; `none` where the runs are used up.
  unfoldable pub run_job : ℕ → String → World → Option World
  run_job zero event_id w = none
  run_job (suc runs) event_id w = next_run (run_job runs event_id) (deliver event_id w)

-- The events that the relay takes: 500 at most, PENDING and older than the grace window.
abbrev pub is_stranded : ℕ → ℕ → OutboundEvent → Bool
is_stranded now grace_seconds e =
    is_undelivered e.status && ltb (e.created_at + grace_seconds * 1000) now

abbrev enqueue_all : List OutboundEvent → Action (Unit {0})
enqueue_all [] = pure tt
enqueue_all (e ∷ es) = do enqueue (webhook_delivery e.id); enqueue_all es

-- `redispatchPending`
unfoldable pub redispatch_pending : ℕ → Action ℕ
redispatch_pending grace_seconds = do
  now ← gets (λ w. w.now)
  rows ← select_many outbound_table (is_stranded now grace_seconds)
  enqueue_all (take 500 rows)
  pure (length (take 500 rows))
