-- ===== src/Delivery/Examples.antt =====
-- Deliveries of one event to an endpoint that is down twice, and addresses that are refused.
use meduman_backend.Prelude.{
  ltb, if◌then◌else◌, length, ℕ, ◌≡◌, refl, inl, inr, true, none, some, List, [], ◌∷◌, arith,
}
use meduman_backend.Prelude.Int.{pos}
use meduman_backend.Store.Enums.{payment_protected, OutboundEventStatus}
use meduman_backend.Store.Rows.{OutboundEvent}
use meduman_backend.Store.MerchantRows.{WebhookEndpointStatus, WebhookEndpoint}
use meduman_backend.Store.World.{WebhookPost, World}
use meduman_backend.Store.Table.{find_first}
use meduman_backend.Store.Action.{world_after}
use meduman_backend.Store.Sample.{empty_world}
use meduman_backend.Delivery.Address.{UrlParser, is_private_v6}
use meduman_backend.Delivery.Endpoints.{PostReply, answered, unanswered, MerchantConfig}
use meduman_backend.Delivery.Deliver.{deliver, run_job}
use meduman_backend.Delivery.Due.{IsDue, IsSettled}
use meduman_backend.Delivery.Retries.{delivery_ends}
use meduman_backend.Delivery.Laws.{PostsArePublic, deliver-PostsArePublic}
use meduman_backend.Delivery.Mapped.{mapped_text, mapped_address_refused}

-- "shop.io"
abbrev shop_host : List ℕ
shop_host = b's' ∷ b'h' ∷ b'o' ∷ b'p' ∷ b'.' ∷ b'i' ∷ b'o' ∷ []

-- Every text is a URL of that host, and no host is an address.
abbrev any_url : UrlParser
any_url = record {
  parse = λ t. some (record { protocol = "https:"; hostname = shop_host });
  family = λ host. 0;
}

-- The first two requests time out, the third is taken.
abbrev shaky : List WebhookPost → WebhookPost → PostReply
shaky earlier post = if ltb (length earlier) 2 then unanswered "timeout" else answered true 200

abbrev shop_config : MerchantConfig
shop_config = record {
  urls = any_url;
  encrypt = λ t. t;
  decrypt = λ t. some t;
  fresh_secret = λ n. "secret";
  hmac = λ k t. "digest";
  event_json = λ e. "{}";
  answer = shaky;
  max_attempts = 5;
}

abbrev shop_endpoint : WebhookEndpoint
shop_endpoint = record {
  id = "w1";
  merchant_id = "m1";
  url = "https://shop.io/hook";
  secret_enc = "secret";
  livemode = true;
  status = WebhookEndpointStatus.active;
}

abbrev new_event : OutboundEvent
new_event = record {
  id = "o1";
  merchant_id = "m1";
  type = "transaction.protected";
  transaction_id = "t1";
  payload_status = payment_protected;
  payload_amount = pos 5000;
  payload_currency = "NGN";
  payload_title = "shoes";
  status = OutboundEventStatus.pending;
  attempt_count = 0;
  last_error = none;
  delivered_at = none;
  created_at = 0;
}

abbrev shop_world : World
shop_world = record empty_world { outbound = new_event ∷ []; endpoints = shop_endpoint ∷ [] }

new_event-IsDue : IsDue shop_config "o1" new_event shop_world
unfolding find_first
new_event-IsDue = record {
  endpoint = shop_endpoint;
  secret = "secret";
  found = refl;
  waiting = refl;
  placed = refl;
  live = refl;
  readable = refl;
}

delivery_ends_example :
    (w' : World) × (run_job shop_config 5 "o1" shop_world ≡ some w')
    × IsSettled shop_config "o1" 5 5 shop_world w'
delivery_ends_example =
    delivery_ends shop_config "o1" 5 new_event shop_world new_event-IsDue (omega arith)
      (omega arith)

deliver-PostsArePublic_example :
    PostsArePublic shop_config (world_after (deliver shop_config "o1") shop_world)
deliver-PostsArePublic_example = deliver-PostsArePublic shop_config "o1" shop_world tt

-- `::ffff:7f00:1` is 127.0.0.1.
mapped_address_refused_example : is_private_v6 (mapped_text (7 ∷ 15 ∷ 0 ∷ 0 ∷ []) (1 ∷ [])) ≡ true
mapped_address_refused_example =
    mapped_address_refused 7 1 (15 ∷ 0 ∷ 0 ∷ []) [] (omega arith) (omega arith) (omega arith)
      (omega arith) (inr (inr (inl refl)))
