-- ===== src/Delivery/Endpoints.antt =====
-- webhook-endpoints.service.ts and webhook-signing.ts: where a merchant's events go, and how they are signed.
use meduman_backend.Prelude.{
  if◌then◌else◌, ◌===◌, concat, decimal, ℕ, String, Bool, true, false, not, Option, none, some,
  List, [], ◌∷◌,
}
use meduman_backend.Store.Rows.{OutboundEvent}
use meduman_backend.Store.MerchantRows.{WebhookEndpointStatus, WebhookEndpoint}
use meduman_backend.Store.World.{WebhookPost, endpoint_table}
use meduman_backend.Store.Action.{
  not_found, plain, Action, pure, throw, gets, or_throw, ◌>>=◌, ◌>>◌, draw, select, insert,
  update_rows, update,
}
use meduman_backend.Delivery.Address.{UrlParser, assert_public_url}

-- What is not under src/, or is configured: the parser of URLs, the AES cipher of node:crypto under the configured
-- key, which refuses a text that it has not written, its random secrets by call, its keyed hash as a hex text,
-- `JSON.stringify` of an event's id, type and payload, the answer of an endpoint to a request after those sent before,
-- and WEBHOOK_MAX_ATTEMPTS.
pub data PostReply : Type 0 where
  answered : (res_ok : Bool) (status : ℕ) → PostReply
  unanswered : (message : String) → PostReply

pub record MerchantConfig : Type 0 where
  pub urls : UrlParser
  pub encrypt : String → String
  pub decrypt : String → Option String
  pub fresh_secret : ℕ → String
  pub hmac : (secret message : String) → String
  pub event_json : OutboundEvent → String
  pub answer : List WebhookPost → WebhookPost → PostReply
  pub max_attempts : ℕ

pub record ResolvedEndpoint : Type 0 where
  pub url : String
  pub secret : String
  pub livemode : Bool

abbrev pub endpoint_of : String → WebhookEndpoint → Bool
endpoint_of merchant_id e = e.merchant_id === merchant_id

abbrev pub is_active_endpoint : WebhookEndpointStatus → Bool
is_active_endpoint WebhookEndpointStatus.active = true
is_active_endpoint WebhookEndpointStatus.disabled = false

module _ (config : MerchantConfig) where
  -- `signPayload`
  unfoldable pub sign_payload : String → ℕ → String → String
  sign_payload secret timestamp_seconds raw_body =
      config.hmac secret (concat (decimal timestamp_seconds ∷ "." ∷ raw_body ∷ []))

  -- `buildSignatureHeader`
  unfoldable pub build_signature_header : String → ℕ → String → String
  unfolding sign_payload
  build_signature_header secret timestamp_seconds raw_body = concat (
      "t="
      ∷ decimal timestamp_seconds
      ∷ ",v1="
      ∷ sign_payload secret timestamp_seconds raw_body
      ∷ [])

  abbrev pub new_endpoint : String → String → String → Bool → String → WebhookEndpoint
  new_endpoint id merchant_id url livemode secret = record {
    id = id;
    merchant_id = merchant_id;
    url = url;
    secret_enc = config.encrypt secret;
    livemode = livemode;
    status = WebhookEndpointStatus.active;
  }

  abbrev reset_endpoint : String → Bool → String → WebhookEndpoint → WebhookEndpoint
  reset_endpoint url livemode secret e = record e {
    url = url;
    secret_enc = config.encrypt secret;
    livemode = livemode;
    status = WebhookEndpointStatus.active;
  }

  abbrev upsert_endpoint :
      String → Bool → String → String → Option WebhookEndpoint → Action WebhookEndpoint
  upsert_endpoint merchant_id livemode url secret none = do
    id ← draw
    insert endpoint_table (new_endpoint id merchant_id url livemode secret)
  upsert_endpoint merchant_id livemode url secret (some e) =
      update endpoint_table (endpoint_of merchant_id) (reset_endpoint url livemode secret)

  -- `setEndpoint`: the endpoint and its secret in plain text
  unfoldable pub set_endpoint : String → Bool → String → Action (WebhookEndpoint × String)
  set_endpoint merchant_id livemode url = do
    assert_public_url config.urls url (not livemode)
    call ← gets (λ w. w.drawn)
    let secret = config.fresh_secret call
    existing ← select endpoint_table (endpoint_of merchant_id)
    row ← upsert_endpoint merchant_id livemode url secret existing
    pure (row, secret)

  -- `rotateSecret`
  unfoldable pub rotate_secret : String → Action String
  rotate_secret merchant_id = do
    existing ← select endpoint_table (endpoint_of merchant_id)
    or_throw existing (not_found "No webhook endpoint configured")
    call ← gets (λ w. w.drawn)
    let secret = config.fresh_secret call
    update endpoint_table (endpoint_of merchant_id)
        (λ e. record e { secret_enc = config.encrypt secret })
    pure secret

  -- `disable`
  unfoldable pub disable_endpoint : String → Action (Unit {0})
  disable_endpoint merchant_id = do
    update_rows endpoint_table (endpoint_of merchant_id)
        (λ e. record e { status = WebhookEndpointStatus.disabled })
    pure tt

  abbrev decrypted : WebhookEndpoint → Option String → Action (Option ResolvedEndpoint)
  decrypted e none = throw (plain "Unsupported state or unable to authenticate data")
  decrypted e (some secret) =
      pure (some (record { url = e.url; secret = secret; livemode = e.livemode }))

  abbrev resolve_from : Option WebhookEndpoint → Action (Option ResolvedEndpoint)
  resolve_from none = pure none
  resolve_from (some e) =
      if is_active_endpoint e.status then decrypted e (config.decrypt e.secret_enc) else pure none

  -- `resolveForDelivery`
  unfoldable pub resolve_for_delivery : String → Action (Option ResolvedEndpoint)
  resolve_for_delivery merchant_id = do
    row ← select endpoint_table (endpoint_of merchant_id)
    resolve_from row
