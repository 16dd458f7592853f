-- ===== src/Delivery/Due.antt =====
-- webhook-delivery.service.ts: events that are due, and what an attempt may come to.
use meduman_backend.Prelude.{
  length, concat, decimal, ℕ, ◌+◌, ◌≤◌, ◌<◌, String, ◌≡◌, refl, ◌⊎◌, inl, inr, Bool, true, false,
  none, some, [], ◌∷◌,
}
use meduman_backend.Store.Rows.{OutboundEvent}
use meduman_backend.Store.MerchantRows.{WebhookEndpoint}
use meduman_backend.Store.World.{WebhookPost, World}
use meduman_backend.Store.Table.{find_first}
use meduman_backend.Store.Action.{Error, bad_request, plain, ok, err, world_after, result_of}
use meduman_backend.Delivery.Address.{UrlParser, url_refusal, assert_public_url}
use meduman_backend.Delivery.Endpoints.{
  PostReply, answered, unanswered, MerchantConfig, endpoint_of, is_active_endpoint,
}
use meduman_backend.Delivery.Deliver.{has_outbound_id, is_delivered, is_undelivered, fetch, deliver}

module _ (urls : UrlParser) (raw_url : String) (allow_http : Bool) (w : World) where
  pub assert_passes :
      url_refusal urls raw_url allow_http ≡ none
      → assert_public_url urls raw_url allow_http w ≡ (ok tt, w)
  assert_passes h = rw (h, assert_public_url) refl

  pub assert_refuses :
      {m : String}
      → url_refusal urls raw_url allow_http ≡ some m
      → assert_public_url urls raw_url allow_http w ≡ (err (bad_request m), w)
  assert_refuses h = rw (h, assert_public_url) refl

module _ (config : MerchantConfig) where
  pub fetch_lem :
      (post : WebhookPost) (w : World)
      → (fetch config post w ≡ (ok true, record w { posted = post ∷ w.posted }))
        ⊎ ((m : String) × (fetch config post w
              ≡ (err (plain m), record w { posted = post ∷ w.posted })))
  unfolding fetch
  fetch_lem post w = go (config.answer w.posted post) refl
    where
      go :
          (a : PostReply)
          → config.answer w.posted post ≡ a
          → (fetch config post w ≡ (ok true, record w { posted = post ∷ w.posted }))
            ⊎ ((m : String) × (fetch config post w
                  ≡ (err (plain m), record w { posted = post ∷ w.posted })))
      go (answered true status) e = inl (rw (e, fetch) refl)
      go (answered false status) e =
          inr (concat ("HTTP " ∷ decimal status ∷ []), rw (e, fetch) refl)
      go (unanswered m) e = inr (m, rw (e, fetch) refl)

module _ (config : MerchantConfig) (id : String) where
  -- The event, and the active endpoint of its merchant with a secret that can be read.
  pub record IsDue (event : OutboundEvent) (w : World) : Type 0 where
    pub endpoint : WebhookEndpoint
    pub secret : String
    pub found : find_first (has_outbound_id id) w.outbound ≡ some event
    pub waiting : is_delivered event.status ≡ false
    pub placed : find_first (endpoint_of event.merchant_id) w.endpoints ≡ some endpoint
    pub live : is_active_endpoint endpoint.status ≡ true
    pub readable : config.decrypt endpoint.secret_enc ≡ some secret

  -- The event is DELIVERED or FAILED, after this number of attempts at most and so many requests more.
  pub record IsSettled (attempts posts : ℕ) (w w' : World) : Type 0 where
    pub event : OutboundEvent
    pub found : find_first (has_outbound_id id) w'.outbound ≡ some event
    pub settled : is_undelivered event.status ≡ false
    pub attempts_le : event.attempt_count ≤ attempts
    pub posts_le : length w'.posted ≤ length w.posted + posts

  -- An attempt that threw: the event waits with one attempt more, below the limit.
  pub record IsPutOff (event : OutboundEvent) (w w' : World) : Type 0 where
    pub next_event : OutboundEvent
    pub error : Error
    pub threw : deliver config id w ≡ (err error, w')
    pub due : IsDue next_event w'
    pub counted : next_event.attempt_count ≡ event.attempt_count + 1
    pub below : event.attempt_count + 1 < config.max_attempts
    pub posts_le : length w'.posted ≤ length w.posted + 1

  pub data Attempt (event : OutboundEvent) (w : World) : Type 0 where
    settles :
        result_of (deliver config id) w ≡ ok tt
        → IsSettled (event.attempt_count + 1) 1 w (world_after (deliver config id) w)
        → Attempt event w
    puts_off : (w' : World) → IsPutOff event w w' → Attempt event w
