-- ===== src/Delivery/Laws.antt =====
-- webhook-delivery.service.ts and webhook-ssrf.ts: where the requests of a delivery go.
use meduman_backend.Prelude.{
  Option-cases, All, String, ◌≡◌, sym, subst, inl, inr, Bool, not, Option, none, some, arith,
}
use meduman_backend.Store.Rows.{OutboundEvent}
use meduman_backend.Store.World.{WebhookPost, World, outbound_table}
use meduman_backend.Store.Action.{
  Result, pure, gets, ◌>>=◌, ◌>>◌, select, update, attempt, world_after, bind_ok, bind_err,
}
use meduman_backend.Store.Keeps.{
  Keeps, Keeps-pure, Keeps-gets, Keeps-if, Keeps-attempt, Keeps-select, Keeps-bind,
}
use meduman_backend.Delivery.Address.{url_refusal, assert_public_url}
use meduman_backend.Delivery.Endpoints.{MerchantConfig, ResolvedEndpoint, resolve_for_delivery}
use meduman_backend.Delivery.Deliver.{
  has_outbound_id, mark_delivered, request_of, fetch, post_event, settle_attempt, to_endpoint,
  deliver_found, deliver,
}
use meduman_backend.Delivery.Due.{assert_passes, assert_refuses, fetch_lem}

-- The checks of webhook-ssrf.ts let the URL of this request through, with http or without.
abbrev pub IsPublicPost : MerchantConfig → WebhookPost → Type 0
IsPublicPost config post =
    (allow_http : Bool) × (url_refusal config.urls post.url allow_http ≡ none)

-- Every request that was sent went to such a URL.
abbrev pub PostsArePublic : MerchantConfig → World → Type 0
PostsArePublic config w = All (IsPublicPost config) w.posted

module _ (config : MerchantConfig) where
  update-Keeps :
      (p : OutboundEvent → Bool) (f : OutboundEvent → OutboundEvent)
      → Keeps (PostsArePublic config) (update outbound_table p f)
  update-Keeps p f = record { at = λ w h. ground (arith, h) }

  fetch_public :
      (post : WebhookPost) (w : World)
      → IsPublicPost config post
      → PostsArePublic config w
      → PostsArePublic config (world_after (fetch config post) w)
  fetch_public post w public h = elim (fetch_lem config post w) [
    | inl well ↦
        subst (λ (p : Result Bool × World). PostsArePublic config p.1) (sym well) (public, h)
    | inr (m, badly) ↦
        subst (λ (p : Result Bool × World). PostsArePublic config p.1) (sym badly) (public, h)
  ]

  -- After the address check
  fetched-Keeps :
      (id : String) (event : OutboundEvent) (ep : ResolvedEndpoint)
      → url_refusal config.urls ep.url (not ep.livemode) ≡ none
      → Keeps (PostsArePublic config) (do
        now ← gets (λ w. w.now)
        fetch config (request_of config event ep now)
        update outbound_table (has_outbound_id id) (mark_delivered now)
        pure tt)
  fetched-Keeps id event ep public =
      Keeps-bind (gets (λ w. w.now)) _ (Keeps-gets (λ w. w.now)) (λ now.
        Keeps-bind (fetch config (request_of config event ep now)) _
          (record { at = λ w h. fetch_public _ w (not ep.livemode, public) h })
          (λ _.
            Keeps-bind (update outbound_table (has_outbound_id id) (mark_delivered now)) _
              (update-Keeps _ _) (λ _. Keeps-pure tt)))

  post_event-Keeps :
      (id : String) (event : OutboundEvent) (ep : ResolvedEndpoint)
      → Keeps (PostsArePublic config) (post_event config id event ep)
  unfolding post_event
  post_event-Keeps id event ep = record { at = λ w h. kept w h }
    where
      kept :
          (w : World)
          → PostsArePublic config w
          → PostsArePublic config (world_after (post_event config id event ep) w)
      kept w h = elim (Option-cases (url_refusal config.urls ep.url (not ep.livemode))) [
        | inl public ↦
            subst (λ (p : Result (Unit {0}) × World). PostsArePublic config p.1)
              (sym (
                bind_ok (assert_public_url config.urls ep.url (not ep.livemode)) _
                  (assert_passes config.urls ep.url (not ep.livemode) w public)))
              ((fetched-Keeps id event ep public).at w h)
        | inr (m, private) ↦
            subst (λ (p : Result (Unit {0}) × World). PostsArePublic config p.1)
              (sym (
                bind_err (assert_public_url config.urls ep.url (not ep.livemode)) _
                  (assert_refuses config.urls ep.url (not ep.livemode) w private)))
              h
      ]

  settle_attempt-posted :
      (id : String) (event : OutboundEvent) (r : Result (Unit {0})) (w : World)
      → (world_after (settle_attempt config id event r) w).posted ≡ w.posted
  unfolding settle_attempt
  settle_attempt-posted id event r w = ground arith

  resolve-world :
      (merchant_id : String) (w : World)
      → world_after (resolve_for_delivery config merchant_id) w ≡ w
  unfolding resolve_for_delivery
  resolve-world merchant_id w = ground arith

  to_endpoint-Keeps :
      (id : String) (event : OutboundEvent) (o : Option ResolvedEndpoint)
      → Keeps (PostsArePublic config) (to_endpoint config id event o)
  to_endpoint-Keeps id event none =
      Keeps-bind (update outbound_table _ _) _ (update-Keeps _ _) (λ _. Keeps-pure tt)
  to_endpoint-Keeps id event (some ep) =
      Keeps-bind (attempt (post_event config id event ep)) (settle_attempt config id event)
        (Keeps-attempt _ (post_event-Keeps id event ep))
        (λ r. record {
          at =
              λ w h. subst (All (IsPublicPost config)) (sym (settle_attempt-posted id event r w)) h;
        })

  -- Where every request so far went to a URL that passes the address check, that stays so when an event is
  -- delivered, however the endpoint answers and whatever the endpoint's row holds by then.
  pub deliver-PostsArePublic :
      (id : String) (w : World)
      → PostsArePublic config w
      → PostsArePublic config (world_after (deliver config id) w)
  unfolding deliver
  deliver-PostsArePublic id w h =
      (Keeps-bind (select outbound_table (has_outbound_id id)) _ (Keeps-select outbound_table _)
          found).at
        w h
    where
      found : (o : Option OutboundEvent) → Keeps (PostsArePublic config) (deliver_found config id o)
      found none = Keeps-pure tt
      found (some event) = Keeps-if _ _ _ (Keeps-pure tt) (
          Keeps-bind (resolve_for_delivery config event.merchant_id) _
            (record {
              at = λ v k. subst (PostsArePublic config) (sym (resolve-world event.merchant_id v)) k;
            })
            (to_endpoint-Keeps id event))
