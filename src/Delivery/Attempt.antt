-- ===== src/Delivery/Attempt.antt =====
-- webhook-delivery.service.ts: one attempt to deliver an event that is due.
use meduman_backend.Prelude.{
  leb, if◌then◌else◌, Bool-cases, Option-cases, length, ◌===◌, ◌+◌, ◌≤◌, String, ◌≡◌, refl, sym, ap,
  ◌∙◌, subst, inl, inr, Bool, true, false, not, Option, none, some, List, ◌∷◌, arith,
}
use meduman_backend.Store.Rows.{OutboundEvent}
use meduman_backend.Store.World.{WebhookPost, World, outbound_table}
use meduman_backend.Store.Table.{find_first, update_many, find_first-where, find_first-update_many}
use meduman_backend.Store.Action.{
  bad_request, plain, Result, ok, err, update, message, bind_ok, bind_err,
}
use meduman_backend.AutoRelease.{counted}
use meduman_backend.Delivery.Address.{url_refusal, assert_public_url}
use meduman_backend.Delivery.Endpoints.{MerchantConfig, ResolvedEndpoint, resolve_for_delivery}
use meduman_backend.Delivery.Deliver.{
  has_outbound_id, is_undelivered, mark_delivered, note_attempt, request_of, fetch, post_event,
  settle_attempt, deliver,
}
use meduman_backend.Delivery.Due.{
  assert_passes, assert_refuses, fetch_lem, IsDue, IsSettled, Attempt, settles, puts_off,
}

module _ (config : MerchantConfig) (id : String) where
  module _ (event : OutboundEvent) (ep : ResolvedEndpoint) (w : World)
      (found : find_first (has_outbound_id id) w.outbound ≡ some event) where
    abbrev after : List WebhookPost → (OutboundEvent → OutboundEvent) → World
    after posted f = record w {
      posted = posted;
      outbound = update_many (has_outbound_id id) f w.outbound;
    }

    -- The row after an update of the event, which is the one found.
    updated :
        (f : OutboundEvent → OutboundEvent)
        → ((e : OutboundEvent) → (f e).id ≡ e.id)
        → find_first (has_outbound_id id) (update_many (has_outbound_id id) f w.outbound)
          ≡ some (f event)
    updated f keeps =
        find_first-update_many (has_outbound_id id) (has_outbound_id id) f w.outbound
          (λ e. ap (λ i. i === id) (keeps e))
        ∙ rw found (rw (find_first-where (has_outbound_id id) w.outbound found) refl)

    abbrev request : WebhookPost
    request = request_of config event ep w.now

    abbrev sent_world : World
    sent_world = record w { posted = request ∷ w.posted }

    update_event :
        (f : OutboundEvent → OutboundEvent) (posted : List WebhookPost)
        → update outbound_table (has_outbound_id id) f (record w { posted = posted })
          ≡ (ok (f event), after posted f)
    unfolding find_first update_many
    update_event f posted = rw found refl

    private_address :
        (m : String)
        → url_refusal config.urls ep.url (not ep.livemode) ≡ some m
        → post_event config id event ep w ≡ (err (bad_request m), w)
    unfolding post_event
    private_address m h =
        bind_err (assert_public_url config.urls ep.url (not ep.livemode)) _
          (assert_refuses config.urls ep.url (not ep.livemode) w h)

    answered_badly :
        (m : String)
        → url_refusal config.urls ep.url (not ep.livemode) ≡ none
        → fetch config request w ≡ (err (plain m), sent_world)
        → post_event config id event ep w ≡ (err (plain m), sent_world)
    unfolding post_event
    answered_badly m h k =
        bind_ok (assert_public_url config.urls ep.url (not ep.livemode)) _
          (assert_passes config.urls ep.url (not ep.livemode) w h)
        ∙ bind_err (fetch config request) _ k

    answered_well :
        url_refusal config.urls ep.url (not ep.livemode) ≡ none
        → fetch config request w ≡ (ok true, sent_world)
        → post_event config id event ep w
          ≡ (ok tt, after (request ∷ w.posted) (mark_delivered w.now))
    unfolding post_event
    answered_well h k =
        bind_ok (assert_public_url config.urls ep.url (not ep.livemode)) _
          (assert_passes config.urls ep.url (not ep.livemode) w h)
        ∙ bind_ok (fetch config request) _ k
        ∙ bind_ok (update outbound_table (has_outbound_id id) (mark_delivered w.now)) _
            (update_event (mark_delivered w.now) (request ∷ w.posted))

    settled_bad :
        (m : String)
        → settle_attempt config id event (err (bad_request m)) w
          ≡ (ok tt, after w.posted (note_attempt (event.attempt_count + 1) m true))
    unfolding settle_attempt
    settled_bad m =
        bind_ok
          (update outbound_table (has_outbound_id id)
            (note_attempt (event.attempt_count + 1) m true))
          _ (update_event (note_attempt (event.attempt_count + 1) m true) w.posted)

    settled_plain :
        (m : String) (exhausted : Bool)
        → leb config.max_attempts (event.attempt_count + 1) ≡ exhausted
        → settle_attempt config id event (err (plain m)) sent_world ≡ (
          if exhausted then ok tt else err (plain m),
          after (request ∷ w.posted) (note_attempt (event.attempt_count + 1) m exhausted),
        )
    unfolding settle_attempt message
    settled_plain m true h = rw h (
        bind_ok
          (update outbound_table (has_outbound_id id)
            (note_attempt (event.attempt_count + 1) m true))
          _ (update_event (note_attempt (event.attempt_count + 1) m true) (request ∷ w.posted)))
    settled_plain m false h = rw h (
        bind_ok
          (update outbound_table (has_outbound_id id)
            (note_attempt (event.attempt_count + 1) m false))
          _ (update_event (note_attempt (event.attempt_count + 1) m false) (request ∷ w.posted)))

  module _ (event : OutboundEvent) (w : World) (due : IsDue config id event w) where
    resolved : ResolvedEndpoint
    resolved = record {
      url = due.endpoint.url;
      secret = due.secret;
      livemode = due.endpoint.livemode;
    }

    -- The `try` and the `catch` of the attempt.
    attempted :
        (p : Result (Unit {0}) × World)
        → post_event config id event resolved w ≡ p
        → deliver config id w ≡ settle_attempt config id event p.0 p.1
    unfolding deliver resolve_for_delivery resolved find_first
    attempted p e = rw due.found (
        rw (due.waiting, due.placed)
          (rw (due.live, due.readable)
            (ap (λ (q : Result (Unit {0}) × World). settle_attempt config id event q.0 q.1) e)))

    ended :
        (posted : List WebhookPost) (f : OutboundEvent → OutboundEvent)
        → deliver config id w ≡ (ok tt, after event resolved w due.found posted f)
        → ((e : OutboundEvent) → (f e).id ≡ e.id)
        → is_undelivered (f event).status ≡ false
        → (f event).attempt_count ≡ event.attempt_count + 1
        → length posted ≤ length w.posted + 1
        → Attempt config id event w
    ended posted f e keeps over counted le =
        settles (ap (λ (p : Result (Unit {0}) × World). p.0) e) (
          subst
            (λ (p : Result (Unit {0}) × World).
              IsSettled config id (event.attempt_count + 1) 1 w p.1)
            (sym e)
            (record {
              event = f event;
              found = updated event resolved w due.found f keeps;
              settled = over;
              attempts_le = omega (arith, counted);
              posts_le = le;
            }))

    pub attempt_lem : Attempt config id event w
    unfolding settle_attempt
    attempt_lem = elim (Option-cases refusal) [
      | inr (m, private) ↦
          ended w.posted (note_attempt (event.attempt_count + 1) m true)
            (attempted _ (private_address event resolved w due.found m private)
              ∙ settled_bad event resolved w due.found m)
            (λ e. refl) refl refl (omega arith)
      | inl public ↦ elim (fetch_lem config (request event resolved w due.found) w) [
        | inl well ↦
            ended _ (mark_delivered w.now)
              (attempted _ (answered_well event resolved w due.found public well)) (λ e. refl) refl
              refl (omega arith)
        | inr (m, badly) ↦
            after_bad m (attempted _ (answered_badly event resolved w due.found m public badly))
      ]
    ]
      where
        refusal : Option String
        refusal = url_refusal config.urls resolved.url (not resolved.livemode)

        after_bad :
            (m : String)
            → deliver config id w
              ≡ settle_attempt config id event
                  (err (plain m))
                  (sent_world event resolved w due.found)
            → Attempt config id event w
        after_bad m e = elim (Bool-cases (leb config.max_attempts (event.attempt_count + 1))) [
          | inl dead ↦
              ended _ (note_attempt (event.attempt_count + 1) m true)
                (e ∙ settled_plain event resolved w due.found m true dead) (λ a. refl) refl refl
                (omega arith)
          | inr alive ↦ puts_off _ (record {
            next_event = note_attempt (event.attempt_count + 1) m false event;
            error = plain m;
            threw = e ∙ settled_plain event resolved w due.found m false alive;
            due = record {
              endpoint = due.endpoint;
              secret = due.secret;
              found =
                  updated event resolved w due.found
                    (note_attempt (event.attempt_count + 1) m false) (λ a. refl);
              waiting = due.waiting;
              placed = due.placed;
              live = due.live;
              readable = due.readable;
            };
            counted = refl;
            below = ground arith;
            posts_le = omega arith;
          })
        ]
