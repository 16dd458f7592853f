-- ===== src/Webhooks/Laws.antt =====
-- webhooks.service.ts: an event is processed once, whatever became of it, and an unsigned or stale one never.
use mathlib.Core.Option
use meduman_backend.Prelude.{
  if◌then◌else◌, Option-cases, concat, ℕ, ◌+◌, String, ◌≡◌, refl, sym, ap, ◌∙◌, subst, ◌≢◌, ◌⊎◌,
  inl, inr, Bool, true, false, some, [], ◌∷◌, arith, eq_refl,
}
use meduman_backend.Store.Rows.{WebhookEvent}
use meduman_backend.Store.World.{World, webhook_table}
use meduman_backend.Store.Table.{find_first, find_first-update_many}
use meduman_backend.Store.Action.{Result, ok, err, gets, update, message, world_after, result_of}
use meduman_backend.Store.Keeps.{Keeps, Keeps-pure, Keeps-throw, Keeps-gets, Keeps-bind, Keeps-seq}
use meduman_backend.Paystack.{Provider}
use meduman_backend.Webhooks.{
  PaystackWebhookPayload, WebhookResult, duplicate_event, handled_event, Platform,
  provider_event_id, has_event_id, has_row_id, new_event, record_event, mark_processed, is_stale,
  note_outcome, route, process, handle_fresh, handle_paystack_event,
}
use meduman_backend.Webhooks.Frame.{route-Keeps}

-- An event that is recorded already is answered as a duplicate, and changes nothing but the supply of identifiers.
duplicate_ignored :
    (provider : Provider) (payload : PaystackWebhookPayload) (w : World) (e : WebhookEvent)
    → find_first (has_event_id (provider_event_id payload)) w.webhook_events ≡ some e
    → handle_fresh provider payload w ≡ (ok duplicate_event, record w { drawn = w.drawn + 1 })
unfolding handle_fresh record_event find_first
duplicate_ignored provider payload w e found = rw found refl

-- Whether a table has an event of the identifier.
abbrev pub IsRecordedEvent : String → World → Type 0
IsRecordedEvent event_id w =
    (e : WebhookEvent) × (find_first (has_event_id event_id) w.webhook_events ≡ some e)

module _ (event_id : String) where
  update-Keeps :
      (id outcome : String) (now : ℕ)
      → Keeps
          (IsRecordedEvent event_id)
          (update webhook_table (has_row_id id) (mark_processed now outcome))
  unfolding find_first
  update-Keeps id outcome now = record {
    at = λ w h. elim (Option-cases (find_first (has_row_id id) w.webhook_events)) [
      | inl gone ↦ rw gone h
      | inr (row, here) ↦ rw here (
        _,
        find_first-update_many (has_event_id event_id) (has_row_id id) (mark_processed now outcome)
              w.webhook_events (λ a. refl)
            ∙ ap (Option.map (λ a. if has_row_id id a then mark_processed now outcome a else a))
                h.1,
      )
    ];
  }

  note_outcome-Keeps :
      (id : String) (r : Result Bool) → Keeps (IsRecordedEvent event_id) (note_outcome id r)
  note_outcome-Keeps id (ok handled) = Keeps-bind (gets (λ w. w.now)) _ (Keeps-gets _) (λ now.
      Keeps-seq _ _ (update-Keeps id (if handled then "ok" else "unhandled") now)
        (Keeps-pure (handled_event handled)))
  note_outcome-Keeps id (err e) = Keeps-bind (gets (λ w. w.now)) _ (Keeps-gets _) (λ now.
      Keeps-seq _ _ (update-Keeps id (concat ("error: " ∷ message e ∷ [])) now) (Keeps-throw e))

module _ (provider : Provider) (payload : PaystackWebhookPayload) where
  processed-IsRecordedEvent :
      (row : WebhookEvent) (w : World)
      → IsRecordedEvent (provider_event_id payload) w
      → IsRecordedEvent
          (provider_event_id payload)
          (world_after (process provider payload (ok row)) w)
  processed-IsRecordedEvent row w (e, found) =
      (note_outcome-Keeps (provider_event_id payload) row.id
          (result_of (route provider payload) w)).at
        (world_after (route provider payload) w)
        (
          e,
          ap (find_first (has_event_id (provider_event_id payload)))
                ((route-Keeps w.webhook_events provider payload).at w refl)
              ∙ found,
        )

  -- However processing ends, the event is on record afterwards.
  handle_fresh-IsRecordedEvent :
      (w : World)
      → IsRecordedEvent (provider_event_id payload) (world_after (handle_fresh provider payload) w)
  unfolding handle_fresh record_event find_first
  handle_fresh-IsRecordedEvent w =
      elim (Option-cases (find_first (has_event_id (provider_event_id payload)) w.webhook_events)) [
        | inr (e, found) ↦ rw found (e, found)
        | inl fresh ↦ rw fresh (
            processed-IsRecordedEvent (new_event payload (w.uuid w.drawn))
              (record w {
                drawn = w.drawn + 1;
                webhook_events = new_event payload (w.uuid w.drawn) ∷ w.webhook_events;
              })
              (new_event payload (w.uuid w.drawn), rw (eq_refl (provider_event_id payload)) refl))
      ]

module _ (platform : Platform) (max_age_seconds : ℕ) (provider : Provider) where
  -- The checks before an event is processed.
  abbrev pub Passes : String → String → PaystackWebhookPayload → World → Type 0
  Passes raw_body signature payload w =
      (platform.signature_valid raw_body signature ≡ true)
      × (platform.parse_body raw_body ≡ some payload)
      × (is_stale platform max_age_seconds w.now payload ≡ false)

  passes_runs :
      (raw_body signature : String) (payload : PaystackWebhookPayload) (w : World)
      → Passes raw_body signature payload w
      → handle_paystack_event platform max_age_seconds provider raw_body signature w
        ≡ handle_fresh provider payload w
  unfolding handle_paystack_event
  passes_runs raw_body signature payload w (valid, parsed, fresh) =
      rw (valid, parsed) (rw fresh refl)

  -- A signed event that was taken once, and whose handler returned or threw, is answered as a duplicate when it
  -- comes again, in whatever body: no table changes, no job is added and Paystack is asked for nothing.
  pub event_once :
      (raw_body signature raw_body' signature' : String) (payload payload' : PaystackWebhookPayload)
      (w : World)
      → Passes raw_body signature payload w
      → let w' =
          world_after
            (handle_paystack_event platform max_age_seconds provider raw_body signature)
            w in
        Passes raw_body' signature' payload' w'
        → provider_event_id payload' ≡ provider_event_id payload
        → handle_paystack_event platform max_age_seconds provider raw_body' signature' w'
          ≡ (ok duplicate_event, record w' { drawn = w'.drawn + 1 })
  event_once raw_body signature raw_body' signature' payload payload' w first second same =
      let w' : World =
        world_after (handle_paystack_event platform max_age_seconds provider raw_body signature)
          w in
      let (e, found) = handle_fresh-IsRecordedEvent provider payload w in
      let runs = passes_runs raw_body signature payload w first in
      passes_runs raw_body' signature' payload' w' second
      ∙ duplicate_ignored provider payload' w' e (
          subst (λ id. find_first (has_event_id id) w'.webhook_events ≡ some e) (sym same)
            (ap
                (λ (o : Result WebhookResult × World).
                  find_first (has_event_id (provider_event_id payload)) o.1.webhook_events)
                runs
              ∙ found))

  -- An event whose signature is not valid, or that is too old, changes nothing at all.
  pub event_refused :
      (raw_body signature : String) (w : World)
      → (platform.signature_valid raw_body signature ≡ false)
        ⊎ ((payload : PaystackWebhookPayload) × (platform.parse_body raw_body ≡ some payload)
            × (is_stale platform max_age_seconds w.now payload ≡ true))
      → (world_after (handle_paystack_event platform max_age_seconds provider raw_body signature) w
          ≡ w)
        × ((handled : Bool)
            → result_of
                (handle_paystack_event platform max_age_seconds provider raw_body signature)
                w
              ≢ ok (handled_event handled))
  unfolding handle_paystack_event
  event_refused raw_body signature w why = (ground arith, λ handled e. ground arith)
