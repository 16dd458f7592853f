-- ===== src/Outbound.antt =====
-- The outbox of merchant webhooks: modules/outbound-events/outbound-event.builder.ts and
-- outbound-events.service.ts.
use meduman_backend.Prelude.{
  if◌then◌else◌, ◌===◌, ℕ, ◌+◌, String, ◌≡◌, refl, Option, none, some, List, [], ◌∷◌,
}
use meduman_backend.Prelude.Int.{ℤ}
use meduman_backend.Store.Enums.{TransactionStatus, OutboundEventStatus}
use meduman_backend.Store.Rows.{OutboundEvent}
use meduman_backend.Store.World.{webhook_delivery, World, outbound_table}
use meduman_backend.Store.Action.{
  ok, Action, pure, gets, ◌>>=◌, ◌>>◌, draw, enqueue, insert, attempt, truthy,
}

pub record OutboundTxView : Type 0 where
  pub id : String
  pub status : TransactionStatus
  pub amount : ℤ
  pub currency : String
  pub title : String
  pub merchant_id : Option String

abbrev type_map : List (String × String)
type_map =
    ("PAYMENT_VERIFIED", "transaction.protected")
    ∷ ("CANCEL", "transaction.cancelled")
    ∷ ("RAISE_DISPUTE", "dispute.opened")
    ∷ ("RESOLVE_DISPUTE_FOR_SELLER", "dispute.resolved")
    ∷ ("RESOLVE_DISPUTE_FOR_BUYER", "dispute.resolved")
    ∷ ("PAYOUT_SUCCEEDED", "funds.released")
    ∷ []

lookup_type : String → List (String × String) → Option String
lookup_type key [] = none
lookup_type key ((k, v) ∷ rest) = if key === k then some v else lookup_type key rest

pub record BuiltEvent : Type 0 where
  pub type : String
  pub transaction_id : String
  pub status : TransactionStatus
  pub amount : ℤ
  pub currency : String
  pub title : String

-- `buildOutboundEvent`
unfoldable pub build_outbound_event : String → OutboundTxView → Option BuiltEvent
unfolding lookup_type
build_outbound_event event_type tx = elim (lookup_type event_type type_map) [
  | none ↦ none
  | some type ↦ some (record {
    type = type;
    transaction_id = tx.id;
    status = tx.status;
    amount = tx.amount;
    currency = tx.currency;
    title = tx.title;
  })
]

insert_event : Option String → Option BuiltEvent → Action (Option String)
insert_event none built = pure none
insert_event (some merchant) none = pure none
insert_event (some merchant) (some built) = do
  id ← draw
  now ← gets (λ w. w.now)
  insert outbound_table (record {
    id = id;
    merchant_id = merchant;
    type = built.type;
    transaction_id = built.transaction_id;
    payload_status = built.status;
    payload_amount = built.amount;
    payload_currency = built.currency;
    payload_title = built.title;
    status = OutboundEventStatus.pending;
    attempt_count = 0;
    last_error = none;
    delivered_at = none;
    created_at = now;
  })
  pure (some id)

-- `recordForTransition`, inside the caller's transaction
unfoldable pub record_for_transition : String → OutboundTxView → Action (Option String)
unfolding insert_event build_outbound_event
record_for_transition event_type tx =
    insert_event (truthy tx.merchant_id) (build_outbound_event event_type tx)

-- `dispatch`: an error of the queue is swallowed, and the relay tries again.
unfoldable pub dispatch : String → Action (Unit {0})
dispatch event_id = do attempt (enqueue (webhook_delivery event_id)); pure tt

-- The outbox row never throws, and writes nothing but the outbox.
pub record_for_transition_lem :
    (type : String) (view : OutboundTxView) (w : World)
    → (o : Option String) × (outbound : List OutboundEvent) × (drawn : ℕ) × (record_for_transition
          type view w
        ≡ (ok o, record w { outbound = outbound; drawn = drawn }))
unfolding record_for_transition
record_for_transition_lem type view w =
    go (truthy view.merchant_id) (build_outbound_event type view)
  where
    go :
        (m : Option String) (b : Option BuiltEvent)
        → (o : Option String) × (outbound : List OutboundEvent) × (drawn : ℕ) × (insert_event m b w
            ≡ (ok o, record w { outbound = outbound; drawn = drawn }))
    go none b = (none, w.outbound, w.drawn, refl)
    go (some m) none = (none, w.outbound, w.drawn, refl)
    go (some m) (some b) = (some (w.uuid w.drawn), _, w.drawn + 1, refl)
