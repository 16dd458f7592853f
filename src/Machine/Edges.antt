-- ===== src/Machine/Edges.antt =====
-- The transition diagram of state-machine/events.ts as a relation, and `transition` against it.
use meduman_backend.Prelude.{◌≡◌, refl, ◌↔◌, true, false, arith}
use meduman_backend.Store.Enums.{
  TransactionStatus, link_active, payment_pending, payment_protected, delivery_in_progress,
  confirmation_pending, disputed, release_processing, completed, refunded, expired,
  auto_after_window,
}
use meduman_backend.Machine.{
  webhook, server_verify, TransactionEvent, seller_publish, cancel, buyer_initiate_checkout, expire,
  payment_verified, payment_abandoned, seller_start_delivery, raise_dispute, seller_mark_delivered,
  buyer_confirm, auto_confirm, resolve_dispute_for_seller, resolve_dispute_for_buyer,
  withdraw_dispute, payout_succeeded, payout_retry, admin_intervention, TransactionContext, accept,
  transition,
}

-- An edge with the guard under which it is taken, as the comments of the event type list it.
pub data Edge (c : TransactionContext)
    : TransactionStatus → TransactionEvent → TransactionStatus → Type 0 where
  publish : Edge c TransactionStatus.draft seller_publish link_active
  cancel_draft : Edge c TransactionStatus.draft cancel TransactionStatus.cancelled
  cancel_link : Edge c link_active cancel TransactionStatus.cancelled
  checkout : Edge c link_active buyer_initiate_checkout payment_pending
  expire_link : Edge c link_active expire expired
  expire_payment : Edge c payment_pending expire expired
  protect_by_webhook : Edge c payment_pending (payment_verified webhook) payment_protected
  protect_by_verify : Edge c payment_pending (payment_verified server_verify) payment_protected
  abandon : Edge c payment_pending payment_abandoned link_active
  start : Edge c payment_protected seller_start_delivery delivery_in_progress
  dispute_protected : Edge c payment_protected raise_dispute disputed
  dispute_delivery : Edge c delivery_in_progress raise_dispute disputed
  dispute_confirmation : Edge c confirmation_pending raise_dispute disputed
  give_back : Edge c payment_protected TransactionEvent.refund refunded
  mark : Edge c delivery_in_progress seller_mark_delivered confirmation_pending
  confirm :
      c.has_open_dispute ≡ false → Edge c confirmation_pending buyer_confirm release_processing
  auto :
      c.release_rule ≡ auto_after_window
      → c.auto_confirm_window_elapsed ≡ true
      → c.has_open_dispute ≡ false
      → Edge c confirmation_pending auto_confirm release_processing
  for_seller :
      c.has_open_dispute ≡ false → Edge c disputed resolve_dispute_for_seller release_processing
  for_buyer : Edge c disputed resolve_dispute_for_buyer refunded
  withdraw : Edge c disputed withdraw_dispute payment_protected
  settle : Edge c release_processing payout_succeeded completed
  retry : c.has_open_dispute ≡ false → Edge c release_processing payout_retry release_processing
  intervene : Edge c release_processing admin_intervention disputed

pub ruleset edges = (
  publish, cancel_draft, cancel_link, checkout, expire_link, expire_payment, protect_by_webhook,
  protect_by_verify, abandon, start, dispute_protected, dispute_delivery, dispute_confirmation,
  give_back, mark, confirm, auto, for_seller, for_buyer, withdraw, settle, retry, intervene,
)

accept-Edge :
    (c : TransactionContext) (s : TransactionStatus) (e : TransactionEvent) (t : TransactionStatus)
    → transition s e c ≡ accept t
    → Edge c s e t
unfolding transition
accept-Edge c TransactionStatus.draft e t h = grind (arith, edges)
accept-Edge c _ e t h = grind (arith, edges)

Edge-accept :
    (c : TransactionContext) {s : TransactionStatus} {e : TransactionEvent} {t : TransactionStatus}
    → Edge c s e t
    → transition s e c ≡ accept t
unfolding transition
Edge-accept c publish = refl
Edge-accept c (confirm h) = ground arith
Edge-accept c (auto rule elapsed h) = ground arith
Edge-accept c (for_seller h) = ground arith
Edge-accept c (retry h) = ground arith
Edge-accept c _ = refl

-- The machine accepts an event, and moves to a state, exactly along an edge of the diagram whose
-- guard holds in the context; every other pair of a state and an event is rejected.
pub transition_iff_Edge :
    (c : TransactionContext) (s : TransactionStatus) (e : TransactionEvent) (t : TransactionStatus)
    → (transition s e c ≡ accept t) ↔ Edge c s e t
transition_iff_Edge c s e t = (accept-Edge c s e t, Edge-accept c)
