-- ===== src/Machine/Traces.antt =====
-- Whole lives of a transaction: the events offered to state-machine/transition.ts one after
-- another, each with its own context; a rejected event leaves the state as it is.
use meduman_backend.Prelude.{
  any, ◌≡◌, refl, Bool, true, false, not, ◌&&◌, List, [], ◌∷◌, map, arith,
}
use meduman_backend.Store.Enums.{
  TransactionStatus, link_active, payment_pending, payment_protected, delivery_in_progress,
  confirmation_pending, disputed, release_processing, completed, refunded, ReleaseRule,
  buyer_confirmation, auto_after_window,
}
use meduman_backend.Machine.{
  webhook, client, TransactionEvent, seller_publish, buyer_initiate_checkout, payment_verified,
  seller_start_delivery, seller_mark_delivered, buyer_confirm, auto_confirm,
  resolve_dispute_for_seller, payout_succeeded, TransactionContext, TransitionResult, accept,
  reject, is_terminal_state, transition,
}

abbrev pub Offer : Type 0
Offer = TransactionEvent × TransactionContext

abbrev next_status : TransactionStatus → TransitionResult → TransactionStatus
next_status s (accept t) = t
next_status s (reject r m) = s

unfoldable pub step : TransactionStatus → Offer → TransactionStatus
step s (e, c) = next_status s (transition s e c)

unfoldable pub run : TransactionStatus → List Offer → TransactionStatus
run s [] = s
run s (o ∷ os) = run (step s o) os

-- An event that the server itself vouches for as a payment.
abbrev pub is_trusted_payment : Offer → Bool
is_trusted_payment (payment_verified client, c) = false
is_trusted_payment (payment_verified source, c) = true
is_trusted_payment _ = false

-- States in which the platform has taken the buyer's money, or has passed it on.
abbrev pub is_funded : TransactionStatus → Bool
is_funded payment_protected = true
is_funded delivery_in_progress = true
is_funded confirmation_pending = true
is_funded disputed = true
is_funded release_processing = true
is_funded completed = true
is_funded refunded = true
is_funded _ = false

step-is_funded :
    (s : TransactionStatus) (o : Offer)
    → is_funded s ≡ false
    → is_trusted_payment o ≡ false
    → is_funded (step s o) ≡ false
unfolding step transition
step-is_funded TransactionStatus.draft (e, c) h t = ground arith
step-is_funded _ (e, c) h t = ground arith

-- From a state without money, no list of events reaches a funded state, whatever the contexts,
-- unless a webhook or a server-side verification reported the payment: client reports never do.
pub funded_needs_payment :
    (s : TransactionStatus) (os : List Offer)
    → is_funded s ≡ false
    → any is_trusted_payment os ≡ false
    → is_funded (run s os) ≡ false
unfolding run
funded_needs_payment s [] h t = h
funded_needs_payment s (o ∷ os) h t =
    funded_needs_payment (step s o) os (step-is_funded s o h (ground arith)) (ground arith)

abbrev pub allows_auto : ReleaseRule → Bool
allows_auto auto_after_window = true
allows_auto _ = false

-- An event by which release may begin, offered while no dispute is open.
abbrev pub is_release : Offer → Bool
is_release (buyer_confirm, c) = not c.has_open_dispute
is_release (auto_confirm, c) =
    not c.has_open_dispute && c.auto_confirm_window_elapsed && allows_auto c.release_rule
is_release (resolve_dispute_for_seller, c) = not c.has_open_dispute
is_release _ = false

-- States in which the money is on its way to the seller, or has arrived.
abbrev pub is_releasing : TransactionStatus → Bool
is_releasing release_processing = true
is_releasing completed = true
is_releasing _ = false

step-is_releasing :
    (s : TransactionStatus) (o : Offer)
    → is_releasing s ≡ false
    → is_release o ≡ false
    → is_releasing (step s o) ≡ false
unfolding step transition
step-is_releasing TransactionStatus.draft (e, c) h t = ground arith
step-is_releasing _ (e, c) h t = ground arith

-- No list of events takes a transaction to RELEASE_PROCESSING or COMPLETED unless it holds a buyer's
-- confirmation, an automatic one whose rule and window allow it, or a resolution for the seller,
-- offered while no dispute is open.
pub completed_needs_release :
    (s : TransactionStatus) (os : List Offer)
    → is_releasing s ≡ false
    → any is_release os ≡ false
    → is_releasing (run s os) ≡ false
unfolding run
completed_needs_release s [] h t = h
completed_needs_release s (o ∷ os) h t =
    completed_needs_release (step s o) os (step-is_releasing s o h (ground arith)) (ground arith)

abbrev calm : TransactionContext
calm = record {
  release_rule = buyer_confirmation;
  has_open_dispute = false;
  auto_confirm_window_elapsed = false;
}

-- A way from each state to COMPLETED, by events that the machine accepts.
way_out : TransactionStatus → List TransactionEvent
way_out release_processing = payout_succeeded ∷ []
way_out disputed = resolve_dispute_for_seller ∷ payout_succeeded ∷ []
way_out confirmation_pending = buyer_confirm ∷ payout_succeeded ∷ []
way_out delivery_in_progress = seller_mark_delivered ∷ buyer_confirm ∷ payout_succeeded ∷ []
way_out payment_protected =
    seller_start_delivery ∷ seller_mark_delivered ∷ buyer_confirm ∷ payout_succeeded ∷ []
way_out payment_pending =
    payment_verified webhook
    ∷ seller_start_delivery
    ∷ seller_mark_delivered
    ∷ buyer_confirm
    ∷ payout_succeeded
    ∷ []
way_out link_active =
    buyer_initiate_checkout
    ∷ payment_verified webhook
    ∷ seller_start_delivery
    ∷ seller_mark_delivered
    ∷ buyer_confirm
    ∷ payout_succeeded
    ∷ []
way_out TransactionStatus.draft =
    seller_publish
    ∷ buyer_initiate_checkout
    ∷ payment_verified webhook
    ∷ seller_start_delivery
    ∷ seller_mark_delivered
    ∷ buyer_confirm
    ∷ payout_succeeded
    ∷ []
way_out _ = []

-- No state is a dead end: from every state that is not terminal some list of events, offered with no
-- dispute open, leads to COMPLETED.
pub completed_reachable :
    (s : TransactionStatus)
    → is_terminal_state s ≡ false
    → (os : List Offer) × (run s os ≡ completed)
unfolding run step transition is_terminal_state way_out
completed_reachable TransactionStatus.draft h =
    (map (λ e. (e, calm)) (way_out TransactionStatus.draft), refl)
completed_reachable link_active h = (map (λ e. (e, calm)) (way_out link_active), refl)
completed_reachable payment_pending h = (map (λ e. (e, calm)) (way_out payment_pending), refl)
completed_reachable payment_protected h = (map (λ e. (e, calm)) (way_out payment_protected), refl)
completed_reachable delivery_in_progress h =
    (map (λ e. (e, calm)) (way_out delivery_in_progress), refl)
completed_reachable confirmation_pending h =
    (map (λ e. (e, calm)) (way_out confirmation_pending), refl)
completed_reachable disputed h = (map (λ e. (e, calm)) (way_out disputed), refl)
completed_reachable release_processing h = (map (λ e. (e, calm)) (way_out release_processing), refl)
completed_reachable _ h = absurd (ground arith)
