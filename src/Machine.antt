-- ===== src/Machine.antt =====
-- The transaction state machine: modules/transactions/state-machine (events.ts, context.ts,
-- reasons.ts, transition.ts). `transition` is the source's nested `switch`.
pub mod Edges
pub mod Safety
pub mod Traces
mod Examples
use meduman_backend.Prelude.{if◌then◌else◌, concat, String, Bool, true, false, not, [], ◌∷◌}
use meduman_backend.Store.Enums.{
  TransactionStatus, link_active, payment_pending, payment_protected, delivery_in_progress,
  confirmation_pending, disputed, release_processing, completed, refunded, expired, ReleaseRule,
  buyer_confirmation, auto_after_window, admin_only, status_name,
}
use meduman_backend.Store.Action.{
  RejectionReason, terminal_state, illegal_transition, client_source_forbidden, dispute_open,
  release_rule_forbids_auto_confirm, auto_confirm_window_not_elapsed, message,
}

pub data PaymentSource : Type 0 where
  webhook server_verify client : PaymentSource

pub data TransactionEvent : Type 0 where
  seller_publish cancel buyer_initiate_checkout expire : TransactionEvent
  payment_verified : (source : PaymentSource) → TransactionEvent
  payment_abandoned seller_start_delivery raise_dispute refund : TransactionEvent
  seller_mark_delivered buyer_confirm auto_confirm : TransactionEvent
  resolve_dispute_for_seller resolve_dispute_for_buyer withdraw_dispute : TransactionEvent
  payout_succeeded payout_retry admin_intervention : TransactionEvent

pub record TransactionContext : Type 0 where
  pub release_rule : ReleaseRule
  pub has_open_dispute : Bool
  pub auto_confirm_window_elapsed : Bool

pub data TransitionResult : Type 0 where
  accept : (next_state : TransactionStatus) → TransitionResult
  reject : (reason : RejectionReason) → (message : String) → TransitionResult

-- `event.type`
unfoldable pub event_type : TransactionEvent → String
event_type seller_publish = "SELLER_PUBLISH"
event_type cancel = "CANCEL"
event_type buyer_initiate_checkout = "BUYER_INITIATE_CHECKOUT"
event_type expire = "EXPIRE"
event_type (payment_verified source) = "PAYMENT_VERIFIED"
event_type payment_abandoned = "PAYMENT_ABANDONED"
event_type seller_start_delivery = "SELLER_START_DELIVERY"
event_type raise_dispute = "RAISE_DISPUTE"
event_type TransactionEvent.refund = "REFUND"
event_type seller_mark_delivered = "SELLER_MARK_DELIVERED"
event_type buyer_confirm = "BUYER_CONFIRM"
event_type auto_confirm = "AUTO_CONFIRM"
event_type resolve_dispute_for_seller = "RESOLVE_DISPUTE_FOR_SELLER"
event_type resolve_dispute_for_buyer = "RESOLVE_DISPUTE_FOR_BUYER"
event_type withdraw_dispute = "WITHDRAW_DISPUTE"
event_type payout_succeeded = "PAYOUT_SUCCEEDED"
event_type payout_retry = "PAYOUT_RETRY"
event_type admin_intervention = "ADMIN_INTERVENTION"

release_rule_name : ReleaseRule → String
release_rule_name buyer_confirmation = "BUYER_CONFIRMATION"
release_rule_name auto_after_window = "AUTO_AFTER_WINDOW"
release_rule_name admin_only = "ADMIN_ONLY"

-- `TERMINAL_STATES` and `isTerminalState`
unfoldable pub is_terminal_state : TransactionStatus → Bool
is_terminal_state completed = true
is_terminal_state refunded = true
is_terminal_state TransactionStatus.cancelled = true
is_terminal_state expired = true
is_terminal_state _ = false

illegal : TransactionStatus → TransactionEvent → TransitionResult
unfolding event_type status_name
illegal from event =
    reject illegal_transition
      (concat ("Event " ∷ event_type event ∷ " is not permitted from " ∷ status_name from ∷ []))

enter_release_processing : TransactionContext → TransitionResult
enter_release_processing context =
    if context.has_open_dispute
    then reject dispute_open "Cannot enter RELEASE_PROCESSING while a dispute is open"
    else accept release_processing

is_auto_after_window : ReleaseRule → Bool
is_auto_after_window auto_after_window = true
is_auto_after_window _ = false

auto_confirm_step : TransactionContext → TransitionResult
unfolding is_auto_after_window release_rule_name enter_release_processing
auto_confirm_step context =
    if not (is_auto_after_window context.release_rule)
    then reject release_rule_forbids_auto_confirm (
        concat (
          "Auto-confirm not permitted under release rule "
          ∷ release_rule_name context.release_rule
          ∷ []))
    else if not context.auto_confirm_window_elapsed
    then reject auto_confirm_window_not_elapsed "Auto-confirm window has not elapsed"
    else enter_release_processing context

-- The guard on `PAYMENT_VERIFIED`.
protect : PaymentSource → TransitionResult
protect client =
    reject client_source_forbidden "A client-sourced payment event can never protect a transaction"
protect _ = accept payment_protected

terminal : TransactionStatus → TransitionResult
unfolding status_name
terminal from =
    reject terminal_state
      (concat (status_name from ∷ " is terminal and has no outbound transitions" ∷ []))

unfoldable pub transition :
    TransactionStatus → TransactionEvent → TransactionContext → TransitionResult
unfolding illegal enter_release_processing auto_confirm_step protect terminal
transition TransactionStatus.draft seller_publish context = accept link_active
transition TransactionStatus.draft cancel context = accept TransactionStatus.cancelled
transition TransactionStatus.draft event context = illegal TransactionStatus.draft event
transition link_active buyer_initiate_checkout context = accept payment_pending
transition link_active cancel context = accept TransactionStatus.cancelled
transition link_active expire context = accept expired
transition link_active event context = illegal link_active event
transition payment_pending (payment_verified source) context = protect source
transition payment_pending payment_abandoned context = accept link_active
transition payment_pending expire context = accept expired
transition payment_pending event context = illegal payment_pending event
transition payment_protected seller_start_delivery context = accept delivery_in_progress
transition payment_protected raise_dispute context = accept disputed
transition payment_protected TransactionEvent.refund context = accept refunded
transition payment_protected event context = illegal payment_protected event
transition delivery_in_progress seller_mark_delivered context = accept confirmation_pending
transition delivery_in_progress raise_dispute context = accept disputed
transition delivery_in_progress event context = illegal delivery_in_progress event
transition confirmation_pending buyer_confirm context = enter_release_processing context
transition confirmation_pending auto_confirm context = auto_confirm_step context
transition confirmation_pending raise_dispute context = accept disputed
transition confirmation_pending event context = illegal confirmation_pending event
transition disputed resolve_dispute_for_seller context = enter_release_processing context
transition disputed resolve_dispute_for_buyer context = accept refunded
transition disputed withdraw_dispute context = accept payment_protected
transition disputed event context = illegal disputed event
transition release_processing payout_succeeded context = accept completed
transition release_processing payout_retry context = enter_release_processing context
transition release_processing admin_intervention context = accept disputed
transition release_processing event context = illegal release_processing event
transition completed event context = terminal completed
transition refunded event context = terminal refunded
transition TransactionStatus.cancelled event context = terminal TransactionStatus.cancelled
transition expired event context = terminal expired
