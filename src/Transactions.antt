-- ===== src/Transactions.antt =====
-- modules/transactions/transactions.service.ts: the service that alone writes a transaction's status.
pub mod Apply
pub mod Race
pub mod History
mod Examples
use meduman_backend.Prelude.{
  ltb, ◌==◌, or_else, length, any, ◌===◌, concat, without_dashes, ℕ, String, Bool, true, false, not,
  ◌&&◌, Option, none, some, List, [], ◌∷◌, ◌++◌,
}
use meduman_backend.Prelude.Int.{ℤ, pos}
use meduman_backend.Store.Enums.{
  TransactionStatus, TransactionOrigin, web, ReleaseRule, buyer_confirmation, FeeModel, buyer_pays,
  DisputeStatus, opened, under_review, ActorType, UserRole, buyer, seller, freelancer, business,
  same_status, status_name,
}
use meduman_backend.Store.Rows.{text, Transaction, Dispute, TimelineEvent, AuditLog, User}
use meduman_backend.Store.World.{
  transaction_table, dispute_table, timeline_table, audit_table, user_table,
}
use meduman_backend.Store.Action.{
  illegal_transition, Error, not_found, plain, transition_rejected, ok, err, Action, pure, gets,
  or_throw, transact, ◌>>=◌, ◌>>◌, throw_if, when, draw, select, select_many, insert, update_rows,
  update, message, truthy,
}
use meduman_backend.Machine.{
  TransactionEvent, seller_publish, cancel, buyer_initiate_checkout, expire, payment_verified,
  payment_abandoned, seller_start_delivery, raise_dispute, seller_mark_delivered, buyer_confirm,
  auto_confirm, resolve_dispute_for_seller, resolve_dispute_for_buyer, withdraw_dispute,
  payout_succeeded, payout_retry, admin_intervention, TransactionContext, TransitionResult, accept,
  reject, event_type, transition,
}
use meduman_backend.Outbound.{OutboundTxView, record_for_transition, dispatch}

pub record TransitionActor : Type 0 where
  pub id : Option String
  pub type : ActorType
  pub role : Option String

-- The optional `context` is flattened: a field that is left out is `none`.
pub record ApplyTransitionInput : Type 0 where
  pub transaction_id : String
  pub event : TransactionEvent
  pub actor : TransitionActor
  pub reason : Option String
  pub has_open_dispute : Option Bool
  pub auto_confirm_window_elapsed : Option Bool

pub record CreateDraftInput : Type 0 where
  pub seller_id : String
  pub title : String
  pub amount : ℤ
  pub description : Option String
  pub currency : Option String
  pub release_rule : Option ReleaseRule
  pub fee_model : Option FeeModel
  pub fee_amount : Option ℤ
  pub expected_delivery_date : Option ℕ
  pub merchant_id : Option String
  pub origin : Option TransactionOrigin

-- `FREEZING_DISPUTE_STATUSES`
unfoldable pub is_freezing : DisputeStatus → Bool
is_freezing opened = true
is_freezing under_review = true
is_freezing _ = false

-- `TIMELINE_TYPE`
unfoldable pub timeline_type : TransactionEvent → String
timeline_type seller_publish = "link.activated"
timeline_type cancel = "transaction.cancelled"
timeline_type buyer_initiate_checkout = "payment.initiated"
timeline_type expire = "transaction.expired"
timeline_type (payment_verified source) = "payment.protected"
timeline_type payment_abandoned = "payment.abandoned"
timeline_type seller_start_delivery = "delivery.started"
timeline_type raise_dispute = "dispute.raised"
timeline_type TransactionEvent.refund = "transaction.refunded"
timeline_type seller_mark_delivered = "delivery.marked"
timeline_type buyer_confirm = "delivery.confirmed"
timeline_type auto_confirm = "delivery.auto_confirmed"
timeline_type resolve_dispute_for_seller = "dispute.resolved_release"
timeline_type resolve_dispute_for_buyer = "dispute.resolved_refund"
timeline_type withdraw_dispute = "dispute.withdrawn"
timeline_type payout_succeeded = "payout.completed"
timeline_type payout_retry = "payout.retry"
timeline_type admin_intervention = "admin.intervention"

-- `where: { id }`
abbrev pub has_id : String → Transaction → Bool
has_id id tx = tx.id === id

-- `Transaction ${id} not found`
abbrev pub transaction_not_found : String → Error
transaction_not_found id = not_found (concat ("Transaction " ∷ id ∷ " not found" ∷ []))

-- The disputes that `include` brings with the row.
abbrev pub freezes : String → Dispute → Bool
freezes id d = d.transaction_id === id && is_freezing d.status

-- The snapshot that the machine decides on.
unfoldable pub context_of : ApplyTransitionInput → Transaction → List Dispute → TransactionContext
context_of input tx disputes = record {
  release_rule = tx.release_rule;
  has_open_dispute = or_else input.has_open_dispute (ltb 0 (length disputes));
  auto_confirm_window_elapsed = or_else input.auto_confirm_window_elapsed false;
}

-- `if (!result.ok) throw`
abbrev pub decide : TransitionResult → Action TransactionStatus
decide (accept next_state) w = (ok next_state, w)
decide (reject reason message) w = (err (transition_rejected reason message), w)

abbrev pub in_state : String → TransactionStatus → Transaction → Bool
in_state id status tx = tx.id === id && same_status tx.status status

abbrev pub move_to : TransactionStatus → Transaction → Transaction
move_to status tx = record tx { status = status }

unfoldable pub timeline_row :
    ApplyTransitionInput → Transaction → TransactionStatus → String → ℕ → TimelineEvent
unfolding timeline_type
timeline_row input tx next_state id now = record {
  id = id;
  transaction_id = input.transaction_id;
  actor_id = input.actor.id;
  actor_role = input.actor.role;
  type = timeline_type input.event;
  old_state = tx.status;
  new_state = next_state;
  reason = truthy input.reason;
  created_at = now;
}

unfoldable pub audit_row : ApplyTransitionInput → Transaction → TransactionStatus → AuditLog
unfolding event_type status_name
audit_row input tx next_state = record {
  actor_id = input.actor.id;
  actor_type = input.actor.type;
  action = "transaction.status_change";
  target_type = "Transaction";
  target_id = some input.transaction_id;
  reason = input.reason;
  metadata =
      ("event", text (event_type input.event))
      ∷ ("from", text (status_name tx.status))
      ∷ ("to", text (status_name next_state))
      ∷ [];
}

abbrev view_of : Transaction → TransactionStatus → OutboundTxView
view_of tx next_state = record {
  id = tx.id;
  status = next_state;
  amount = tx.amount;
  currency = tx.currency;
  title = tx.title;
  merchant_id = tx.merchant_id;
}

-- The body of the `$transaction` in `apply`: the row that was read decides nothing more but the
-- status that the update expects.
unfoldable pub commit :
    ApplyTransitionInput → Transaction → TransactionStatus → Action (Transaction × Option String)
unfolding timeline_row audit_row event_type
commit input tx next_state = do
  updated ←
      update_rows transaction_table (in_state input.transaction_id tx.status) (move_to next_state)
  throw_if (not (updated == 1)) (
      transition_rejected illegal_transition
        (concat ("Transaction " ∷ input.transaction_id ∷ " changed state concurrently" ∷ [])))
  id ← draw
  now ← gets (λ w. w.now)
  insert timeline_table (timeline_row input tx next_state id now)
  insert audit_table (audit_row input tx next_state)
  event_id ← record_for_transition (event_type input.event) (view_of tx next_state)
  found ← select transaction_table (has_id input.transaction_id)
  row ← or_throw found (plain "No Transaction found")
  pure (row, event_id)

-- `if (outboundEventId) await dispatch`
abbrev dispatch_new : Option String → Action (Unit {0})
dispatch_new none = pure tt
dispatch_new (some id) = dispatch id

-- `apply`
unfoldable pub apply : ApplyTransitionInput → Action Transaction
apply input = do
  found ← select transaction_table (has_id input.transaction_id)
  tx ← or_throw found (transaction_not_found input.transaction_id)
  disputes ← select_many dispute_table (freezes input.transaction_id)
  next_state ← decide (transition tx.status input.event (context_of input tx disputes))
  done ← transact (commit input tx next_state)
  dispatch_new done.1
  pure done.0

-- `getById`
unfoldable pub get_by_id : String → Action Transaction
get_by_id id = do
  found ← select transaction_table (has_id id)
  or_throw found (transaction_not_found id)

same_role : UserRole → UserRole → Bool
same_role buyer buyer = true
same_role seller seller = true
same_role freelancer freelancer = true
same_role business business = true
same_role _ _ = false

-- `roleFlags: [...user.roleFlags, flag]`, where the user exists and lacks the flag.
grant_to : String → UserRole → Option User → Action (Unit {0})
unfolding same_role
grant_to user_id flag none = pure tt
grant_to user_id flag (some u) = when (not (any (same_role flag) u.role_flags)) (
    update user_table (λ v. v.id === user_id)
      (λ v. record v { role_flags = u.role_flags ++ flag ∷ [] })
    >> pure tt)

-- `grantRoleFlag`
unfoldable pub grant_role_flag : String → UserRole → Action (Unit {0})
unfolding grant_to
grant_role_flag user_id flag = do
  found ← select user_table (λ u. u.id === user_id)
  grant_to user_id flag found

-- `createDraft`: the columns that the input leaves out take the defaults of the schema.
unfoldable pub create_draft : CreateDraftInput → Action Transaction
create_draft input = do
  public_link_id ← draw
  id ← draw
  now ← gets (λ w. w.now)
  tx ← insert transaction_table (record {
    id = id;
    public_link_id = without_dashes public_link_id;
    seller_id = input.seller_id;
    buyer_id = none;
    title = input.title;
    description = truthy input.description;
    amount = input.amount;
    currency = or_else (truthy input.currency) "NGN";
    status = TransactionStatus.draft;
    release_rule = or_else input.release_rule buyer_confirmation;
    expected_delivery_date = input.expected_delivery_date;
    fee_model = or_else input.fee_model buyer_pays;
    fee_amount = or_else input.fee_amount (pos 0);
    merchant_id = truthy input.merchant_id;
    origin = or_else input.origin web;
    created_at = now;
  })
  grant_role_flag input.seller_id seller
  pure tx
