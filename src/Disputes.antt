-- ===== src/Disputes.antt =====
-- modules/disputes/disputes.service.ts: raising a dispute, and resolving it for one side.
pub mod Laws
pub mod Raised
mod Examples
use meduman_backend.Prelude.{
  ltb, or_else, ◌===◌, concat, ℕ, String, Bool, true, false, not, ◌&&◌, Option, none, some, [], ◌∷◌,
}
use meduman_backend.Store.Enums.{
  DisputeReason, DisputeStatus, opened, resolved_release, resolved_refund, DisputeOutcome, user,
  admin, dispute_status_name,
}
use meduman_backend.Store.Rows.{Dispute}
use meduman_backend.Store.World.{Job, dispute_table}
use meduman_backend.Store.Action.{
  not_found, bad_request, Action, gets, or_throw, ◌>>=◌, ◌>>◌, throw_if, when, draw, enqueue,
  select, select_count, insert, update, truthy,
}
use meduman_backend.Machine.{
  TransactionEvent, raise_dispute, resolve_dispute_for_seller, resolve_dispute_for_buyer,
}
use meduman_backend.Transactions.{ApplyTransitionInput, is_freezing, apply}

pub record RaiseDisputeInput : Type 0 where
  pub transaction_id : String
  pub opened_by : String
  pub role : Option String
  pub reason : DisputeReason
  pub description : Option String
  pub desired_outcome : Option DisputeOutcome

pub data Resolution : Type 0 where
  to_seller to_buyer : Resolution

pub record ResolveDisputeInput : Type 0 where
  pub dispute_id : String
  pub resolved_by : String
  pub outcome : Resolution
  pub resolution : Option String

-- The transition that `raise` asks for.
abbrev pub raise_transition : RaiseDisputeInput → ApplyTransitionInput
raise_transition input = record {
  transaction_id = input.transaction_id;
  event = raise_dispute;
  actor = record {
    id = some input.opened_by;
    type = user;
    role = some (or_else input.role "BUYER");
  };
  reason = truthy input.description;
  has_open_dispute = none;
  auto_confirm_window_elapsed = none;
}

-- `raise`
unfoldable pub raise : RaiseDisputeInput → Action Dispute
raise input = do
  apply (raise_transition input)
  id ← draw
  insert dispute_table (record {
    id = id;
    transaction_id = input.transaction_id;
    opened_by = input.opened_by;
    reason = input.reason;
    description = truthy input.description;
    desired_outcome = input.desired_outcome;
    status = opened;
    resolution = none;
    resolved_at = none;
    resolved_by = none;
  })

abbrev pub has_dispute_id : String → Dispute → Bool
has_dispute_id id d = d.id === id

-- `OPEN_DISPUTE_STATUSES`, the same two values as those that freeze a release.
abbrev pub is_open : Dispute → Bool
is_open d = is_freezing d.status

-- Open disputes on the same transaction, but for this one.
abbrev pub other_open : Dispute → Dispute → Bool
other_open d e = e.transaction_id === d.transaction_id && is_open e && not (e.id === d.id)

abbrev pub resolution_event : Resolution → TransactionEvent
resolution_event to_seller = resolve_dispute_for_seller
resolution_event to_buyer = resolve_dispute_for_buyer

abbrev pub resolved_status : Resolution → DisputeStatus
resolved_status to_seller = resolved_release
resolved_status to_buyer = resolved_refund

abbrev pub is_for_seller : Resolution → Bool
is_for_seller to_seller = true
is_for_seller to_buyer = false

-- The transition that `resolve` asks for, with the number of other open disputes.
abbrev pub resolve_transition : ResolveDisputeInput → Dispute → ℕ → ApplyTransitionInput
resolve_transition input d others = record {
  transaction_id = d.transaction_id;
  event = resolution_event input.outcome;
  actor = record { id = some input.resolved_by; type = admin; role = some "ADMIN" };
  reason = truthy input.resolution;
  has_open_dispute = some (ltb 0 others);
  auto_confirm_window_elapsed = none;
}

abbrev pub close_dispute : ResolveDisputeInput → ℕ → Dispute → Dispute
close_dispute input now d = record d {
  status = resolved_status input.outcome;
  resolved_at = some now;
  resolved_by = some input.resolved_by;
  resolution = input.resolution;
}

-- The end of `resolve`, after the transition: the job, and only then the dispute's own row.
unfoldable pub conclude : ResolveDisputeInput → Dispute → Action Dispute
conclude input d = do
  when (is_for_seller input.outcome) (enqueue (Job.release d.transaction_id))
  now ← gets (λ w. w.now)
  update dispute_table (has_dispute_id d.id) (close_dispute input now)

-- `resolve`
unfoldable pub resolve : ResolveDisputeInput → Action Dispute
unfolding dispute_status_name
resolve input = do
  found ← select dispute_table (has_dispute_id input.dispute_id)
  d ← or_throw found (not_found (concat ("Dispute " ∷ input.dispute_id ∷ " not found" ∷ [])))
  throw_if (not (is_open d)) (
      bad_request (
        concat
          ("Dispute " ∷ input.dispute_id ∷ " is already " ∷ dispute_status_name d.status ∷ [])))
  others ← select_count dispute_table (other_open d)
  apply (resolve_transition input d others)
  conclude input d
