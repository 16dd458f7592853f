-- ===== src/Disputes/Raised.antt =====
-- disputes.service.ts: raising a dispute throws and changes nothing, or moves the transaction and adds the dispute.
use meduman_backend.Prelude.{String, ◌≡◌, refl, ap, ◌∙◌, ◌⊎◌, inl, inr, none, ◌∷◌, arith}
use meduman_backend.Store.Enums.{TransactionStatus, disputed, opened}
use meduman_backend.Store.Rows.{Transaction, Dispute}
use meduman_backend.Store.World.{World}
use meduman_backend.Store.Action.{Error, ok, err, truthy, world_after, result_of, Result-cases}
use meduman_backend.Machine.{raise_dispute, TransactionContext, accept, transition}
use meduman_backend.Transactions.{apply}
use meduman_backend.Transactions.Apply.{apply_error_unchanged, Applied, refused, apply-Applied}
use meduman_backend.Disputes.{RaiseDisputeInput, raise_transition, raise}

-- The row that `raise` writes.
abbrev pub IsRaised : RaiseDisputeInput → Dispute → Type 0
IsRaised input d =
    (d.transaction_id ≡ input.transaction_id)
    × (d.status ≡ opened)
    × (d.opened_by ≡ input.opened_by)

raised_disputed :
    (s t : TransactionStatus) (c : TransactionContext)
    → transition s raise_dispute c ≡ accept t
    → t ≡ disputed
unfolding transition
raised_disputed s t c h = ground arith

-- Raising a dispute either throws and leaves the world as it was, or moves the transaction to DISPUTED by a step
-- of the machine and adds one open dispute on it.
pub raise_all_or_nothing :
    (input : RaiseDisputeInput) (w : World)
    → ((e : Error) × (result_of (raise input) w ≡ err e) × (world_after (raise input) w ≡ w))
      ⊎ ((d : Dispute) × (row : Transaction) × (v : World) × (result_of (raise input) w ≡ ok d)
          × IsRaised input d
          × Applied (raise_transition input) w row v
          × (row.status ≡ disputed)
          × ((world_after (raise input) w).disputes ≡ d ∷ v.disputes)
          × ((world_after (raise input) w).transactions ≡ v.transactions))
unfolding raise
raise_all_or_nothing input w = elim (Result-cases (result_of (apply (raise_transition input)) w)) [
  | inr (e, refused) ↦ inl (
    e,
    ground (arith, refused),
    ground (arith, refused, apply_error_unchanged (raise_transition input) w e refused),
  )
  | inl (row, moved) ↦
      let done = apply-Applied (raise_transition input) w row moved in
      let v = world_after (apply (raise_transition input)) w in
      inr (
        raised (v.uuid v.drawn),
        row,
        v,
        ground (arith, moved),
        (refl, refl, refl),
        done,
        ap (λ (tx : Transaction). tx.status) done.returned ∙ raised_disputed _ _ _ done.allowed,
        ground (arith, moved),
        ground (arith, moved),
      )
]
  where
    raised : String → Dispute
    raised id = record {
      id = id;
      transaction_id = input.transaction_id;
      opened_by = input.opened_by;
      reason = input.reason;
      description = truthy input.description;
      desired_outcome = input.desired_outcome;
      status = opened;
      resolution = none;
      resolved_at = none;
      resolved_by = none;
    }
