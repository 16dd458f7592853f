-- ===== src/Disputes/Examples.antt =====
-- Runs of disputes.service.ts, and the theorems at them.
use meduman_backend.Prelude.{◌===◌, ◌≡◌, refl, ◌≢◌, ◌⊎◌, none, some, List, [], ◌∷◌, arith}
use meduman_backend.Store.Enums.{
  confirmation_pending, disputed, release_processing, item_not_received, opened, resolved_release,
  same_status,
}
use meduman_backend.Store.Rows.{Transaction, Dispute}
use meduman_backend.Store.World.{Job, World}
use meduman_backend.Store.Table.{find_first, count, update_many}
use meduman_backend.Store.Action.{Error, plain, ok, err, world_after, result_of}
use meduman_backend.Store.Sample.{sale, with_sale}
use meduman_backend.Transactions.{is_freezing, has_id, move_to}
use meduman_backend.Transactions.Apply.{Applied}
use meduman_backend.Disputes.{
  RaiseDisputeInput, to_seller, ResolveDisputeInput, raise_transition, raise, resolve,
}
use meduman_backend.Disputes.Laws.{other_dispute_freezes, resolve_stuck, resolve_releases}
use meduman_backend.Disputes.Raised.{IsRaised, raise_all_or_nothing}

abbrev complaint : Dispute
complaint = record {
  id = "d1";
  transaction_id = "t1";
  opened_by = "bola";
  reason = item_not_received;
  description = none;
  desired_outcome = none;
  status = opened;
  resolution = none;
  resolved_at = none;
  resolved_by = none;
}

abbrev for_ada : ResolveDisputeInput
for_ada = record { dispute_id = "d1"; resolved_by = "root"; outcome = to_seller; resolution = none }

abbrev disputed_sale : World
disputed_sale = record (with_sale disputed) { disputes = complaint ∷ [] }

abbrev twice_disputed : World
twice_disputed = record disputed_sale { disputes = complaint ∷ record complaint { id = "d2" } ∷ [] }

other_dispute_freezes_example :
    (world_after (resolve for_ada) twice_disputed ≡ twice_disputed)
    × ((q : Dispute) → result_of (resolve for_ada) twice_disputed ≢ ok q)
unfolding find_first count is_freezing
other_dispute_freezes_example =
    other_dispute_freezes for_ada twice_disputed complaint refl refl (omega arith)

abbrev closed : Dispute → Dispute
closed e = record e {
  status = resolved_release;
  resolved_at = some 1000;
  resolved_by = some for_ada.resolved_by;
  resolution = for_ada.resolution;
}

resolve_releases_example :
    let w' = world_after (resolve for_ada) disputed_sale in
    (result_of (resolve for_ada) disputed_sale ≡ ok (closed complaint))
    × (find_first (has_id "t1") w'.transactions
        ≡ some (record sale { status = release_processing }))
    × (w'.disputes ≡ update_many (λ e. e.id === "d1") closed disputed_sale.disputes)
    × ((jobs : List Job) × (w'.jobs ≡ Job.release "t1" ∷ jobs))
unfolding find_first count is_freezing same_status
resolve_releases_example =
    resolve_releases for_ada disputed_sale complaint (record sale { status = disputed }) refl refl
      refl refl refl refl refl refl

abbrev cut_off : World
cut_off = record disputed_sale { queue_error = some "ECONNREFUSED" }

resolve_stuck_example :
    let w' = world_after (resolve for_ada) cut_off in
    (result_of (resolve for_ada) cut_off ≡ err (plain "ECONNREFUSED"))
    × (find_first (has_id "t1") w'.transactions
        ≡ some (move_to release_processing (record sale { status = disputed })))
    × (w'.disputes ≡ cut_off.disputes)
    × ((q : Dispute) → result_of (resolve for_ada) w' ≢ ok q)
unfolding find_first count is_freezing same_status
resolve_stuck_example =
    resolve_stuck for_ada cut_off complaint (record sale { status = disputed }) refl refl refl refl
      refl refl refl "ECONNREFUSED" refl

abbrev complain : RaiseDisputeInput
complain = record {
  transaction_id = "t1";
  opened_by = "bola";
  role = none;
  reason = item_not_received;
  description = none;
  desired_outcome = none;
}

raise_all_or_nothing_test :
    let w = with_sale confirmation_pending in
    ((e : Error) × (result_of (raise complain) w ≡ err e) × (world_after (raise complain) w ≡ w))
    ⊎ ((d : Dispute) × (row : Transaction) × (v : World) × (result_of (raise complain) w ≡ ok d)
        × IsRaised complain d
        × Applied (raise_transition complain) w row v
        × (row.status ≡ disputed)
        × ((world_after (raise complain) w).disputes ≡ d ∷ v.disputes)
        × ((world_after (raise complain) w).transactions ≡ v.transactions))
raise_all_or_nothing_test = raise_all_or_nothing complain (with_sale confirmation_pending)
