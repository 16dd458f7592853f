-- ===== src/AutoRelease/Examples.antt =====
-- The scan on a transaction that is under review, long after its window.
use meduman_backend.Prelude.{refl, none, [], ◌∷◌, arith}
use meduman_backend.Store.Enums.{
  TransactionStatus, delivery_in_progress, confirmation_pending, damaged, under_review,
}
use meduman_backend.Store.Rows.{Dispute}
use meduman_backend.Store.World.{World}
use meduman_backend.Store.Table.{find_first, find_many}
use meduman_backend.Store.Action.{world_after}
use meduman_backend.Store.Sample.{sale, with_sale}
use meduman_backend.Transactions.{is_freezing}
use meduman_backend.AutoRelease.{scan_and_release}
use meduman_backend.AutoRelease.Laws.{Frozen, scan_and_release-Frozen}

abbrev under_complaint : Dispute
under_complaint = record {
  id = "d1";
  transaction_id = "t1";
  opened_by = "bola";
  reason = damaged;
  description = none;
  desired_outcome = none;
  status = under_review;
  resolution = none;
  resolved_at = none;
  resolved_by = none;
}

abbrev waiting : TransactionStatus → World
waiting s = record (with_sale s) {
  disputes = under_complaint ∷ [];
  timeline =
      record {
        id = "e1";
        transaction_id = "t1";
        actor_id = none;
        actor_role = none;
        type = "delivery.marked";
        old_state = delivery_in_progress;
        new_state = confirmation_pending;
        reason = none;
        created_at = 0;
      }
      ∷ [];
}

scan_and_release-Frozen_example :
    Frozen
      (record sale { status = confirmation_pending })
      (under_complaint ∷ [])
      (world_after (scan_and_release 10 1000) (waiting confirmation_pending))
unfolding find_first find_many is_freezing
scan_and_release-Frozen_example =
    scan_and_release-Frozen (record sale { status = confirmation_pending }) (under_complaint ∷ [])
      (omega arith) 10 1000 (waiting confirmation_pending) (refl, refl)
