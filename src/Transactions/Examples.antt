-- ===== src/Transactions/Examples.antt =====
-- Runs of transactions.service.ts at concrete inputs, and the theorems at them.
use meduman_backend.Prelude.{concat, String, ◌≡◌, refl, Option, none, some, [], ◌∷◌, arith}
use meduman_backend.Store.Enums.{TransactionStatus, link_active, user, same_status}
use meduman_backend.Store.Rows.{Transaction}
use meduman_backend.Store.World.{World}
use meduman_backend.Store.Table.{find_first, find_many, count, update_many}
use meduman_backend.Store.Action.{
  illegal_transition, transition_rejected, ok, err, transact, world_after, result_of,
}
use meduman_backend.Store.Sample.{sale, with_sale}
use meduman_backend.Machine.{webhook, seller_publish, cancel, payment_verified, transition}
use meduman_backend.Outbound.{record_for_transition, dispatch}
use meduman_backend.Transactions.{ApplyTransitionInput, context_of, commit, apply}
use meduman_backend.Transactions.Apply.{apply_error_unchanged, Applied, apply-Applied}
use meduman_backend.Transactions.Race.{race_one_winner}
use meduman_backend.Transactions.History.{
  IsConsistent, apply-IsConsistent, apply_all, apply_all-IsConsistent,
}

abbrev publish : ApplyTransitionInput
publish = record {
  transaction_id = "t1";
  event = seller_publish;
  actor = record { id = some "ada"; type = user; role = some "SELLER" };
  reason = none;
  has_open_dispute = none;
  auto_confirm_window_elapsed = none;
}

abbrev abort : ApplyTransitionInput
abort = record publish { event = cancel }

abbrev drafted : World
drafted = with_sale TransactionStatus.draft

publish_runs : result_of (apply publish) drafted ≡ ok (record sale { status = link_active })
unfolding apply commit transition record_for_transition dispatch find_first find_many count
    update_many same_status
publish_runs = refl

apply_error_unchanged_test :
    world_after (apply (record publish { event = payment_verified webhook })) drafted ≡ drafted
unfolding apply transition find_first find_many
apply_error_unchanged_test =
    apply_error_unchanged (record publish { event = payment_verified webhook }) drafted
      (transition_rejected illegal_transition "Event PAYMENT_VERIFIED is not permitted from DRAFT")
      refl

apply-Applied_test :
    Applied publish drafted
      (record sale { status = link_active })
      (world_after (apply publish) drafted)
apply-Applied_test =
    apply-Applied publish drafted (record sale { status = link_active }) publish_runs

race_one_winner_example :
    let w' = world_after (commit publish sale link_active) drafted in
    ((row : Transaction × Option String) × (result_of (commit publish sale link_active) drafted
        ≡ ok row))
    × (transact (commit abort sale TransactionStatus.cancelled) w' ≡ (
      err (
          transition_rejected illegal_transition
            (concat ("Transaction " ∷ "t1" ∷ " changed state concurrently" ∷ []))),
      w',
    ))
unfolding transition find_first find_many count same_status context_of
race_one_winner_example =
    race_one_winner publish abort drafted sale link_active TransactionStatus.cancelled refl refl
      refl (λ e. cc) refl

drafted-IsConsistent : IsConsistent drafted
unfolding count find_many
drafted-IsConsistent = record { unique = λ id. ground arith; recorded = (refl, tt) }

apply-IsConsistent_example : IsConsistent (world_after (apply publish) drafted)
apply-IsConsistent_example = apply-IsConsistent publish drafted drafted-IsConsistent

apply_all-IsConsistent_example : IsConsistent (apply_all (publish ∷ abort ∷ []) drafted)
apply_all-IsConsistent_example =
    apply_all-IsConsistent (publish ∷ abort ∷ []) drafted drafted-IsConsistent
