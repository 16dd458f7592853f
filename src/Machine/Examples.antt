-- ===== src/Machine/Examples.antt =====
-- Runs of state-machine/transition.ts at concrete inputs, and the theorems at them.
use meduman_backend.Prelude.{◌≡◌, refl, ◌≢◌, ◌↔◌, ◌⊎◌, true, false, List, [], ◌∷◌}
use meduman_backend.Store.Enums.{
  TransactionStatus, payment_pending, confirmation_pending, disputed, release_processing, completed,
  auto_after_window,
}
use meduman_backend.Store.Action.{dispute_open}
use meduman_backend.Machine.{
  webhook, server_verify, client, seller_publish, buyer_initiate_checkout, payment_verified,
  seller_start_delivery, buyer_confirm, auto_confirm, withdraw_dispute, payout_retry,
  TransactionContext, accept, reject, is_terminal_state, transition,
}
use meduman_backend.Machine.Edges.{Edge, transition_iff_Edge}
use meduman_backend.Machine.Safety.{
  protected_needs_trust, open_dispute_freezes_release, is_terminal_rejection, terminal_absorbs,
}
use meduman_backend.Machine.Traces.{
  Offer, run, is_funded, funded_needs_payment, is_releasing, completed_needs_release,
  completed_reachable,
}

abbrev quiet : TransactionContext
quiet = record {
  release_rule = auto_after_window;
  has_open_dispute = false;
  auto_confirm_window_elapsed = true;
}

abbrev frozen : TransactionContext
frozen = record quiet { has_open_dispute = true }

transition_iff_Edge_example :
    (transition confirmation_pending auto_confirm quiet ≡ accept release_processing)
    ↔ Edge quiet confirmation_pending auto_confirm release_processing
transition_iff_Edge_example =
    transition_iff_Edge quiet confirmation_pending auto_confirm release_processing

protected_needs_trust_test :
    ((payment_pending ≡ payment_pending)
      × ((payment_verified webhook ≡ payment_verified webhook)
          ⊎ (payment_verified webhook ≡ payment_verified server_verify)))
    ⊎ ((payment_pending ≡ disputed) × (payment_verified webhook ≡ withdraw_dispute))
unfolding transition
protected_needs_trust_test =
    protected_needs_trust payment_pending (payment_verified webhook) quiet refl

open_dispute_freezes_release_test :
    (transition confirmation_pending buyer_confirm frozen ≢ accept release_processing)
    × (transition confirmation_pending buyer_confirm (record frozen { has_open_dispute = false })
          ≡ accept release_processing
        → transition confirmation_pending buyer_confirm frozen
          ≡ reject dispute_open "Cannot enter RELEASE_PROCESSING while a dispute is open")
open_dispute_freezes_release_test =
    open_dispute_freezes_release confirmation_pending buyer_confirm frozen refl

terminal_absorbs_test :
    is_terminal_rejection (transition completed payout_retry quiet) ≡ is_terminal_state completed
terminal_absorbs_test = terminal_absorbs completed payout_retry quiet

abbrev forged : List Offer
forged =
    (seller_publish, quiet)
    ∷ (buyer_initiate_checkout, quiet)
    ∷ (payment_verified client, quiet)
    ∷ (seller_start_delivery, quiet)
    ∷ []

funded_needs_payment_example : is_funded (run TransactionStatus.draft forged) ≡ false
funded_needs_payment_example = funded_needs_payment TransactionStatus.draft forged refl refl

completed_needs_release_test : is_releasing (run TransactionStatus.draft forged) ≡ false
completed_needs_release_test = completed_needs_release TransactionStatus.draft forged refl refl

completed_reachable_test : (os : List Offer) × (run payment_pending os ≡ completed)
unfolding is_terminal_state
completed_reachable_test = completed_reachable payment_pending refl
