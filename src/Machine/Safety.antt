-- ===== src/Machine/Safety.antt =====
-- What one step of state-machine/transition.ts can never do: protect on a client's word, release
-- under an open dispute, leave a terminal state.
use meduman_backend.Prelude.{◌≡◌, ◌≢◌, ◌⊎◌, Bool, true, false, arith}
use meduman_backend.Store.Enums.{
  TransactionStatus, payment_pending, payment_protected, disputed, release_processing,
}
use meduman_backend.Store.Action.{terminal_state, dispute_open}
use meduman_backend.Machine.{
  PaymentSource, webhook, server_verify, TransactionEvent, payment_verified, withdraw_dispute,
  TransactionContext, TransitionResult, accept, reject, is_terminal_state, transition,
}

-- `PaymentSource` values that may protect (money rule 2).
abbrev pub IsTrusted : PaymentSource → Type 0
IsTrusted s = (s ≡ webhook) ⊎ (s ≡ server_verify)

-- Money becomes protected in two ways only: a trusted source verifies a pending payment, or a
-- dispute on money that is protected already is withdrawn.
pub protected_needs_trust :
    (s : TransactionStatus) (e : TransactionEvent) (c : TransactionContext)
    → transition s e c ≡ accept payment_protected
    → ((s ≡ payment_pending)
        × ((e ≡ payment_verified webhook) ⊎ (e ≡ payment_verified server_verify)))
      ⊎ ((s ≡ disputed) × (e ≡ withdraw_dispute))
unfolding transition
protected_needs_trust TransactionStatus.draft e c h = ground arith
protected_needs_trust _ e c h = ground arith

-- While a dispute is open no event at all, from no state, enters RELEASE_PROCESSING, and an event
-- that would enter it but for the dispute is rejected with DISPUTE_OPEN: with the dispute gone the
-- same event is accepted only if it was rejected for that reason.
pub open_dispute_freezes_release :
    (s : TransactionStatus) (e : TransactionEvent) (c : TransactionContext)
    → c.has_open_dispute ≡ true
    → (transition s e c ≢ accept release_processing)
      × (transition s e (record c { has_open_dispute = false }) ≡ accept release_processing
          → transition s e c
            ≡ reject dispute_open "Cannot enter RELEASE_PROCESSING while a dispute is open")
unfolding transition
open_dispute_freezes_release s e c h = (frozen s e, refused s e)
  where
    frozen :
        (s : TransactionStatus) (e : TransactionEvent)
        → transition s e c ≢ accept release_processing
    frozen TransactionStatus.draft e = ground arith
    frozen _ e = ground arith

    refused :
        (s : TransactionStatus) (e : TransactionEvent)
        → transition s e (record c { has_open_dispute = false }) ≡ accept release_processing
        → transition s e c
          ≡ reject dispute_open "Cannot enter RELEASE_PROCESSING while a dispute is open"
    refused TransactionStatus.draft e = ground arith
    refused _ e = ground arith

-- Whether a result rejects for the reason TERMINAL_STATE.
abbrev pub is_terminal_rejection : TransitionResult → Bool
is_terminal_rejection (reject terminal_state m) = true
is_terminal_rejection _ = false

-- The four terminal states are exactly those from which an event is rejected as TERMINAL_STATE, for
-- every event and context; from a terminal state nothing is accepted.
pub terminal_absorbs :
    (s : TransactionStatus) (e : TransactionEvent) (c : TransactionContext)
    → is_terminal_rejection (transition s e c) ≡ is_terminal_state s
unfolding transition is_terminal_state
terminal_absorbs TransactionStatus.draft e c = ground arith
terminal_absorbs _ e c = ground arith
