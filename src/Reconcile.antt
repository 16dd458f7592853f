-- ===== src/Reconcile.antt =====
-- modules/payments/payment-reconcile.service.ts: the scan that verifies charges that nobody has reported.
pub mod Laws
mod Examples
use mathlib.Core.List.{reverse}
use meduman_backend.Prelude.{ltb, if◌then◌else◌, length, take, ℕ, ◌+◌, Bool, ◌&&◌, List, [], ◌∷◌}
use meduman_backend.Store.Rows.{Payment}
use meduman_backend.Store.World.{payment_table}
use meduman_backend.Store.Action.{Result, ok, err, Action, pure, ◌>>=◌, ◌>>◌, select_many, attempt}
use meduman_backend.Paystack.{Provider}
use meduman_backend.Payments.{is_paid, is_pending, reconcile_payment}

-- `where: { status: PENDING, createdAt: { lt: cutoff } }`
abbrev pub is_stranded_charge : (threshold_ms now : ℕ) → Payment → Bool
is_stranded_charge threshold_ms now p = is_pending p.status && ltb (p.created_at + threshold_ms) now

abbrev pub reached_success : Result Payment → ℕ
reached_success (ok p) = if is_paid p.status then 1 else 0
reached_success (err e) = 0

module _ (provider : Provider) where
  -- One turn of the loop: 1 where the payment has come to SUCCESS, and nothing is thrown.
  unfoldable pub reconcile_one : Payment → Action ℕ
  reconcile_one payment = do
    outcome ← attempt (reconcile_payment provider payment.id)
    pure (reached_success outcome)

  -- The loop
  unfoldable pub reconcile_all : List Payment → Action ℕ
  reconcile_all [] = pure 0
  reconcile_all (p ∷ ps) = do first ← reconcile_one p; rest ← reconcile_all ps; pure (first + rest)

  -- `reconcilePending`: how many were checked, and how many reached SUCCESS. A table lists its rows newest first, and
  -- the scan takes the oldest 100.
  unfoldable pub reconcile_pending : (threshold_ms now : ℕ) → Action (ℕ × ℕ)
  reconcile_pending threshold_ms now = do
    rows ← select_many payment_table (is_stranded_charge threshold_ms now)
    let stranded = take 100 (reverse rows)
    protected_count ← reconcile_all stranded
    pure (length stranded, protected_count)
