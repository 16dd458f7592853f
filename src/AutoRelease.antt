-- ===== src/AutoRelease.antt =====
-- modules/transactions/auto-release.service.ts: the scan that confirms deliveries for silent buyers.
pub mod Laws
mod Examples
use meduman_backend.Prelude.{
  ltb, if◌then◌else◌, ◌===◌, ℕ, ◌+◌, String, Bool, true, false, ◌&&◌, Option, none, some, List, [],
  ◌∷◌,
}
use meduman_backend.Store.Enums.{
  confirmation_pending, ReleaseRule, auto_after_window, system, same_status,
}
use meduman_backend.Store.Rows.{Transaction, TimelineEvent}
use meduman_backend.Store.World.{Job, transaction_table}
use meduman_backend.Store.Table.{find_first}
use meduman_backend.Store.Action.{
  Result, ok, err, Action, pure, gets, ◌>>=◌, ◌>>◌, enqueue, select_many, attempt,
}
use meduman_backend.Machine.{auto_confirm}
use meduman_backend.Transactions.{ApplyTransitionInput, apply}

is_auto_rule : ReleaseRule → Bool
is_auto_rule auto_after_window = true
is_auto_rule _ = false

-- `where: { status: 'CONFIRMATION_PENDING', releaseRule: 'AUTO_AFTER_WINDOW' }`
unfoldable pub is_candidate : Transaction → Bool
unfolding is_auto_rule
is_candidate tx = same_status tx.status confirmation_pending && is_auto_rule tx.release_rule

-- The newest timeline row that entered CONFIRMATION_PENDING.
abbrev pub entered : String → TimelineEvent → Bool
entered id ev = ev.transaction_id === id && same_status ev.new_state confirmation_pending

abbrev pub auto_transition : String → ApplyTransitionInput
auto_transition id = record {
  transaction_id = id;
  event = auto_confirm;
  actor = record { id = none; type = system; role = some "SYSTEM" };
  reason = some "auto-release window elapsed";
  has_open_dispute = none;
  auto_confirm_window_elapsed = some true;
}

-- The body of the `try`.
unfoldable pub confirm_and_enqueue : String → Action (Unit {0})
confirm_and_enqueue id = do apply (auto_transition id); enqueue (Job.release id)

abbrev pub counted : Result (Unit {0}) → ℕ
counted (ok done) = 1
counted (err e) = 0

abbrev pub attempt_release : String → Action ℕ
attempt_release id = do outcome ← attempt (confirm_and_enqueue id); pure (counted outcome)

-- One turn of the loop, with the row that the query included: 1 where the transaction was released.
unfoldable pub release_one : (window_ms now : ℕ) → Transaction → Option TimelineEvent → Action ℕ
release_one window_ms now tx none = pure 0
release_one window_ms now tx (some ev) =
    if ltb now (ev.created_at + window_ms) then pure 0 else attempt_release tx.id

-- The loop; the candidates and their timelines were read before it.
unfoldable pub release_all : (window_ms now : ℕ) → List TimelineEvent → List Transaction → Action ℕ
release_all window_ms now timeline [] = pure 0
release_all window_ms now timeline (tx ∷ txs) = do
  first ← release_one window_ms now tx (find_first (entered tx.id) timeline)
  rest ← release_all window_ms now timeline txs
  pure (first + rest)

-- `scanAndRelease`
unfoldable pub scan_and_release : (window_ms now : ℕ) → Action ℕ
scan_and_release window_ms now = do
  candidates ← select_many transaction_table is_candidate
  timeline ← gets (λ w. w.timeline)
  release_all window_ms now timeline candidates
