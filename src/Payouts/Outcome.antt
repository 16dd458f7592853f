-- ===== src/Payouts/Outcome.antt =====
-- What `markPaid` and `markFailed` of payouts.service.ts do to a payout once Paystack has reported, and what they
-- leave alone.
use meduman_backend.Prelude.{
  Bool-cases, ◌===◌, String, ◌≡◌, refl, sym, ap, ◌∙◌, subst, inl, inr, false, some, List, [], ◌∷◌,
  arith,
}
use meduman_backend.Store.Enums.{TransactionStatus, completed, PayoutStatus}
use meduman_backend.Store.Rows.{Transaction, Payout}
use meduman_backend.Store.World.{World}
use meduman_backend.Store.Table.{find_first, update_many, find_first-where, find_first-update_many}
use meduman_backend.Store.Action.{
  Result, ok, pure, ◌>>=◌, world_after, result_of, Result-cases, bind_returns,
}
use meduman_backend.Store.Keeps.{Keeps-pure, Keeps-bind}
use meduman_backend.Machine.{payout_succeeded, TransactionContext, accept, transition}
use meduman_backend.Transactions.{ApplyTransitionInput, apply}
use meduman_backend.Transactions.Apply.{apply_error_unchanged, Applied, refused, apply-Applied}
use meduman_backend.Payouts.{has_key, is_success}
use meduman_backend.Payouts.Settle.{
  settled_transition, mark_success, mark_paid, Failure, mark_failed,
}

-- A payout is settled where the row of its key says SUCCESS.
abbrev pub Settled : String → World → Payout → Type 0
Settled key w p = (find_first (has_key key) w.payouts ≡ some p) × (p.status ≡ PayoutStatus.success)

report_ignored :
    (key : String) (w : World) (p : Payout)
    → Settled key w p
    → ((code : String) → mark_paid key code w ≡ (ok p, w))
      × ((status : Failure) (reason : String) → mark_failed key status reason w ≡ (ok p, w))
unfolding mark_paid mark_failed
report_ignored key w p (found, done) =
    ((λ code. rw found (rw done refl)), λ status reason. rw found (rw done refl))

-- What Paystack may report of a transfer.
pub data TransferReport : Type 0 where
  paid_report : (code : String) → TransferReport
  failed_report : (status : Failure) (reason : String) → TransferReport

abbrev pub take_report : String → TransferReport → World → World
take_report key (paid_report code) = world_after (mark_paid key code)
take_report key (failed_report status reason) = world_after (mark_failed key status reason)

-- The world after reports that come one after the other, whether each returns or throws.
unfoldable pub take_reports : String → List TransferReport → World → World
take_reports key [] w = w
take_reports key (r ∷ rs) w = take_reports key rs (take_report key r w)

reports_ignored :
    (key : String) (w : World) (p : Payout)
    → Settled key w p
    → (reports : List TransferReport) → take_reports key reports w ≡ w
unfolding take_reports
reports_ignored key w p s [] = refl
reports_ignored key w p s (paid_report code ∷ rs) =
    ap (λ (o : Result Payout × World). take_reports key rs o.1) ((report_ignored key w p s).0 code)
    ∙ reports_ignored key w p s rs
reports_ignored key w p s (failed_report status reason ∷ rs) =
    ap (λ (o : Result Payout × World). take_reports key rs o.1)
      ((report_ignored key w p s).1 status reason)
    ∙ reports_ignored key w p s rs

-- A failed transfer never moves a transaction, a dispute or a job, and asks Paystack for nothing: the
-- transaction stays where it was until the transfer is retried.
pub mark_failed-frame :
    (key : String) (status : Failure) (reason : String) (w : World)
    → let w' = world_after (mark_failed key status reason) w in
      (w'.transactions ≡ w.transactions)
      × (w'.timeline ≡ w.timeline)
      × (w'.disputes ≡ w.disputes)
      × (w'.jobs ≡ w.jobs)
      × (w'.transfers ≡ w.transfers)
unfolding mark_failed
mark_failed-frame key status reason w =
    (ground arith, ground arith, ground arith, ground arith, ground arith)

-- The payout as `markPaid` leaves the table, before the transaction moves.
abbrev pub paid_world : String → String → World → World
paid_world key code w = record w {
  payouts =
      update_many (λ p. p.idempotency_key === key)
        (λ p. record p { status = PayoutStatus.success; provider_transfer_code = some code })
        w.payouts;
}

-- A report of success on a payout that is not settled settles it and asks the state machine to complete the
-- transaction; where the machine refuses, the error goes to the caller but the payout stays SUCCESS.
pub mark_paid_lem :
    (key code : String) (w : World) (p : Payout)
    → find_first (has_key key) w.payouts ≡ some p
    → is_success p.status ≡ false
    → mark_paid key code w
      ≡ (apply (settled_transition p key code) >>= λ tx. pure (mark_success code p))
          (paid_world key code w)
unfolding mark_paid find_first
mark_paid_lem key code w p found open_ = rw found (rw open_ (rw found refl))

apply-payouts :
    (input : ApplyTransitionInput) (w : World) → (world_after (apply input) w).payouts ≡ w.payouts
apply-payouts input w = elim (Result-cases (result_of (apply input) w)) [
  | inl (row, moved) ↦
      let (outbound, drawn, jobs, written) = (apply-Applied input w row moved).written in
      ap (λ (v : World). v.payouts) written
  | inr (e, refused) ↦ ap (λ (v : World). v.payouts) (apply_error_unchanged input w e refused)
]

-- A report of success leaves the payout settled, whether it returns or throws.
mark_paid-Settled :
    (key code : String) (w : World) (p : Payout)
    → find_first (has_key key) w.payouts ≡ some p
    → (q : Payout) × Settled key (world_after (mark_paid key code) w) q
mark_paid-Settled key code w p found = elim (Bool-cases (is_success p.status)) [
  | inl done ↦
      let settled : Settled key w p = (found, ground arith) in
      (
        p,
        subst (λ (o : Result Payout × World). Settled key o.1 p)
            (sym ((report_ignored key w p settled).0 code)) settled,
      )
  | inr open_ ↦ (
    mark_success code p,
    (
      ap (find_first (has_key key)) (
            ap (λ (o : Result Payout × World). o.1.payouts) (mark_paid_lem key code w p found open_)
            ∙ (Keeps-bind {P = λ v. v.payouts ≡ (paid_world key code w).payouts}
                  (apply (settled_transition p key code)) _
                  (record { at = λ v h. apply-payouts (settled_transition p key code) v ∙ h })
                  (λ tx. Keeps-pure _)).at
                (paid_world key code w) refl)
          ∙ find_first-update_many (has_key key) (has_key key) (mark_success code) w.payouts
              (λ a. refl)
          ∙ rw found (rw (find_first-where (has_key key) w.payouts found) refl),
      refl,
    ),
  )
]

-- Once a report of success has come for a payout that is there, whether `markPaid` returned or threw, no sequence of
-- later reports for its key, of success or of failure, changes anything.
pub paid_once_for_all :
    (key code : String) (w : World) (p : Payout) (reports : List TransferReport)
    → find_first (has_key key) w.payouts ≡ some p
    → let w' = world_after (mark_paid key code) w in take_reports key reports w' ≡ w'
paid_once_for_all key code w p reports found =
    let (q, settled) = mark_paid-Settled key code w p found in
    reports_ignored key (world_after (mark_paid key code) w) q settled reports

payout_succeeded_completes :
    (s t : TransactionStatus) (c : TransactionContext)
    → transition s payout_succeeded c ≡ accept t
    → t ≡ completed
unfolding transition
payout_succeeded_completes s t c h = ground arith

-- A report of success that returns, on a payout that was not settled, has recorded the payout as SUCCESS under the
-- reported code, and has then completed the transaction by one step of the state machine.
pub mark_paid-completes :
    (key code : String) (w : World) (p q : Payout)
    → find_first (has_key key) w.payouts ≡ some p
    → is_success p.status ≡ false
    → result_of (mark_paid key code) w ≡ ok q
    → (q ≡ record p { status = PayoutStatus.success; provider_transfer_code = some code })
      × ((row : Transaction) × (row.status ≡ completed)
          × Applied
              (settled_transition p key code)
              (paid_world key code w)
              row
              (world_after (mark_paid key code) w))
mark_paid-completes key code w p q found open_ h =
    let runs = mark_paid_lem key code w p found open_ in
    let (row, moved, rest) =
      bind_returns (apply (settled_transition p key code)) (λ tx. pure (mark_success code p))
        (paid_world key code w) q (sym (ap (λ (o : Result Payout × World). o.0) runs) ∙ h) in
    let applied = apply-Applied (settled_transition p key code) (paid_world key code w) row moved in
    let after : world_after (mark_paid key code) w
        ≡ world_after (apply (settled_transition p key code)) (paid_world key code w) =
      ap (λ (o : Result Payout × World). o.1) (runs ∙ rest) in
    (
      cc (h, runs, rest),
      (
        row,
        ap (λ (tx : Transaction). tx.status) applied.returned
            ∙ payout_succeeded_completes _ _ _ applied.allowed,
        rw after applied,
      ),
    )
