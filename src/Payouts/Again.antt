-- ===== src/Payouts/Again.antt =====
-- `executeRelease` run twice: the second run of a release job that had returned sends no money.
use meduman_backend.Prelude.{
  Bool-cases, Option-cases, ◌===◌, concat, ◌+◌, String, ◌≡◌, refl, sym, ap, ◌∙◌, subst, inl, inr,
  true, none, some, List, [], ◌∷◌, arith, eq_iff, eq_refl,
}
use meduman_backend.Store.Rows.{Transaction, Payout}
use meduman_backend.Store.World.{TransferRequest, World}
use meduman_backend.Store.Table.{find_first, find_first-where, find_first-update_many}
use meduman_backend.Store.Action.{
  Error, Result, ok, err, ◌>>=◌, attempt, truthy, world_after, result_of, bind_ok, Result-cases,
}
use meduman_backend.Paystack.{Transfer, Provider, request, initiate_transfer, verify_transfer}
use meduman_backend.Payouts.{
  release_idempotency_key, has_key, new_payout, authorize_payout, mark_sent, record_transfer_sent,
  recipient_of, give_up, adopt, after_send, post_transfer, send_transfer, execute_release,
}
use meduman_backend.Payouts.Release.{
  MayRelease, release_guarded, release_runs, send_transfer_sent, authorize_existing, authorize_new,
}
use meduman_backend.Payouts.Once.{is_sent, send_transfer-transactions, send_transfer-disputes}

-- Paystack gives a transfer code with every transfer that it takes or knows.
pub record GivesCodes (provider : Provider) : Type 0 where
  pub posted :
      (ts : List TransferRequest) (r : TransferRequest) (t : Transfer)
      → request (provider.post_transfer ts r) ≡ ok t
      → truthy (some t.transfer_code) ≡ some t.transfer_code
  pub known :
      (ts : List TransferRequest) (reference : String) (t : Transfer)
      → request (provider.get_transfer ts reference) ≡ ok t
      → truthy (some t.transfer_code) ≡ some t.transfer_code

-- The payout that came back is the one in the table, and it is sent.
abbrev IsRecorded : String → Result Payout × World → Type 0
IsRecorded key (ok q, w) = (find_first (has_key key) w.payouts ≡ some q) × (is_sent q ≡ true)
IsRecorded key (err e, w) = Unit

record_transfer_sent-IsRecorded :
    (p : Payout) (code reference : String) (w : World)
    → find_first (has_key p.idempotency_key) w.payouts ≡ some p
    → truthy (some code) ≡ some code
    → IsRecorded p.idempotency_key (record_transfer_sent p code reference w)
unfolding record_transfer_sent find_first
record_transfer_sent-IsRecorded p code reference w found coded = rw found (
    rw
      (find_first-update_many (has_key p.idempotency_key) (has_key p.idempotency_key)
        (mark_sent code reference) w.payouts (λ a. refl))
      (rw found (
        rw (find_first-where (has_key p.idempotency_key) w.payouts found)
          (refl, ground (arith, coded)))))

record_transfer_sent_ok :
    (p : Payout) (code reference : String) (w : World)
    → find_first (has_key p.idempotency_key) w.payouts ≡ some p
    → (w' : World) × (record_transfer_sent p code reference w
        ≡ (ok (mark_sent code reference p), w'))
unfolding record_transfer_sent find_first
record_transfer_sent_ok p code reference w found =
    (world_after (record_transfer_sent p code reference) w, rw found refl)

-- An action that throws returns no payout.
give_up-IsRecorded :
    (key : String) (p : Payout) (e : Error) (w : World) → IsRecorded key (give_up p e w)
unfolding give_up find_first
give_up-IsRecorded key p e w =
    elim (Option-cases (find_first (has_key p.idempotency_key) w.payouts)) [
      | inl gone ↦ rw gone tt
      | inr (q, here) ↦ rw here tt
    ]

module _ (provider : Provider) (codes : GivesCodes provider) where
  after_failure :
      (p : Payout) (reference : String) (e : Error) (w : World)
      → find_first (has_key p.idempotency_key) w.payouts ≡ some p
      → IsRecorded p.idempotency_key (after_send provider p reference (err e) w)
  unfolding verify_transfer
  after_failure p reference e w found =
      elim (Result-cases (request (provider.get_transfer w.transfers reference))) [
        | inl (t, known) ↦
            rw
              (bind_ok (verify_transfer provider reference) (adopt p reference e) {w = w}
                {a = some t} {w' = w} (ground (arith, known)))
              (record_transfer_sent-IsRecorded p t.transfer_code reference w found
                (codes.known _ _ t known))
        | inr (e', missing) ↦
            rw
              (bind_ok (verify_transfer provider reference) (adopt p reference e) {w = w} {a = none}
                {w' = w} (ground (arith, missing)))
              (give_up-IsRecorded p.idempotency_key p e w)
      ]

  tried-IsRecorded :
      (p : Payout) (recipient reference : String) (w : World)
      → find_first (has_key p.idempotency_key) w.payouts ≡ some p
      → IsRecorded p.idempotency_key (
          (attempt (post_transfer provider p recipient reference)
              >>= after_send provider p reference)
            w)
  unfolding post_transfer initiate_transfer
  tried-IsRecorded p recipient reference w found =
      elim (Result-cases (request (provider.post_transfer w.transfers transfer))) [
        | inr (e, refused) ↦ rw refused (after_failure p reference e after found)
        | inl (t, taken) ↦
            let recorded =
              record_transfer_sent-IsRecorded p t.transfer_code reference after found
                (codes.posted _ _ t taken) in
            rw
              (bind_ok (initiate_transfer provider transfer)
                (λ t. record_transfer_sent p t.transfer_code reference) {w = w} {a = t} {w' = after}
                (ground (arith, taken)))
              (rw (record_transfer_sent_ok p t.transfer_code reference after found).1 (
                rw (record_transfer_sent_ok p t.transfer_code reference after found).1 at recorded))
      ]
    where
      transfer : TransferRequest
      transfer = record {
        amount = p.amount;
        recipient = recipient;
        reference = reference;
        reason = concat ("Meduman release " ∷ p.transaction_id ∷ []);
      }

      after : World
      after = record w { transfers = transfer ∷ w.transfers }

  -- A send that returns leaves the payout it returns in the table, sent.
  send_transfer-IsRecorded :
      (p : Payout) (w : World)
      → find_first (has_key p.idempotency_key) w.payouts ≡ some p
      → IsRecorded p.idempotency_key (send_transfer provider p none w)
  unfolding send_transfer find_first
  send_transfer-IsRecorded p w found = elim (Bool-cases (is_sent p)) [
    | inl already ↦ rw already (found, already)
    | inr fresh ↦
        elim (Option-cases (recipient_of (find_first (λ s. s.user_id === p.seller_id) w.sellers))) [
          | inl nobody ↦ rw (fresh, nobody) tt
          | inr (recipient, somebody) ↦
              rw (fresh, somebody) (tried-IsRecorded p recipient p.idempotency_key w found)
        ]
  ]

recorded_ok :
    (key : String) (o : Result Payout × World) (q : Payout)
    → IsRecorded key o
    → o.0 ≡ ok q
    → (find_first (has_key key) o.1.payouts ≡ some q) × (is_sent q ≡ true)
recorded_ok key (ok p, w) q (stored, already) e = ground arith
recorded_ok key (err x', w) q r e = cc

-- What `authorizePayout` hands on: the payout of the key, with the rest of the world as it was.
record Authorized (tx : Transaction) (w : World) : Type 0 where
  payout : Payout
  after : World
  runs : authorize_payout tx w ≡ (ok payout, after)
  own_key : payout.idempotency_key ≡ release_idempotency_key tx.id
  stored : find_first (has_key payout.idempotency_key) after.payouts ≡ some payout
  transactions_kept : after.transactions ≡ w.transactions
  disputes_kept : after.disputes ≡ w.disputes

authorized : (tx : Transaction) (w : World) → Authorized tx w
unfolding find_first new_payout
authorized tx w =
    elim (Option-cases (find_first (has_key (release_idempotency_key tx.id)) w.payouts)) [
      | inr (p, found) ↦
          let own : p.idempotency_key ≡ release_idempotency_key tx.id =
            (eq_iff _ _).0
              (find_first-where (has_key (release_idempotency_key tx.id)) w.payouts found) in
          record {
            payout = p;
            after = record w { drawn = w.drawn + 1 };
            runs = authorize_existing tx p w found;
            own_key = own;
            stored = subst (λ k. find_first (has_key k) w.payouts ≡ some p) (sym own) found;
            transactions_kept = refl;
            disputes_kept = refl;
          }
      | inl missing ↦ record {
        payout = new_payout tx (w.uuid w.drawn);
        after = record w {
          drawn = w.drawn + 1;
          payouts = new_payout tx (w.uuid w.drawn) ∷ w.payouts;
        };
        runs = authorize_new tx w missing;
        own_key = refl;
        stored = rw (eq_refl (release_idempotency_key tx.id)) refl;
        transactions_kept = refl;
        disputes_kept = refl;
      }
    ]

module _ (provider : Provider) where
  run_settled :
      (id : String) (w : World) (q : Payout) (may : MayRelease id w)
      → find_first (has_key (release_idempotency_key may.tx.id)) w.payouts ≡ some q
      → is_sent q ≡ true
      → execute_release provider id w ≡ (ok q, record w { drawn = w.drawn + 1 })
  run_settled id w q may found sent_already =
      release_runs provider id w may
      ∙ bind_ok (authorize_payout may.tx) (λ p. send_transfer provider p none)
          (authorize_existing may.tx q w found)
      ∙ send_transfer_sent provider q none (record w { drawn = w.drawn + 1 }) sent_already

  module _ (codes : GivesCodes provider) where
    -- A release that returned a payout, run again, returns the same payout and asks Paystack for nothing:
    -- of the world only the supply of identifiers has moved. So a job that BullMQ delivers twice pays once.
    pub release_again :
        (id : String) (w : World) (q : Payout)
        → result_of (execute_release provider id) w ≡ ok q
        → let w' = world_after (execute_release provider id) w in
          execute_release provider id w' ≡ (ok q, record w' { drawn = w'.drawn + 1 })
    release_again id w q h = elim (release_guarded provider id w) [
      | inr (e, refused) ↦ cc
      | inl may ↦ go may (authorized may.tx w)
    ]
      where
        go :
            (may : MayRelease id w)
            → Authorized may.tx w
            → let w' = world_after (execute_release provider id) w in
              execute_release provider id w' ≡ (ok q, record w' { drawn = w'.drawn + 1 })
        go may a =
            let first_run : execute_release provider id w
                ≡ send_transfer provider a.payout none a.after =
              release_runs provider id w may
              ∙ bind_ok (authorize_payout may.tx) (λ p. send_transfer provider p none) a.runs in
            let (stored, already) =
              recorded_ok a.payout.idempotency_key _ q
                (send_transfer-IsRecorded provider codes a.payout a.after a.stored)
                (sym (ap (λ (o : Result Payout × World). o.0) first_run) ∙ h) in
            let after : world_after (execute_release provider id) w
                ≡ world_after (send_transfer provider a.payout none) a.after =
              ap (λ (o : Result Payout × World). o.1) first_run in
            run_settled id _ q
              (record {
                tx = may.tx;
                found = rw after (
                    rw (send_transfer-transactions provider a.payout none a.after)
                      (rw a.transactions_kept may.found));
                releasing = may.releasing;
                undisputed = rw after (
                    rw (send_transfer-disputes provider a.payout none a.after)
                      (rw a.disputes_kept may.undisputed));
              })
              (rw after (
                subst
                  (λ k.
                    find_first (has_key k)
                      (world_after (send_transfer provider a.payout none) a.after).payouts
                    ≡ some q)
                  a.own_key stored))
              already
