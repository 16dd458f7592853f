-- ===== src/Payouts/Once.antt =====
-- What payouts.service.ts writes: a release job that runs again, and the unique `idempotencyKey`.
use meduman_backend.Prelude.{
  Bool-cases, Option-cases, or_else, is_some, ◌===◌, ℕ, ◌≤◌, String, ◌≡◌, refl, sym, subst, inl,
  inr, Bool, ◌||◌, Option, none, some, List, arith, eq_iff,
}
use meduman_backend.Store.Rows.{Transaction, Payout}
use meduman_backend.Store.World.{World, seller_table}
use meduman_backend.Store.Table.{find_first, count, update_many, count-find_none, count-update_many}
use meduman_backend.Store.Action.{Error, Result, ok, err, or_throw, attempt, truthy, world_after}
use meduman_backend.Store.Keeps.{
  Keeps, Keeps-pure, Keeps-or_throw, Keeps-if, Keeps-attempt, Keeps-select, Keeps-bind,
}
use meduman_backend.Transactions.Apply.{refused}
use meduman_backend.Paystack.{Transfer, Provider, initiate_transfer, verify_transfer}
use meduman_backend.Payouts.{
  release_idempotency_key, has_key, new_payout, authorize_payout, is_success, mark_sent,
  record_transfer_sent, recipient_of, no_destination, note_failure, give_up, adopt, after_send,
  post_transfer, send_transfer, execute_release,
}
use meduman_backend.Payouts.Release.{
  release_guarded, release_runs, authorize_existing, authorize_new,
}

-- The guard at the head of `sendTransfer`.
abbrev pub is_sent : Payout → Bool
is_sent p = is_success p.status || is_some (truthy p.provider_transfer_code)

-- A key has at most one payout.
abbrev pub AtMostOne : String → World → Type 0
AtMostOne key w = count (has_key key) w.payouts ≤ 1

-- How many payouts a key has.
abbrev pub HasCount : String → ℕ → World → Type 0
HasCount key n w = count (has_key key) w.payouts ≡ n

module _ (provider : Provider) where
  -- Sending touches no transaction and no dispute.
  pub send_transfer-transactions :
      (p : Payout) (reference : Option String) (w : World)
      → (world_after (send_transfer provider p reference) w).transactions ≡ w.transactions
  unfolding send_transfer post_transfer record_transfer_sent initiate_transfer verify_transfer
      give_up
  send_transfer-transactions p reference w = ground arith

  pub send_transfer-disputes :
      (p : Payout) (reference : Option String) (w : World)
      → (world_after (send_transfer provider p reference) w).disputes ≡ w.disputes
  unfolding send_transfer post_transfer record_transfer_sent initiate_transfer verify_transfer
      give_up
  send_transfer-disputes p reference w = ground arith

  -- The writes of a send leave the key of every payout alone.
  count_keys_sent :
      (key own code reference : String) (xs : List Payout)
      → count (has_key key) (update_many (has_key own) (mark_sent code reference) xs)
        ≡ count (has_key key) xs
  count_keys_sent key own code reference xs =
      count-update_many (has_key key) (has_key own) (mark_sent code reference) xs (λ a. refl)

  count_keys_noted :
      (key own : String) (e : Error) (xs : List Payout)
      → count (has_key key) (update_many (has_key own) (note_failure e) xs) ≡ count (has_key key) xs
  count_keys_noted key own e xs =
      count-update_many (has_key key) (has_key own) (note_failure e) xs (λ a. refl)

  record_transfer_sent-Keeps :
      (key : String) (n : ℕ) (p : Payout) (code reference : String)
      → Keeps (HasCount key n) (record_transfer_sent p code reference)
  unfolding record_transfer_sent
  record_transfer_sent-Keeps key n p code reference = record {
    at = λ w h. ground (arith, h, count_keys_sent key p.idempotency_key code reference w.payouts);
  }

  give_up-Keeps :
      (key : String) (n : ℕ) (p : Payout) (e : Error) → Keeps (HasCount key n) (give_up p e)
  unfolding give_up
  give_up-Keeps key n p e = record {
    at = λ w h. ground (arith, h, count_keys_noted key p.idempotency_key e w.payouts);
  }

  post_transfer-Keeps :
      (key : String) (n : ℕ) (p : Payout) (recipient reference : String)
      → Keeps (HasCount key n) (post_transfer provider p recipient reference)
  unfolding post_transfer initiate_transfer
  post_transfer-Keeps key n p recipient reference =
      Keeps-bind _ _ (record { at = λ w h. h })
        (λ t. record_transfer_sent-Keeps key n p t.transfer_code reference)

  after_send-Keeps :
      (key : String) (n : ℕ) (p : Payout) (reference : String) (r : Result Payout)
      → Keeps (HasCount key n) (after_send provider p reference r)
  unfolding verify_transfer
  after_send-Keeps key n p reference (ok done) = Keeps-pure done
  after_send-Keeps key n p reference (err e) =
      Keeps-bind (verify_transfer provider reference) _ (record { at = λ w h. h })
        (λ existing. adopted existing)
    where
      adopted : (o : Option Transfer) → Keeps (HasCount key n) (adopt p reference e o)
      adopted none = give_up-Keeps key n p e
      adopted (some t) = record_transfer_sent-Keeps key n p t.transfer_code reference

  pub send_transfer-Keeps :
      (key : String) (n : ℕ) (p : Payout) (reference : Option String)
      → Keeps (HasCount key n) (send_transfer provider p reference)
  unfolding send_transfer
  send_transfer-Keeps key n p reference = Keeps-if (is_sent p) _ _ (Keeps-pure p) (
      Keeps-bind _ _ (Keeps-select seller_table _) (λ profile.
        Keeps-bind (or_throw (recipient_of profile) (no_destination p)) _ (Keeps-or_throw _ _)
          (λ recipient.
            Keeps-bind
              (attempt (post_transfer provider p recipient (or_else reference p.idempotency_key))) _
              (Keeps-attempt _ (post_transfer-Keeps key n p recipient _))
              (λ tried. after_send-Keeps key n p (or_else reference p.idempotency_key) tried))))

  send_transfer-AtMostOne :
      (key : String) (p : Payout) (reference : Option String)
      → Keeps (AtMostOne key) (send_transfer provider p reference)
  send_transfer-AtMostOne key p reference = record {
    at = λ w h.
        subst (λ n. n ≤ 1)
          (sym ((send_transfer-Keeps key (count (has_key key) w.payouts) p reference).at w refl)) h;
  }

pub authorize_payout-Keeps :
    (key : String) (tx : Transaction) → Keeps (AtMostOne key) (authorize_payout tx)
unfolding count new_payout
authorize_payout-Keeps key tx = record {
  at = λ w h. elim (Option-cases (find_first (has_key (release_idempotency_key tx.id)) w.payouts)) [
    | inr (p, e) ↦ rw (authorize_existing tx p w e) h
    | inl e ↦ rw (authorize_new tx w e) (elim (Bool-cases (release_idempotency_key tx.id === key)) [
      | inr other_key ↦ ground arith
      | inl same ↦
          ground (arith, only_one ((eq_iff (release_idempotency_key tx.id) key).0 same) w e)
    ])
  ];
}
  where
    only_one :
        release_idempotency_key tx.id ≡ key
        → (w : World) → find_first (has_key (release_idempotency_key tx.id)) w.payouts ≡ none
        → count (has_key key) w.payouts ≡ 0
    only_one same w e = count-find_none (has_key key) w.payouts (rw same at e)

module _ (provider : Provider) where
  pub execute_release-Keeps :
      (key id : String) → Keeps (AtMostOne key) (execute_release provider id)
  execute_release-Keeps key id = record {
    at = λ w h. elim (release_guarded provider id w) [
      | inr (e, refused) ↦ rw refused h
      | inl may ↦ rw (release_runs provider id w may) (
          (Keeps-bind (authorize_payout may.tx) _ (authorize_payout-Keeps key may.tx)
              (λ p. send_transfer-AtMostOne provider key p none)).at
            w h)
    ];
  }
