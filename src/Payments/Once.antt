-- ===== src/Payments/Once.antt =====
-- `resolveDvaPayment` of payments.service.ts against the unique column `providerChargeReference`.
use meduman_backend.Prelude.{
  ◌==◌, Bool-cases, ◌===◌, ◌≤◌, String, ◌≡◌, refl, sym, ap, subst, inl, inr, false, Option, none,
  some, List, [], ◌∷◌, arith, eq_iff,
}
use meduman_backend.Store.Rows.{Payment}
use meduman_backend.Store.World.{World}
use meduman_backend.Store.Table.{find_first, count, update_many, count-find_none}
use meduman_backend.Store.Action.{Result, ok, world_after, result_of}
use meduman_backend.Payments.{
  has_payment_id, has_charge_reference, of_customer, unbound, bind_charge, bind_newest, bind_unless,
  resolve_dva_payment,
}

-- A charge of Paystack's is bound to one payment at most.
abbrev pub BoundOnce : String → World → Type 0
BoundOnce reference w = count (has_charge_reference reference) w.payments ≤ 1

-- Binding a charge that no payment has gives it to no more rows than have the id.
count_fresh :
    (id reference : String) (xs : List Payment)
    → count (has_charge_reference reference) xs ≡ 0
    → count (has_charge_reference reference) (update_many (unbound id) (bind_charge reference) xs)
      ≤ count (has_payment_id id) xs
unfolding count update_many
count_fresh id reference [] h = ground arith
count_fresh id reference (p ∷ ps) h = ground (arith, count_fresh id reference ps)

-- Other charges stay with their payments.
count_other :
    (id reference other : String) (xs : List Payment)
    → (reference === other) ≡ false
    → count (has_charge_reference other) (update_many (unbound id) (bind_charge reference) xs)
      ≡ count (has_charge_reference other) xs
unfolding count update_many
count_other id reference other [] h = refl
count_other id reference other (p ∷ ps) h = ground (arith, count_other id reference other ps h)

count_bound :
    (id reference other : String) (xs : List Payment)
    → count (has_charge_reference reference) xs ≡ 0
    → count (has_payment_id id) xs ≤ 1
    → count (has_charge_reference other) xs ≤ 1
    → count (has_charge_reference other) (update_many (unbound id) (bind_charge reference) xs) ≤ 1
count_bound id reference other xs fresh one before = elim (Bool-cases (reference === other)) [
  | inl same ↦
      subst
        (λ r.
          count (has_charge_reference r) (update_many (unbound id) (bind_charge reference) xs) ≤ 1)
        ((eq_iff reference other).0 same) (omega (arith, count_fresh id reference xs fresh, one))
  | inr differs ↦ rw (count_other id reference other xs differs) before
]

-- Where ids are unique, binding an inbound charge leaves every charge bound to one payment at most, so the unique
-- column never refuses it, and it never throws.
pub resolve_dva_payment-BoundOnce :
    (customer_code reference other : String) (w : World)
    → ((id : String) → count (has_payment_id id) w.payments ≤ 1)
    → BoundOnce other w
    → BoundOnce other (world_after (resolve_dva_payment customer_code reference) w)
      × ((o : Option Payment) × (result_of (resolve_dva_payment customer_code reference) w ≡ ok o))
unfolding resolve_dva_payment
resolve_dva_payment-BoundOnce customer_code reference other w ids before =
    unless (find_first (has_charge_reference reference) w.payments) refl
  where
    bound : Payment → List Payment
    bound p = update_many (unbound p.id) (bind_charge reference) w.payments

    told :
        (p : Payment) (r : Option Payment)
        → count (has_charge_reference other) (bound p) ≤ 1
        → bind_newest reference (some p) w ≡ (ok r, record w { payments = bound p })
        → BoundOnce other (world_after (bind_newest reference (some p)) w)
          × ((r : Option Payment) × (result_of (bind_newest reference (some p)) w ≡ ok r))
    told p r kept e = (
      subst (λ (o : Result (Option Payment) × World). BoundOnce other o.1) (sym e) kept,
      (r, ap (λ (o : Result (Option Payment) × World). o.0) e),
    )

    newest :
        (o : Option Payment)
        → find_first (has_charge_reference reference) w.payments ≡ none
        → BoundOnce other (world_after (bind_newest reference o) w)
          × ((r : Option Payment) × (result_of (bind_newest reference o) w ≡ ok r))
    newest none fresh = (before, (none, refl))
    newest (some p) fresh =
        let kept =
          count_bound p.id reference other w.payments (count-find_none _ w.payments fresh)
            (ids p.id) before in
        elim (Bool-cases (count (unbound p.id) w.payments == 1)) [
          | inl one ↦ told p (find_first (has_payment_id p.id) (bound p)) kept (rw one refl)
          | inr lost ↦
              told p (find_first (has_charge_reference reference) (bound p)) kept (rw lost refl)
        ]

    unless :
        (o : Option Payment)
        → find_first (has_charge_reference reference) w.payments ≡ o
        → BoundOnce other (world_after (bind_unless customer_code reference o) w)
          × ((r : Option Payment) × (result_of (bind_unless customer_code reference o) w ≡ ok r))
    unless (some p) e = (before, (some p, refl))
    unless none e = newest (find_first (of_customer customer_code) w.payments) e
