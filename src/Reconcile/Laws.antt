-- ===== src/Reconcile/Laws.antt =====
-- The scan of payment-reconcile.service.ts: it always returns, and moves money only on Paystack's word.
use mathlib.Core.Option
use mathlib.Core.Option.{some-injective}
use mathlib.Core.List.{reverse}
use meduman_backend.Prelude.{
  Bool-cases, Option-cases, or_else, length, any, take, length-take_le, ℕ, ◌+◌, ◌≤◌, String, ◌≡◌,
  refl, sym, ap, ◌∙◌, subst, ◌⊎◌, inl, inr, true, Option, none, some, List, [], ◌∷◌, arith, eq_iff,
}
use meduman_backend.Store.Rows.{Payment}
use meduman_backend.Store.World.{World}
use meduman_backend.Store.Table.{find_first, find_many, find_first-where}
use meduman_backend.Store.Action.{Result, ok, pure, world_after, result_of, bind_ok}
use meduman_backend.Paystack.{Provider}
use meduman_backend.Payments.{
  by_server_verify, has_payment_id, is_pending, verify_and_protect_payment, reconcile_payment,
}
use meduman_backend.Payments.Verified.{IsVerified, unsettled, SamePayments, protect_or_frame}
use meduman_backend.Reconcile.{
  is_stranded_charge, reached_success, reconcile_one, reconcile_all, reconcile_pending,
}

-- The payments that a scan takes
abbrev pub taken : (threshold_ms now : ℕ) → World → List Payment
taken threshold_ms now w =
    take 100 (reverse (find_many (is_stranded_charge threshold_ms now) w.payments))

-- What changes neither a transaction, nor a timeline, nor a payment but in its status.
abbrev Kept : World → World → Type 0
Kept w w' = (w'.transactions ≡ w.transactions) × (w'.timeline ≡ w.timeline) × SamePayments w w'

Kept-trans : (u v w : World) → Kept u v → Kept v w → Kept u w
Kept-trans u v w (t, l, p) (t', l', p') = (t' ∙ t, l' ∙ l, λ id. p' id ∙ p id)

-- The reference that a payment is verified under
abbrev pub verify_reference : Payment → String
verify_reference p = or_else p.provider_charge_reference p.provider_reference

-- A payment of the database that the list names, and that Paystack reports as paid in full.
pub record VerifiedOf (provider : Provider) (scanned : List Payment) (w : World) : Type 0 where
  pub payment : Payment
  pub found : find_first (has_payment_id payment.id) w.payments ≡ some payment
  pub named : any (has_payment_id payment.id) scanned ≡ true
  pub verified : IsVerified provider (verify_reference payment) payment

module _ (provider : Provider) where
  reconciles :
      (id : String) (p : Payment) (w : World)
      → find_first (has_payment_id id) w.payments ≡ some p
      → is_pending p.status ≡ true
      → reconcile_payment provider id w
        ≡ verify_and_protect_payment provider p (verify_reference p) by_server_verify w
  unfolding reconcile_payment find_first
  reconciles id p w found pending = rw (found, pending) refl

  reconcile_payment_or_Kept :
      (id : String) (w : World)
      → ((p : Payment) × (find_first (has_payment_id id) w.payments ≡ some p)
          × IsVerified provider (verify_reference p) p)
        ⊎ Kept w (world_after (reconcile_payment provider id) w)
  unfolding reconcile_payment find_first
  reconcile_payment_or_Kept id w = elim (Option-cases (find_first (has_payment_id id) w.payments)) [
    | inl none_ ↦ inr (rw none_ (refl, refl, λ i. refl))
    | inr (p, found) ↦ elim (Bool-cases (is_pending p.status)) [
      | inr settled ↦ inr (rw (found, settled) (refl, refl, λ i. refl))
      | inl pending ↦ elim (protect_or_frame provider p (verify_reference p) by_server_verify w) [
        | inl (open_, verified) ↦ inl (p, found, verified)
        | inr kept ↦ inr (
            subst (λ (r : Result Payment × World). Kept w r.1)
              (sym (reconciles id p w found pending)) kept)
      ]
    ]
  ]

  -- The row that a later turn finds is that of the first world, but for its status.
  found_first :
      (q p : Payment) (rest : List Payment) (w0 w : World)
      → SamePayments w0 w
      → find_first (has_payment_id q.id) w.payments ≡ some p
      → IsVerified provider (verify_reference p) p
      → VerifiedOf provider (q ∷ rest) w0
  found_first q p rest w0 w same found verified =
      go (find_first (has_payment_id q.id) w0.payments) refl
        (sym (same q.id) ∙ ap (Option.map unsettled) found)
    where
      go :
          (o : Option Payment)
          → find_first (has_payment_id q.id) w0.payments ≡ o
          → Option.map unsettled o ≡ some (unsettled p)
          → VerifiedOf provider (q ∷ rest) w0
      go none e key = absurd (ground (arith, key))
      go (some p0) e key =
          let own : p0.id ≡ q.id =
            (eq_iff p0.id q.id).0 (find_first-where (has_payment_id q.id) w0.payments e) in
          record {
            payment = p0;
            found = subst (λ i. find_first (has_payment_id i) w0.payments ≡ some p0) (sym own) e;
            named = ground (arith, (eq_iff q.id p0.id).1 (sym own));
            verified =
                subst (λ a. IsVerified provider (verify_reference a) a)
                  (sym (some-injective _ _ key)) verified;
          }

  abbrev Scanned : List Payment → World → World → World → Type 0
  Scanned ps w0 w w' = VerifiedOf provider ps w0 ⊎ Kept w w'

  reached_le : (r : Result Payment) → reached_success r ≤ 1
  reached_le r = ground arith

  reconcile_all_lem :
      (ps : List Payment) (w0 w : World)
      → SamePayments w0 w
      → (n : ℕ) × (w' : World) × (reconcile_all provider ps w ≡ (ok n, w'))
        × (n ≤ length ps)
        × Scanned ps w0 w w'
  unfolding reconcile_all reconcile_one
  reconcile_all_lem [] w0 w same = (0, w, refl, omega arith, inr (refl, refl, λ id. refl))
  reconcile_all_lem (q ∷ ps) w0 w same = elim (reconcile_payment_or_Kept q.id w) [
    | inl (p, found, verified) ↦
        counted w1 (reconcile_all_lem ps w1 w1 (λ id. refl))
          (λ w' scanned. inl (found_first q p ps w0 w same found verified))
    | inr (t, l, k) ↦
        counted w0 (reconcile_all_lem ps w0 w1 (λ id. k id ∙ same id)) (later (t, l, k))
  ]
    where
      w1 : World
      w1 = world_after (reconcile_payment provider q.id) w

      first : ℕ
      first = reached_success (result_of (reconcile_payment provider q.id) w)

      later : Kept w w1 → (w' : World) → Scanned ps w0 w1 w' → Scanned (q ∷ ps) w0 w w'
      later kept w' (inl v) = inl (record {
        payment = v.payment;
        found = v.found;
        named = ground (arith, v.named);
        verified = v.verified;
      })
      later kept w' (inr more) = inr (Kept-trans w w1 w' kept more)

      counted :
          (v : World)
          → ((n : ℕ) × (w' : World) × (reconcile_all provider ps w1 ≡ (ok n, w'))
              × (n ≤ length ps)
              × Scanned ps v w1 w')
          → ((w' : World) → Scanned ps v w1 w' → Scanned (q ∷ ps) w0 w w')
          → (n : ℕ) × (w' : World) × (reconcile_all provider (q ∷ ps) w ≡ (ok n, w'))
            × (n ≤ length (q ∷ ps))
            × Scanned (q ∷ ps) w0 w w'
      counted v (n, w', ran, le, scanned) further = (
        first + n,
        w',
        bind_ok (reconcile_all provider ps) (λ rest. pure (first + rest)) ran,
        omega (arith, le, reached_le (result_of (reconcile_payment provider q.id) w)),
        further w' scanned,
      )

  -- The scan always returns, whatever is thrown for one payment: it has checked 100 payments at most, and no more
  -- of them than that have reached SUCCESS. It leaves every transaction and every timeline as it was, unless
  -- Paystack reports, for one of the payments taken, a success of exactly its amount.
  pub reconcile_pending_lem :
      (threshold_ms now : ℕ) (w : World)
      → (checked protected_count : ℕ) × (w' : World) × (reconcile_pending provider threshold_ms now
            w
          ≡ (ok (checked, protected_count), w'))
        × (protected_count ≤ checked)
        × (checked ≤ 100)
        × (VerifiedOf provider (taken threshold_ms now w) w
            ⊎ ((w'.transactions ≡ w.transactions) × (w'.timeline ≡ w.timeline)))
  unfolding reconcile_pending
  reconcile_pending_lem threshold_ms now w =
      let (n, w', ran, le, outcome) =
        reconcile_all_lem (taken threshold_ms now w) w w (λ id. refl) in
      (
        length (taken threshold_ms now w),
        n,
        w',
        bind_ok (reconcile_all provider (taken threshold_ms now w))
            (λ k. pure (length (taken threshold_ms now w), k)) ran,
        le,
        length-take_le 100 (reverse (find_many (is_stranded_charge threshold_ms now) w.payments)),
        told w' outcome,
      )
    where
      told :
          (w' : World)
          → Scanned (taken threshold_ms now w) w w w'
          → VerifiedOf provider (taken threshold_ms now w) w
            ⊎ ((w'.transactions ≡ w.transactions) × (w'.timeline ≡ w.timeline))
      told w' (inl v) = inl v
      told w' (inr (t, l, p)) = inr (t, l)
