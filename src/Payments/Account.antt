-- ===== src/Payments/Account.antt =====
-- `initializeVirtualAccount` of payments.service.ts, asked twice.
use mathlib.Core.Option
use meduman_backend.Prelude.{
  if◌then◌else◌, Option-cases, is_some, String, ◌≡◌, refl, sym, ap, ◌∙◌, subst, ◌≢◌, inl, inr, Bool,
  true, Option, none, some, List, arith, eq_iff, eq_refl,
}
use meduman_backend.Store.Rows.{Transaction}
use meduman_backend.Store.World.{World, transaction_table}
use meduman_backend.Store.Table.{find_first, update_many, find_first-where, find_first-update_many}
use meduman_backend.Store.Action.{Result, ok, update, truthy, world_after, result_of, Result-cases}
use meduman_backend.Store.Keeps.{Keeps, Keeps-pure, Keeps-when, Keeps-bind, Keeps-seq}
use meduman_backend.Transactions.{ApplyTransitionInput, has_id, in_state, move_to, apply}
use meduman_backend.Transactions.Apply.{apply_error_unchanged, Applied, refused, apply-Applied}
use meduman_backend.Paystack.{Provider, create_customer, create_dedicated_account}
use meduman_backend.Payments.Collect.{
  InitializeVirtualAccountInput, VirtualAccountView, checkout_transition, set_buyer, link_buyer,
  hosted_payment, account_payment, view_account, reusable, open_account, initialize_virtual_account,
}

-- The account that the row keeps of an answer: an empty text is not stored.
abbrev pub stored_view : VirtualAccountView → VirtualAccountView
stored_view v = record v {
  account_number = truthy v.account_number;
  bank_name = truthy v.bank_name;
}

-- The account that a payment waiting for its transfer would answer with.
abbrev pub waiting_account : String → World → Option VirtualAccountView
waiting_account id w = Option.map view_account (find_first (reusable id) w.payments)

abbrev has_transaction : String → World → Bool
has_transaction id w = is_some (find_first (has_id id) w.transactions)

is_some-update_many :
    (q p : Transaction → Bool) (f : Transaction → Transaction) (xs : List Transaction)
    → ((a : Transaction) → q (f a) ≡ q a)
    → is_some (find_first q xs) ≡ true
    → is_some (find_first q (update_many p f xs)) ≡ true
is_some-update_many q p f xs same h =
    rw (find_first-update_many q p f xs same) (is_some-map (find_first q xs) h)
  where
    is_some-map :
        (o : Option Transaction)
        → is_some o ≡ true
        → is_some (Option.map (λ a. if p a then f a else a) o) ≡ true
    is_some-map none h = h
    is_some-map (some a) h = refl

-- The same account, where an empty text counts as absent.
abbrev pub SameAccount : VirtualAccountView → VirtualAccountView → Type 0
SameAccount u v =
    (u.payment_id ≡ v.payment_id)
    × (truthy u.account_number ≡ truthy v.account_number)
    × (truthy u.bank_name ≡ truthy v.bank_name)

module _ (id : String) where
  apply-Keeps :
      (input : ApplyTransitionInput) → Keeps (λ w. has_transaction id w ≡ true) (apply input)
  apply-Keeps input = record {
    at = λ w h. elim (Result-cases (result_of (apply input) w)) [
      | inl (row, moved) ↦ moved_keeps w row (apply-Applied input w row moved) h
      | inr (e, refused) ↦ rw (apply_error_unchanged input w e refused) h
    ];
  }
    where
      moved_keeps :
          (w : World) (row : Transaction)
          → Applied input w row (world_after (apply input) w)
          → has_transaction id w ≡ true
          → has_transaction id (world_after (apply input) w) ≡ true
      moved_keeps w row done h =
          let (outbound, drawn, jobs, written) = done.written in
          rw (ap (λ (v : World). v.transactions) written) (
            is_some-update_many (has_id id) (in_state input.transaction_id done.tx.status)
              (move_to done.next_state) w.transactions (λ a. refl) h)

  link_buyer-Keeps :
      (tx : Transaction) (buyer_id : String)
      → Keeps (λ w. has_transaction id w ≡ true) (link_buyer tx buyer_id)
  unfolding link_buyer find_first
  link_buyer-Keeps tx buyer_id = Keeps-when _ _ (
      Keeps-bind (update transaction_table (has_id tx.id) (set_buyer buyer_id)) _
        (record {
          at = λ w h. elim (Option-cases (find_first (has_id tx.id) w.transactions)) [
            | inl gone ↦ rw gone h
            | inr (row, here) ↦ rw here (
                is_some-update_many (has_id id) (has_id tx.id) (set_buyer buyer_id) w.transactions
                  (λ a. refl) h)
          ];
        })
        (λ a. Keeps-pure tt))

module _ (provider : Provider) where
  open_account-waiting :
      (tx : Transaction) (input : InitializeVirtualAccountInput) (w : World)
      (v : VirtualAccountView)
      → result_of (open_account provider tx input) w ≡ ok v
      → waiting_account tx.id (world_after (open_account provider tx input) w)
        ≡ some (stored_view v)
  unfolding open_account create_customer create_dedicated_account account_payment hosted_payment
      find_first
  open_account-waiting tx input w v h = ground (arith, eq_refl tx.id)

  open_account-Keeps :
      (id : String) (tx : Transaction) (input : InitializeVirtualAccountInput)
      → Keeps (λ w. has_transaction id w ≡ true) (open_account provider tx input)
  unfolding open_account create_customer create_dedicated_account
  open_account-Keeps id tx input =
      Keeps-seq (apply (checkout_transition tx.id input.buyer_id)) _ (apply-Keeps id _) (
        Keeps-seq (link_buyer tx input.buyer_id) _ (link_buyer-Keeps id tx input.buyer_id)
          (record { at = λ w h. ground (arith, h) }))

  -- What a call answers where an account waits for its transfer.
  waiting_answers :
      (input : InitializeVirtualAccountInput) (w : World) (u : VirtualAccountView)
      → has_transaction input.transaction_id w ≡ true
      → waiting_account input.transaction_id w ≡ some u
      → initialize_virtual_account provider input w ≡ (ok u, w)
  unfolding initialize_virtual_account
  waiting_answers input w u known waits =
      elim (Option-cases (find_first (has_id input.transaction_id) w.transactions)) [
        | inl none_ ↦ ground arith
        | inr (tx, found) ↦
            let e =
              (eq_iff tx.id input.transaction_id).0
                (find_first-where (has_id input.transaction_id) w.transactions found) in
            rw found (rw e (ground arith))
      ]

  fresh_lem :
      (input : InitializeVirtualAccountInput) (w : World) (tx : Transaction)
      → find_first (has_id input.transaction_id) w.transactions ≡ some tx
      → waiting_account tx.id w ≡ none
      → initialize_virtual_account provider input w ≡ open_account provider tx input w
  unfolding initialize_virtual_account
  fresh_lem input w tx found waits = rw found (ground arith)

  truthy_twice : (o : Option String) → truthy (truthy o) ≡ truthy o
  truthy_twice o = ground arith

  no_transaction :
      (input : InitializeVirtualAccountInput) (w : World) (v : VirtualAccountView)
      → find_first (has_id input.transaction_id) w.transactions ≡ none
      → result_of (initialize_virtual_account provider input) w ≢ ok v
  unfolding initialize_virtual_account
  no_transaction input w v gone h = ground (arith, h, gone)

  -- The outcome of a call, after which the next one answers with the account of `v`.
  abbrev AnswersAgain :
      InitializeVirtualAccountInput
      → VirtualAccountView
      → Result VirtualAccountView × World
      → Type 0
  AnswersAgain input v outcome =
      (u : VirtualAccountView) × (initialize_virtual_account provider input outcome.1
        ≡ (ok u, outcome.1))
      × SameAccount u v

  -- A call that answered with an account, made again, answers with the same account and changes nothing: the
  -- transaction is not moved again and no second account is opened.
  pub initialize_virtual_account_twice :
      (input : InitializeVirtualAccountInput) (w : World) (v : VirtualAccountView)
      → result_of (initialize_virtual_account provider input) w ≡ ok v
      → let w' = world_after (initialize_virtual_account provider input) w in
        (u : VirtualAccountView) × (initialize_virtual_account provider input w' ≡ (ok u, w'))
        × SameAccount u v
  initialize_virtual_account_twice input w v h =
      elim (Option-cases (find_first (has_id input.transaction_id) w.transactions)) [
        | inl gone ↦ absurd (no_transaction input w v gone h)
        | inr (tx, found) ↦ known tx found (
            (eq_iff tx.id input.transaction_id).0
              (find_first-where (has_id input.transaction_id) w.transactions found))
      ]
    where
      known :
          (tx : Transaction)
          → find_first (has_id input.transaction_id) w.transactions ≡ some tx
          → tx.id ≡ input.transaction_id
          → AnswersAgain input v (initialize_virtual_account provider input w)
      known tx found e = elim (Option-cases (waiting_account input.transaction_id w)) [
        | inr (u, waits) ↦
            let again = waiting_answers input w u (rw found refl) waits in
            let same : u ≡ v = cc (again, h) in
            subst (AnswersAgain input v) (sym again)
              (u, again, subst (λ a. SameAccount a v) (sym same) (refl, refl, refl))
        | inl nothing ↦
            let opened = fresh_lem input w tx found (rw e nothing) in
            subst (AnswersAgain input v) (sym opened) (
              stored_view v,
              waiting_answers input (world_after (open_account provider tx input) w) (stored_view v)
                  ((open_account-Keeps input.transaction_id tx input).at w (rw found refl))
                  (subst
                    (λ id.
                      waiting_account id (world_after (open_account provider tx input) w)
                      ≡ some (stored_view v))
                    e
                    (open_account-waiting tx input w v
                      (ap (λ (r : Result VirtualAccountView × World). r.0) (sym opened) ∙ h))),
              (refl, truthy_twice v.account_number, truthy_twice v.bank_name),
            )
      ]
