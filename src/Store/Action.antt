-- ===== src/Store/Action.antt =====
-- A method of a service: it reads and writes the world, and returns or throws. What was written
-- before a throw stays written, so the world comes back beside the error too; `transact` is
-- `prisma.$transaction`, which takes the writes back.
use meduman_backend.Prelude.{
  if◌then◌else◌, ◌===◌, concat, ℕ, ◌+◌, String, ◌≡◌, refl, ap, ◌∙◌, ◌⊎◌, inl, inr, Bool, true,
  false, not, Option, none, some, List, [], ◌∷◌, arith,
}
use meduman_backend.Prelude.Int.{ℤ, kobo}
use meduman_backend.Store.Enums.{TransactionStatus, status_name}
use meduman_backend.Store.ChatRows.{
  ChatLinkConflictReason, seller_profile_conflict, self_transaction_conflict,
}
use meduman_backend.Store.World.{Job, World, TableOf}
use meduman_backend.Store.Table.{find_first, find_many, count, update_many}

-- Why the state machine refused (state-machine/reasons.ts).
pub data RejectionReason : Type 0 where
  terminal_state illegal_transition client_source_forbidden dispute_open : RejectionReason
  release_rule_forbids_auto_confirm auto_confirm_window_not_elapsed : RejectionReason

-- Why a code was refused (otp/otp.errors.ts).
pub data OtpFailureReason : Type 0 where
  no_active_code code_expired locked mismatch : OtpFailureReason

-- The exceptions, with their messages; `plain` is an `Error` that is no HTTP exception and `unique`
-- the database's P2002.
pub data Error : Type 0 where
  not_found bad_request forbidden conflict unprocessable : String → Error
  unauthorized bad_gateway plain unique : String → Error
  transition_rejected : RejectionReason → String → Error
  amount_mismatch : (reference : String) (expected actual : ℤ) → Error
  otp_verification : OtpFailureReason → Error
  otp_not_issuable : TransactionStatus → Error
  link_merge_collision : ChatLinkConflictReason → Error
  link_merge_in_flight : Error

pub data Result (A : Type 0) : Type 0 where
  ok : A → Result A
  err : Error → Result A

abbrev pub Action : Type 0 → Type 0
Action A = World → Result A × World

module _ {A : Type 0} where
  abbrev pub pure : A → Action A
  pure a w = (ok a, w)

  abbrev pub throw : Error → Action A
  throw e w = (err e, w)

  abbrev pub gets : (World → A) → Action A
  gets f w = (ok (f w), w)

  -- `if (!x) throw e`
  abbrev pub or_throw : Option A → Error → Action A
  or_throw none e w = (err e, w)
  or_throw (some a) e w = (ok a, w)

  -- `prisma.$transaction`: a throw takes back what was written in it.
  abbrev pub transact : Action A → Action A
  transact m w = let (r, w') = m w in elim r [ ok a ↦ (ok a, w') | err e ↦ (err e, w) ]

abbrev pub continue : {A B : Type 0} → Result A → (A → Action B) → World → Result B × World
continue (ok a) f w = f a w
continue (err e) f w = (err e, w)

infixl 5 ◌>>=◌ ◌>>◌
abbrev pub ◌>>=◌ : {A B : Type 0} → Action A → (A → Action B) → Action B
◌>>=◌ m f w = let (r, w') = m w in continue r f w'

abbrev pub ◌>>◌ : {A B : Type 0} → Action A → Action B → Action B
m >> k = m >>= λ _. k

-- `if (test) throw e`
abbrev pub throw_if : Bool → Error → Action (Unit {0})
throw_if b e w = (if b then err e else ok tt, w)

abbrev pub when : Bool → Action (Unit {0}) → Action (Unit {0})
when b m = if b then m else pure tt

-- An identifier that nobody has seen: `uuid()` in the schema and `randomUUID()`.
abbrev pub draw : Action String
draw w = (ok (w.uuid w.drawn), record w { drawn = w.drawn + 1 })

-- `queue.add`
abbrev pub enqueue : Job → Action (Unit {0})
enqueue job w = elim w.queue_error [
  | none ↦ (ok tt, record w { jobs = job ∷ w.jobs })
  | some m ↦ (err (plain m), w)
]

module _ {A : Type 0} (t : TableOf A) where
  -- `findUnique`, and `findFirst` with the newest row first.
  abbrev pub select : (A → Bool) → Action (Option A)
  select where_ w = (ok (find_first where_ (t.rows w)), w)

  abbrev pub select_many : (A → Bool) → Action (List A)
  select_many where_ w = (ok (find_many where_ (t.rows w)), w)

  abbrev pub select_count : (A → Bool) → Action ℕ
  select_count where_ w = (ok (count where_ (t.rows w)), w)

  -- `create`
  abbrev pub insert : A → Action A
  insert row w = (ok row, t.put (row ∷ t.rows w) w)

  -- `create` in a table with a unique column, on which the row may clash with one that is there.
  abbrev pub insert_unique : (A → Bool) → A → Action A
  insert_unique clashes row w = elim (find_first clashes (t.rows w)) [
    | none ↦ (ok row, t.put (row ∷ t.rows w) w)
    | some old ↦ (err (unique "P2002"), w)
  ]

  -- `updateMany`: how many rows matched.
  abbrev pub update_rows : (A → Bool) → (A → A) → Action ℕ
  update_rows where_ change w =
      (ok (count where_ (t.rows w)), t.put (update_many where_ change (t.rows w)) w)

  -- `update` of the row that was just read: it throws where the row is gone.
  abbrev pub update : (A → Bool) → (A → A) → Action A
  update where_ change w = elim (find_first where_ (t.rows w)) [
    | none ↦ (err (plain "Record to update not found."), w)
    | some row ↦ (ok (change row), t.put (update_many where_ change (t.rows w)) w)
  ]

  -- `delete` of the row with a unique column: it throws where the row is gone.
  abbrev pub delete : (A → Bool) → Action (Unit {0})
  delete where_ w = elim (find_first where_ (t.rows w)) [
    | none ↦ (err (plain "Record to delete does not exist."), w)
    | some row ↦ (ok tt, t.put (find_many (λ a. not (where_ a)) (t.rows w)) w)
  ]

conflict_name : ChatLinkConflictReason → String
conflict_name seller_profile_conflict = "SELLER_PROFILE_CONFLICT"
conflict_name self_transaction_conflict = "SELF_TRANSACTION_CONFLICT"

-- `err.message`
unfoldable pub message : Error → String
unfolding status_name conflict_name
message (not_found m) = m
message (bad_request m) = m
message (forbidden m) = m
message (conflict m) = m
message (unprocessable m) = m
message (unauthorized m) = m
message (bad_gateway m) = m
message (plain m) = m
message (unique m) = m
message (transition_rejected r m) = m
message (amount_mismatch reference expected actual) = concat (
    "Payment "
    ∷ reference
    ∷ " amount mismatch: expected "
    ∷ kobo expected
    ∷ " kobo, got "
    ∷ kobo actual
    ∷ " kobo"
    ∷ [])
message (otp_verification r) = "Invalid or expired code"
message (otp_not_issuable s) =
    concat ("Cannot issue a confirmation code while transaction is " ∷ status_name s ∷ [])
message (link_merge_collision k) = concat ("Account merge refused: " ∷ conflict_name k ∷ [])
message link_merge_in_flight = "Account merge refused: a payout is in flight"

-- `await this.x()` where only the effect matters, and a `try` that swallows the error.
abbrev pub attempt : {A : Type 0} → Action A → Action (Result A)
attempt m w = let (r, w') = m w in (ok r, w')

-- `x ? x : …` on a text: the empty text counts as absent.
abbrev pub truthy : Option String → Option String
truthy none = none
truthy (some s) = if s === "" then none else some s

-- `a === b` on a nullable text
abbrev pub same_text? : Option String → Option String → Bool
same_text? none none = true
same_text? (some a) (some b) = a === b
same_text? _ _ = false

-- What an action leaves of the world, and what it returned.
abbrev pub world_after : {A : Type 0} → Action A → World → World
world_after m w = (m w).1

abbrev pub result_of : {A : Type 0} → Action A → World → Result A
result_of m w = (m w).0

module _ {A B : Type 0} where
  -- The rest of a `do` block after a step whose outcome is known.
  pub bind_ok :
      (m : Action A) (f : A → Action B) {w : World} {a : A} {w' : World}
      → m w ≡ (ok a, w')
      → (m >>= f) w ≡ f a w'
  bind_ok m f h = ap (λ (p : Result A × World). continue p.0 f p.1) h

  pub bind_err :
      (m : Action A) (f : A → Action B) {w : World} {e : Error} {w' : World}
      → m w ≡ (err e, w')
      → (m >>= f) w ≡ (err e, w')
  bind_err m f h = ap (λ (p : Result A × World). continue p.0 f p.1) h

module _ {A : Type 0} where
  abbrev pub settle : World → Result A × World → Result A × World
  settle w (ok a, w') = (ok a, w')
  settle w (err e, w') = (err e, w)

  pub transact_lem : (m : Action A) (w : World) → transact m w ≡ settle w (m w)
  transact_lem m w = ground arith

  pub transact_ok :
      (m : Action A) {w : World} {a : A} {w' : World} → m w ≡ (ok a, w') → transact m w ≡ (ok a, w')
  transact_ok m {w} h = transact_lem m w ∙ ap (settle w) h

  -- A transaction that returned has done what its body does.
  pub transact_returns :
      (m : Action A) (w : World) (a : A)
      → result_of (transact m) w ≡ ok a
      → (result_of m w ≡ ok a) × (transact m w ≡ m w)
  transact_returns m w a h = (ground arith, ground arith)

  -- A transaction that threw has written nothing.
  pub transact_throws :
      (m : Action A) (w : World) (e : Error)
      → result_of (transact m) w ≡ err e
      → world_after (transact m) w ≡ w
  transact_throws m w e h = ground arith

  pub Result-cases : (r : Result A) → ((a : A) × (r ≡ ok a)) ⊎ ((e : Error) × (r ≡ err e))
  Result-cases (ok a) = inl (a, refl)
  Result-cases (err e) = inr (e, refl)

module _ {A B : Type 0} where
  -- A `do` block that returned got an answer from its first step.
  pub bind_returns :
      (m : Action A) (f : A → Action B) (w : World) (b : B)
      → result_of (m >>= f) w ≡ ok b
      → (a : A) × (result_of m w ≡ ok a) × ((m >>= f) w ≡ f a (world_after m w))
  bind_returns m f w b h = elim (Result-cases (result_of m w)) [
    | inl (a, e) ↦ (a, e, ap (λ r. continue r f (m w).1) e)
    | inr (e, refused) ↦ cc
  ]
