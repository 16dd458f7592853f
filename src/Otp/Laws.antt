-- ===== src/Otp/Laws.antt =====
-- otp.service.ts: a code passes only while it is the active one, unexpired and not locked; it passes once; and the
-- code that was issued passes.
use mathlib.Core.Option.{some-injective}
use meduman_backend.Prelude.{
  Bool-cases, Option-cases, ℕ, ◌+◌, ◌*◌, ◌≤◌, ◌<◌, String, ◌≡◌, refl, sym, subst, inl, inr, Bool,
  true, false, none, some, List, [], ◌∷◌, arith, eq_iff, eq_refl,
}
use meduman_backend.Store.Enums.{confirmation_pending, OtpPurpose, same_status}
use meduman_backend.Store.Rows.{Transaction, OtpCode}
use meduman_backend.Store.World.{World}
use meduman_backend.Store.Table.{
  find_first, count, update_many, find_first-where, count_pos_of_find, count-update_many_zero,
}
use meduman_backend.Store.Action.{no_active_code, otp_verification, ok, err, world_after, result_of}
use meduman_backend.Transactions.{has_id}
use meduman_backend.Otp.{
  IssueOtpInput, IssueOtpResult, VerifyOtpInput, OtpConfig, is_active, consume,
  generate_numeric_code, unconsumed, fail, consume_code, new_code, issue, verify_active, verify,
}

count-consume_le :
    {A : Type 0} (q p : A → Bool) (f : A → A) (xs : List A)
    → ((b : A) → q (f b) ≡ false)
    → count q (update_many p f xs) ≤ count q xs
unfolding count update_many
count-consume_le q p f [] gone = ground arith
count-consume_le q p f (x' ∷ xs) gone = ground (arith, gone x', count-consume_le q p f xs gone)

first_of :
    {A : Type 0} (q : A → Bool) (x' : A) (xs : List A)
    → q x' ≡ true
    → find_first q (x' ∷ xs) ≡ some x'
unfolding find_first
first_of q x' xs h = rw h refl

count_first :
    {A : Type 0} (q : A → Bool) (x' : A) (xs : List A)
    → q x' ≡ true
    → count q xs ≡ 0
    → count q (x' ∷ xs) ≡ 1
unfolding count
count_first q x' xs h none_left = ground arith

consumed-unconsumed : (id : String) (now : ℕ) (c : OtpCode) → unconsumed id (consume now c) ≡ false
consumed-unconsumed id now c = ground arith

-- Where one row at most is active, consuming the row that was found leaves none.
count-consume_zero :
    {A : Type 0} (q p : A → Bool) (f : A → A) (xs : List A) {a : A}
    → ((b : A) → q (f b) ≡ false)
    → find_first q xs ≡ some a
    → p a ≡ true
    → count q xs ≤ 1
    → count q (update_many p f xs) ≡ 0
unfolding count find_first update_many
count-consume_zero q p f [] gone found hit one = refl
count-consume_zero q p f (x' ∷ xs) {a} gone found hit one = elim (Bool-cases (q x')) [
  | inl here ↦
      let hit' : p x' ≡ true =
        subst (λ b. p b ≡ true) (sym (some-injective _ _ (rw here at found))) hit in
      ground (arith, gone x', hit', count-consume_le q p f xs gone)
  | inr not_here ↦
      ground
        (arith, gone x', count-consume_zero q p f xs gone (rw not_here at found) hit (ground arith))
]

active-consume :
    (id : String) (purpose : OtpPurpose) (now : ℕ) (c : OtpCode)
    → is_active id purpose (consume now c) ≡ false
unfolding is_active
active-consume id purpose now c = ground arith

active-unconsumed :
    (id : String) (purpose : OtpPurpose) (c : OtpCode)
    → is_active id purpose c ≡ true
    → unconsumed c.id c ≡ true
unfolding is_active
active-unconsumed id purpose c h = ground (arith, eq_refl c.id)

new-is_active :
    (input : IssueOtpInput) (c : OtpCode)
    → c.transaction_id ≡ input.transaction_id
    → c.purpose ≡ input.purpose
    → c.consumed_at ≡ none
    → is_active input.transaction_id input.purpose c ≡ true
unfolding is_active
new-is_active input c same purpose fresh =
    rw (same, purpose, fresh) (ground (arith, eq_refl input.transaction_id))

module _ (config : OtpConfig) where
  -- The row, the answer and the codes that `issue` leaves.
  abbrev issued_code : IssueOtpInput → World → String
  issued_code input w = generate_numeric_code (config.random_digit w.drawn) config.code_length

  abbrev issued_row : IssueOtpInput → World → OtpCode
  issued_row input w =
      new_code config input (issued_code input w) (w.uuid w.drawn)
        (w.now + config.ttl_seconds * 1000)

  abbrev issued_codes : IssueOtpInput → World → List OtpCode
  issued_codes input w =
      issued_row input w
      ∷ update_many (is_active input.transaction_id input.purpose) (consume w.now) w.otp_codes

  issue_runs :
      (input : IssueOtpInput) (w : World) (tx : Transaction)
      → find_first (has_id input.transaction_id) w.transactions ≡ some tx
      → tx.status ≡ confirmation_pending
      → w.queue_error ≡ none
      → let o = issue config input w in
        (o.0
          ≡ ok (record {
            otp_id = w.uuid w.drawn;
            code = issued_code input w;
            expires_at = w.now + config.ttl_seconds * 1000;
          }))
        × (o.1.otp_codes ≡ issued_codes input w)
        × (o.1.now ≡ w.now)
  unfolding issue find_first same_status
  issue_runs input w tx found waiting up = rw found (rw (waiting, up) (refl, refl, refl))

  -- A code that passes is the newest active one of the transaction and purpose: its hash is that of the code
  -- submitted, it is not expired, and it has attempts left.
  pub verify_sound :
      (input : VerifyOtpInput) (w : World)
      → result_of (verify config input) w ≡ ok tt
      → (active : OtpCode) × (find_first (is_active input.transaction_id input.purpose) w.otp_codes
          ≡ some active)
        × (config.hash_code input.code ≡ active.code_hash)
        × (w.now < active.expires_at)
        × (active.attempt_count < config.max_attempts)
  unfolding verify verify_active fail
  verify_sound input w h =
      elim (Option-cases (find_first (is_active input.transaction_id input.purpose) w.otp_codes)) [
        | inl missing ↦ absurd (ground arith)
        | inr (active, found) ↦ (
          active,
          found,
          (eq_iff (config.hash_code input.code) active.code_hash).0 (ground arith),
          ground arith,
          ground arith,
        )
      ]

  -- What a code that passed leaves: its row consumed.
  consumed_codes :
      (input : VerifyOtpInput) (w : World) (active : OtpCode)
      → find_first (is_active input.transaction_id input.purpose) w.otp_codes ≡ some active
      → result_of (verify config input) w ≡ ok tt
      → (world_after (verify config input) w).otp_codes
        ≡ update_many (unconsumed active.id) (consume w.now) w.otp_codes
  unfolding verify verify_active fail consume_code
  consumed_codes input w active found h = ground arith

  no_code_refused :
      (input : VerifyOtpInput) (w : World)
      → count (is_active input.transaction_id input.purpose) w.otp_codes ≡ 0
      → result_of (verify config input) w ≡ err (otp_verification no_active_code)
  unfolding verify fail
  no_code_refused input w none_left =
      elim (Option-cases (find_first (is_active input.transaction_id input.purpose) w.otp_codes)) [
        | inl missing ↦ ground arith
        | inr (active, found) ↦ absurd (
            omega (
              arith,
              count_pos_of_find (is_active input.transaction_id input.purpose) w.otp_codes found,
              none_left,
            ))
      ]

  -- Where one code at most is active, a code passes once: after it, every code for the transaction and purpose, the
  -- same one too, is refused for want of an active code.
  pub verify_once :
      (input again : VerifyOtpInput) (w : World)
      → count (is_active input.transaction_id input.purpose) w.otp_codes ≤ 1
      → result_of (verify config input) w ≡ ok tt
      → again.transaction_id ≡ input.transaction_id
      → again.purpose ≡ input.purpose
      → result_of (verify config again) (world_after (verify config input) w)
        ≡ err (otp_verification no_active_code)
  verify_once input again w one passed same purpose =
      let (active, found, hashed, alive, tries) = verify_sound input w passed in
      no_code_refused again (world_after (verify config input) w) (
        rw (same, purpose)
          (rw (consumed_codes input w active found passed) (
            count-consume_zero (is_active input.transaction_id input.purpose) (unconsumed active.id)
              (consume w.now) w.otp_codes
              (λ c. active-consume input.transaction_id input.purpose w.now c) found
              (active-unconsumed input.transaction_id input.purpose active
                (find_first-where _ w.otp_codes found))
              one)))

  verify_passes :
      (input : VerifyOtpInput) (w : World) (active : OtpCode)
      → find_first (is_active input.transaction_id input.purpose) w.otp_codes ≡ some active
      → config.hash_code input.code ≡ active.code_hash
      → w.now < active.expires_at
      → active.attempt_count < config.max_attempts
      → count (unconsumed active.id) w.otp_codes ≡ 1
      → result_of (verify config input) w ≡ ok tt
  unfolding verify verify_active consume_code
  verify_passes input w active found hashed alive tries own =
      ground (arith, (eq_iff (config.hash_code input.code) active.code_hash).1 hashed)

  -- The code that `issue` returned passes in the world it left, where its row's identifier is new and a code lives
  -- and may be tried at all; and it is the only active code then.
  pub issue-verify :
      (input : IssueOtpInput) (w : World) (tx : Transaction)
      → find_first (has_id input.transaction_id) w.transactions ≡ some tx
      → tx.status ≡ confirmation_pending
      → w.queue_error ≡ none
      → count (unconsumed (w.uuid w.drawn)) w.otp_codes ≡ 0
      → 1 ≤ config.ttl_seconds
      → 1 ≤ config.max_attempts
      → let w' = world_after (issue config input) w in
        (count (is_active input.transaction_id input.purpose) w'.otp_codes ≡ 1)
        × ((r : IssueOtpResult) × (result_of (issue config input) w ≡ ok r)
            × (result_of
                  (verify config (record {
                    transaction_id = input.transaction_id;
                    purpose = input.purpose;
                    code = r.code;
                    actor = input.actor;
                  }))
                  w'
                ≡ ok tt))
  issue-verify input w tx found waiting up fresh lives tries =
      let (returned, codes, now) = issue_runs input w tx found waiting up in
      let active = new-is_active input (issued_row input w) refl refl refl in
      let newest : find_first (is_active input.transaction_id input.purpose)
            (world_after (issue config input) w).otp_codes
          ≡ some (issued_row input w) =
        rw codes
          (first_of (is_active input.transaction_id input.purpose) (issued_row input w) _ active) in
      let own : count (unconsumed (w.uuid w.drawn)) (world_after (issue config input) w).otp_codes
          ≡ 1 =
        rw codes (
          count_first (unconsumed (w.uuid w.drawn)) (issued_row input w) _
            (ground (arith, eq_refl (w.uuid w.drawn)))
            (omega (
              arith,
              count-consume_le (unconsumed (w.uuid w.drawn))
                  (is_active input.transaction_id input.purpose) (consume w.now) w.otp_codes
                  (λ c. consumed-unconsumed (w.uuid w.drawn) w.now c),
              fresh,
            ))) in
      (
        rw codes (
            count_first (is_active input.transaction_id input.purpose) (issued_row input w) _ active
              (count-update_many_zero (is_active input.transaction_id input.purpose) (consume w.now)
                w.otp_codes (λ c h. active-consume input.transaction_id input.purpose w.now c))),
        (
          _,
          returned,
          verify_passes _ (world_after (issue config input) w) (issued_row input w) newest refl
              (rw now (omega (arith, lives))) tries own,
        ),
      )
