-- ===== src/Otp.antt =====
-- modules/otp/otp.service.ts: one-time codes for the buyer's confirmation.
pub mod Laws
mod Examples
use meduman_backend.Prelude.{
  leb, ◌==◌, if◌then◌else◌, is_some, ◌===◌, concat, decimal, ℕ, zero, suc, ◌+◌, ◌*◌, String, Bool,
  true, false, not, ◌&&◌, Option, none, some, [], ◌∷◌,
}
use meduman_backend.Store.Enums.{
  TransactionStatus, confirmation_pending, OtpPurpose, delivery_confirmation, release_authorization,
  high_value_stepup, same_status,
}
use meduman_backend.Store.Rows.{text, date, OtpCode}
use meduman_backend.Store.World.{otp_notification, transaction_table, otp_table}
use meduman_backend.Store.Action.{
  OtpFailureReason, no_active_code, code_expired, locked, mismatch, otp_verification,
  otp_not_issuable, Action, pure, throw, gets, or_throw, ◌>>=◌, ◌>>◌, throw_if, draw, enqueue,
  select, insert, update_rows, update, truthy,
}
use meduman_backend.Transactions.{TransitionActor, has_id, transaction_not_found}
use meduman_backend.Audit.{AuditEntryInput, log}

pub record IssueOtpInput : Type 0 where
  pub transaction_id : String
  pub purpose : OtpPurpose
  pub actor : TransitionActor

pub record IssueOtpResult : Type 0 where
  pub otp_id : String
  pub code : String
  pub expires_at : ℕ

pub record VerifyOtpInput : Type 0 where
  pub transaction_id : String
  pub purpose : OtpPurpose
  pub code : String
  pub actor : TransitionActor

-- What is not under src/, or is configured: the keyed hash of node:crypto as a hex text, its `randomInt(0, 10)` by
-- call and position, OTP_LENGTH, OTP_TTL_SECONDS and OTP_MAX_ATTEMPTS.
pub record OtpConfig : Type 0 where
  pub hash_code : String → String
  pub random_digit : (call position : ℕ) → ℕ
  pub code_length : ℕ
  pub ttl_seconds : ℕ
  pub max_attempts : ℕ

same_purpose : OtpPurpose → OtpPurpose → Bool
same_purpose delivery_confirmation delivery_confirmation = true
same_purpose release_authorization release_authorization = true
same_purpose high_value_stepup high_value_stepup = true
same_purpose _ _ = false

purpose_name : OtpPurpose → String
purpose_name delivery_confirmation = "DELIVERY_CONFIRMATION"
purpose_name release_authorization = "RELEASE_AUTHORIZATION"
purpose_name high_value_stepup = "HIGH_VALUE_STEPUP"

-- `where: { transactionId, purpose, consumedAt: null }`
unfoldable pub is_active : String → OtpPurpose → OtpCode → Bool
unfolding same_purpose
is_active transaction_id purpose c =
    c.transaction_id === transaction_id
    && (same_purpose c.purpose purpose && not (is_some c.consumed_at))

abbrev pub consume : ℕ → OtpCode → OtpCode
consume now c = record c { consumed_at = some now }

-- `generateNumericCode`
unfoldable pub generate_numeric_code : (ℕ → ℕ) → ℕ → String
generate_numeric_code random_digit zero = ""
generate_numeric_code random_digit (suc n) =
    concat (generate_numeric_code random_digit n ∷ decimal (random_digit n) ∷ [])

abbrev not_issuable : TransactionStatus → Bool
not_issuable s = not (same_status s confirmation_pending)

abbrev pub unconsumed : String → OtpCode → Bool
unconsumed id c = c.id === id && not (is_some c.consumed_at)

abbrev pub add_attempt : OtpCode → OtpCode
add_attempt c = record c { attempt_count = c.attempt_count + 1 }

reason_name : OtpFailureReason → String
reason_name no_active_code = "NO_ACTIVE_CODE"
reason_name code_expired = "EXPIRED"
reason_name locked = "LOCKED"
reason_name mismatch = "MISMATCH"

-- `throw this.fail(…)`
unfoldable pub fail : VerifyOtpInput → OtpFailureReason → Option String → Action (Unit {0})
unfolding reason_name purpose_name
fail input reason otp_id = do
  log (record {
    action = "otp.failed";
    target_type = "OtpCode";
    target_id = truthy otp_id;
    actor_id = truthy input.actor.id;
    actor_type = some input.actor.type;
    reason = some (reason_name reason);
    metadata =
        ("transactionId", text input.transaction_id)
        ∷ ("purpose", text (purpose_name input.purpose))
        ∷ [];
  })
  throw (otp_verification reason)

abbrev audit_verified : VerifyOtpInput → OtpCode → AuditEntryInput
audit_verified input active = record {
  action = "otp.verified";
  target_type = "OtpCode";
  target_id = some active.id;
  actor_id = truthy input.actor.id;
  actor_type = some input.actor.type;
  reason = none;
  metadata =
      ("transactionId", text input.transaction_id)
      ∷ ("purpose", text (purpose_name input.purpose))
      ∷ [];
}

-- The end of `verify`, on a code that matches.
unfoldable pub consume_code : VerifyOtpInput → OtpCode → Action (Unit {0})
unfolding purpose_name
consume_code input active = do
  now ← gets (λ w. w.now)
  consumed ← update_rows otp_table (unconsumed active.id) (consume now)
  if not (consumed == 1)
      then fail input no_active_code (some active.id)
      else log (audit_verified input active)

module _ (config : OtpConfig) where
  -- The row that `issue` writes.
  abbrev pub new_code : IssueOtpInput → String → String → ℕ → OtpCode
  new_code input code id expires_at = record {
    id = id;
    transaction_id = input.transaction_id;
    code_hash = config.hash_code code;
    purpose = input.purpose;
    expires_at = expires_at;
    attempt_count = 0;
    consumed_at = none;
  }

  -- `issue`
  unfoldable pub issue : IssueOtpInput → Action IssueOtpResult
  unfolding purpose_name
  issue input = do
    found ← select transaction_table (has_id input.transaction_id)
    tx ← or_throw found (transaction_not_found input.transaction_id)
    throw_if (not_issuable tx.status) (otp_not_issuable tx.status)
    now ← gets (λ w. w.now)
    update_rows otp_table (is_active input.transaction_id input.purpose) (consume now)
    call ← gets (λ w. w.drawn)
    let code = generate_numeric_code (config.random_digit call) config.code_length
    let expires_at = now + config.ttl_seconds * 1000
    id ← draw
    created ← insert otp_table (new_code input code id expires_at)
    log (record {
      action = "otp.issued";
      target_type = "OtpCode";
      target_id = some created.id;
      actor_id = truthy input.actor.id;
      actor_type = some input.actor.type;
      reason = none;
      metadata =
          ("transactionId", text input.transaction_id)
          ∷ ("purpose", text (purpose_name input.purpose))
          ∷ ("expiresAt", date expires_at)
          ∷ [];
    })
    enqueue (otp_notification input.transaction_id created.id code input.purpose)
    pure (record { otp_id = created.id; code = code; expires_at = expires_at })

  -- The attempt that `verify` counts before it fails.
  abbrev refuse_code : VerifyOtpInput → OtpCode → Action (Unit {0})
  refuse_code input active = do
    update otp_table (λ c. c.id === active.id) add_attempt
    fail input mismatch (some active.id)

  -- `verify` of the newest active code.
  unfoldable pub verify_active : VerifyOtpInput → OtpCode → ℕ → Action (Unit {0})
  verify_active input active now =
      if leb active.expires_at now
      then fail input code_expired (some active.id)
      else if leb config.max_attempts active.attempt_count
      then fail input locked (some active.id)
      else if not (config.hash_code input.code === active.code_hash)
      then refuse_code input active
      else consume_code input active

  abbrev verify_found : VerifyOtpInput → Option OtpCode → ℕ → Action (Unit {0})
  verify_found input none now = fail input no_active_code none
  verify_found input (some active) now = verify_active input active now

  -- `verify`
  unfoldable pub verify : VerifyOtpInput → Action (Unit {0})
  verify input = do
    active ← select otp_table (is_active input.transaction_id input.purpose)
    now ← gets (λ w. w.now)
    verify_found input active now
