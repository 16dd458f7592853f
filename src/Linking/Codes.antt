-- ===== src/Linking/Codes.antt =====
-- chat-link.crypto.ts and chat-link.service.ts: link codes are minted on the web and consumed in a chat; a collision
-- is parked for an admin.
use meduman_backend.Prelude.{
  ltb, leb, if◌then◌else◌, or_option, ◌===◌, concat, without_white, trim, ℕ, zero, suc, ◌+◌, ◌*◌,
  String, Bool, true, false, not, ◌&&◌, Option, none, some, List, [], ◌∷◌,
}
use meduman_backend.Store.Rows.{text}
use meduman_backend.Store.ChatRows.{
  ChatPlatform, ChatLinkRequestStatus, ChatLinkConflictReason, ChatIdentity, ChatLinkRequest,
}
use meduman_backend.Store.World.{identity_table, link_table}
use meduman_backend.Store.Action.{
  link_merge_collision, link_merge_in_flight, Result, ok, err, Action, pure, throw, gets, ◌>>=◌,
  ◌>>◌, draw, select, select_count, insert_unique, update_rows, update, attempt,
}
use meduman_backend.Audit.{log}
use meduman_backend.Linking.Guards.{MergeOptions, detect_collision, has_in_flight_payout}
use meduman_backend.Linking.Merge.{MergeReport, link_entry, merge}

-- What is not under src/, or is configured: the keyed hash of node:crypto as a hex text, its `randomInt(0, 32)` by call
-- and position, the Unicode tables of `toUpperCase`, CHAT_LINK_CODE_LENGTH, CHAT_LINK_CODE_TTL_SECONDS and
-- CHAT_LINK_MAX_ATTEMPTS.
pub record LinkConfig : Type 0 where
  pub hash_code : String → String
  pub random_letter : (call position : ℕ) → ℕ
  pub upper_case : String → String
  pub code_length : ℕ
  pub ttl_seconds : ℕ
  pub max_attempts : ℕ

pub record MintedLinkCode : Type 0 where
  pub code : String
  pub expires_at : ℕ

pub record LinkStatus : Type 0 where
  pub linked : Bool
  pub pending_code : Bool
  pub under_review : Bool

pub data ConsumeOutcome : Type 0 where
  linked : ChatPlatform → ConsumeOutcome
  already_linked : ConsumeOutcome
  parked : ChatLinkConflictReason → ConsumeOutcome
  try_later : ConsumeOutcome
  invalid : ConsumeOutcome

-- `LINK_CODE_ALPHABET`
link_code_alphabet : List String
link_code_alphabet =
    "A" ∷ "B" ∷ "C" ∷ "D" ∷ "E" ∷ "F" ∷ "G" ∷ "H" ∷ "J" ∷ "K" ∷ "L" ∷ "M" ∷ "N" ∷ "P" ∷ "Q" ∷ "R"
    ∷ "S" ∷ "T" ∷ "U" ∷ "V" ∷ "W" ∷ "X" ∷ "Y" ∷ "Z" ∷ "2" ∷ "3" ∷ "4" ∷ "5" ∷ "6" ∷ "7" ∷ "8" ∷ "9"
    ∷ []

letter_at : List String → ℕ → String
letter_at [] i = "undefined"
letter_at (l ∷ ls) zero = l
letter_at (l ∷ ls) (suc i) = letter_at ls i

-- `generateLinkCode`
unfoldable pub generate_link_code : (ℕ → ℕ) → ℕ → String
unfolding letter_at link_code_alphabet
generate_link_code random_letter zero = ""
generate_link_code random_letter (suc n) =
    concat
      (generate_link_code random_letter n ∷ letter_at link_code_alphabet (random_letter n) ∷ [])

abbrev pub is_live : ChatLinkRequestStatus → Bool
is_live ChatLinkRequestStatus.pending = true
is_live _ = false

abbrev pub is_parked : ChatLinkRequestStatus → Bool
is_parked ChatLinkRequestStatus.pending_review = true
is_parked _ = false

unfoldable pub link_status_name : ChatLinkRequestStatus → String
link_status_name ChatLinkRequestStatus.pending = "PENDING"
link_status_name ChatLinkRequestStatus.completed = "COMPLETED"
link_status_name ChatLinkRequestStatus.pending_review = "PENDING_REVIEW"
link_status_name ChatLinkRequestStatus.rejected = "REJECTED"
link_status_name ChatLinkRequestStatus.expired = "EXPIRED"
link_status_name ChatLinkRequestStatus.cancelled = "CANCELLED"

unfoldable pub platform_name : ChatPlatform → String
platform_name ChatPlatform.telegram = "TELEGRAM"
platform_name ChatPlatform.whatsapp = "WHATSAPP"
platform_name ChatPlatform.instagram = "INSTAGRAM"
platform_name ChatPlatform.messenger = "MESSENGER"
platform_name ChatPlatform.x = "X"

abbrev pub has_link_id : String → ChatLinkRequest → Bool
has_link_id id r = r.id === id

abbrev pub has_hash : String → ChatLinkRequest → Bool
has_hash hash r = r.code_hash === hash

-- The live codes of a web account.
abbrev pub live_for : String → ChatLinkRequest → Bool
live_for target r = r.target_user_id === target && is_live r.status

abbrev cancel_at : ℕ → ChatLinkRequest → ChatLinkRequest
cancel_at now r = record r { status = ChatLinkRequestStatus.cancelled; resolved_at = some now }

abbrev pub new_request : String → String → String → ℕ → ChatLinkRequest
new_request id code_hash target expires_at = record {
  id = id;
  code_hash = code_hash;
  target_user_id = target;
  platform = none;
  platform_user_id = none;
  chat_identity_id = none;
  source_user_id = none;
  status = ChatLinkRequestStatus.pending;
  conflict_reason = none;
  attempt_count = 0;
  expires_at = expires_at;
  consumed_at = none;
  resolved_at = none;
  resolved_by = none;
}

-- The row that `consumeAs` leaves.
abbrev pub consumed_as :
    ChatIdentity
    → ChatLinkRequestStatus
    → Option ChatLinkConflictReason
    → ℕ
    → ChatLinkRequest
    → ChatLinkRequest
consumed_as identity status reason now r = record r {
  status = status;
  platform = some identity.platform;
  platform_user_id = some identity.platform_user_id;
  chat_identity_id = some identity.id;
  source_user_id = some identity.user_id;
  consumed_at = some now;
  resolved_at = some now;
  conflict_reason = or_option reason r.conflict_reason;
}

-- `consumeAs`
unfoldable pub consume_as :
    String
    → ChatIdentity
    → ChatLinkRequestStatus
    → Option ChatLinkConflictReason
    → Action (Unit {0})
consume_as id identity status reason = do
  now ← gets (λ w. w.now)
  update link_table (has_link_id id) (consumed_as identity status reason now)
  pure tt

-- `reject` of a request that was found.
unfoldable pub reject_code : ChatIdentity → ChatLinkRequest → String → Action ConsumeOutcome
unfolding platform_name
reject_code identity request reason = do
  update link_table (has_link_id request.id) (λ r. record r { attempt_count = r.attempt_count + 1 })
  log (record (link_entry "chat.link_code_rejected" request.id identity.id) {
    reason = some reason;
    metadata = ("platform", text (platform_name identity.platform)) ∷ [];
  })
  pure invalid

-- `statusFor`
unfoldable pub status_for : String → Action LinkStatus
status_for target = do
  identities ← select_count identity_table (λ c. c.user_id === target)
  pending ← select_count link_table (live_for target)
  review ← select_count link_table (λ r. r.target_user_id === target && is_parked r.status)
  pure (record {
    linked = ltb 0 identities;
    pending_code = ltb 0 pending;
    under_review = ltb 0 review;
  })

abbrev pub plain_merge : MergeOptions
plain_merge = record { keep_profile = none; override_collision = false }

-- The outcome of the `try` around `merge`.
abbrev pub after_merge : ChatIdentity → ChatLinkRequest → Result MergeReport → Action ConsumeOutcome
after_merge identity request (ok report) = do
  consume_as request.id identity ChatLinkRequestStatus.completed none
  pure (linked identity.platform)
after_merge identity request (err link_merge_in_flight) = pure try_later
after_merge identity request (err (link_merge_collision kind)) = do
  consume_as request.id identity ChatLinkRequestStatus.pending_review (some kind)
  pure (parked kind)
after_merge identity request (err e) = throw e

abbrev pub try_merge :
    ChatIdentity → ChatLinkRequest → Option ChatLinkConflictReason → Action ConsumeOutcome
try_merge identity request (some kind) = do
  consume_as request.id identity ChatLinkRequestStatus.pending_review (some kind)
  pure (parked kind)
try_merge identity request none = do
  merged ← attempt (merge identity.user_id request.target_user_id plain_merge)
  after_merge identity request merged

abbrev deferred : ChatIdentity → ChatLinkRequest → Bool → Action ConsumeOutcome
deferred identity request true = pure try_later
deferred identity request false = do
  collision ← detect_collision identity.user_id request.target_user_id
  try_merge identity request collision

-- `consume` of a live code
unfoldable pub consume_live : ChatIdentity → ChatLinkRequest → Action ConsumeOutcome
consume_live identity request =
    if identity.user_id === request.target_user_id
    then (do
      consume_as request.id identity ChatLinkRequestStatus.completed none
      pure already_linked)
    else (do
      flies ← has_in_flight_payout identity.user_id request.target_user_id
      deferred identity request flies)

module _ (config : LinkConfig) where
  -- `normalizeLinkCode`
  unfoldable pub normalize_link_code : String → String
  normalize_link_code raw = without_white (config.upper_case (trim raw))

  -- `mint`
  unfoldable pub mint : String → Action MintedLinkCode
  mint target = do
    now ← gets (λ w. w.now)
    update_rows link_table (live_for target) (cancel_at now)
    call ← gets (λ w. w.drawn)
    let code = generate_link_code (config.random_letter call) config.code_length
    let expires_at = now + config.ttl_seconds * 1000
    id ← draw
    let hash = config.hash_code code
    request ← insert_unique link_table (has_hash hash) (new_request id hash target expires_at)
    log (link_entry "chat.link_code_minted" request.id target)
    pure (record { code = code; expires_at = expires_at })

  -- `consume` of a request that was found, by the order of its refusals
  unfoldable pub consume_found : ChatIdentity → ChatLinkRequest → ℕ → Action ConsumeOutcome
  unfolding link_status_name
  consume_found identity request now =
      if not (is_live request.status)
      then reject_code identity request (concat ("status " ∷ link_status_name request.status ∷ []))
      else (if leb request.expires_at now
          then reject_code identity request "expired"
          else (if leb config.max_attempts request.attempt_count
              then reject_code identity request "attempt cap reached"
              else consume_live identity request))

  abbrev consume_from : ChatIdentity → ℕ → Option ChatLinkRequest → Action ConsumeOutcome
  consume_from identity now none = pure invalid
  consume_from identity now (some request) = consume_found identity request now

  -- `consume`
  unfoldable pub consume_link : ChatIdentity → String → Action ConsumeOutcome
  unfolding normalize_link_code
  consume_link identity raw_code = do
    let code_hash = config.hash_code (normalize_link_code raw_code)
    request ← select link_table (has_hash code_hash)
    now ← gets (λ w. w.now)
    consume_from identity now request
