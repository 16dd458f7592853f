-- ===== src/Linking/Review.antt =====
-- chat-link.service.ts: the review of a parked link request by an admin.
use meduman_backend.Prelude.{
  ◌===◌, concat, ℕ, String, Bool, true, false, not, Option, none, some, [], ◌∷◌, ◌++◌,
}
use meduman_backend.Store.Enums.{admin}
use meduman_backend.Store.Rows.{text}
use meduman_backend.Store.ChatRows.{
  ChatLinkRequestStatus, ChatLinkConflictReason, self_transaction_conflict, ChatLinkRequest,
}
use meduman_backend.Store.World.{identity_table, link_table}
use meduman_backend.Store.Action.{
  not_found, conflict, plain, Action, pure, gets, or_throw, ◌>>=◌, ◌>>◌, throw_if, select, update,
  truthy,
}
use meduman_backend.Audit.{log}
use meduman_backend.Linking.Guards.{KeepProfile, keep_target, keep_source}
use meduman_backend.Linking.Merge.{report_facts, link_entry, merge}
use meduman_backend.Linking.Codes.{is_parked, link_status_name, platform_name, has_link_id}

pub data ReviewOutcome : Type 0 where
  complete_request reject_request : ReviewOutcome

abbrev pub rejected_by : String → ℕ → ChatLinkRequest → ChatLinkRequest
rejected_by admin_id now r = record r {
  status = ChatLinkRequestStatus.rejected;
  resolved_at = some now;
  resolved_by = some admin_id;
}

abbrev pub promoted : ChatLinkRequest → ChatLinkRequest
promoted r = record r { status = ChatLinkRequestStatus.pending; conflict_reason = none }

abbrev pub completed_by : String → ℕ → ChatLinkRequest → ChatLinkRequest
completed_by admin_id now r = record r {
  status = ChatLinkRequestStatus.completed;
  consumed_at = some now;
  resolved_at = some now;
  resolved_by = some admin_id;
}

keep_name : KeepProfile → String
keep_name keep_target = "TARGET"
keep_name keep_source = "SOURCE"

-- The REJECT branch of `resolve`
unfoldable pub reject_parked : String → String → Action ChatLinkRequestStatus
reject_parked id admin_id = do
  now ← gets (λ w. w.now)
  update link_table (has_link_id id) (rejected_by admin_id now)
  log (record (link_entry "chat.link_request_rejected" id admin_id) { actor_type = some admin })
  pure ChatLinkRequestStatus.rejected

-- The COMPLETE branch of `resolve`, its guards passed
unfoldable pub complete_parked :
    (id source target identity_id : String) → KeepProfile → String → Action ChatLinkRequestStatus
unfolding keep_name platform_name
complete_parked id source target identity_id keep admin_id = do
  update link_table (has_link_id id) promoted
  found ← select identity_table (λ c. c.id === identity_id)
  identity ← or_throw found (plain "No ChatIdentity found")
  report ← merge source target (record { keep_profile = some keep; override_collision = true })
  now ← gets (λ w. w.now)
  update link_table (has_link_id id) (completed_by admin_id now)
  log (record (link_entry "chat.link_request_completed" id admin_id) {
    actor_type = some admin;
    metadata =
        ("keepProfile", text (keep_name keep)) ∷ report_facts report
        ++ ("platform", text (platform_name identity.platform)) ∷ [];
  })
  pure ChatLinkRequestStatus.completed

abbrev is_self_conflict : Option ChatLinkConflictReason → Bool
is_self_conflict (some self_transaction_conflict) = true
is_self_conflict _ = false

abbrev resolve_by :
    String
    → ReviewOutcome
    → Option KeepProfile
    → String
    → ChatLinkRequest
    → (source identity_id : String) → Action ChatLinkRequestStatus
resolve_by id reject_request keep admin_id r source identity_id = reject_parked id admin_id
resolve_by id complete_request keep admin_id r source identity_id = do
  throw_if (is_self_conflict r.conflict_reason) (
      conflict
        "SELF_TRANSACTION_CONFLICT cannot be resolved by choosing a profile — reject it instead")
  k ← or_throw keep (conflict "keepProfile is required to resolve a SELLER_PROFILE_CONFLICT")
  complete_parked id source r.target_user_id identity_id k admin_id

-- `resolve`
unfoldable pub resolve_link_request :
    String → ReviewOutcome → Option KeepProfile → String → Action ChatLinkRequestStatus
unfolding link_status_name
resolve_link_request id outcome keep admin_id = do
  found ← select link_table (has_link_id id)
  r ← or_throw found (not_found (concat ("Link request " ∷ id ∷ " not found" ∷ [])))
  throw_if (not (is_parked r.status)) (
      conflict
        (concat ("Link request is " ∷ link_status_name r.status ∷ ", not PENDING_REVIEW" ∷ [])))
  source ← or_throw (truthy r.source_user_id) (conflict "Link request has no chat side to merge")
  identity_id ←
      or_throw (truthy r.chat_identity_id) (conflict "Link request has no chat side to merge")
  resolve_by id outcome keep admin_id r source identity_id
