-- ===== src/Linking/Spent.antt =====
-- Link codes of chat-link.service.ts: a request that is marked is spent, and what a refusal writes.
-- Whether an outcome takes the code.
use meduman_backend.Prelude.{
  Bool-cases, is_some, All, ◌===◌, ◌+◌, ◌≤◌, String, ◌≡◌, refl, sym, ap, ◌∙◌, subst, inl, inr, Bool,
  true, false, Option, none, some, ◌∷◌, arith, eq_iff, eq_refl,
}
use meduman_backend.Store.Rows.{AuditLog}
use meduman_backend.Store.ChatRows.{
  ChatLinkRequestStatus, ChatLinkConflictReason, ChatIdentity, ChatLinkRequest,
}
use meduman_backend.Store.World.{World}
use meduman_backend.Store.Table.{
  find_first, count, update_many, All-update_many, unique_row, find_first-exists,
}
use meduman_backend.Store.Action.{
  link_merge_collision, link_merge_in_flight, Result, ok, err, pure, ◌>>◌, world_after, result_of,
}
use meduman_backend.Store.Keeps.{Keeps-pure, Keeps-continue}
use meduman_backend.Paystack.{request}
use meduman_backend.Linking.Guards.{detect_collision, flies_for, has_in_flight_payout}
use meduman_backend.Linking.Merge.{MergeReport}
use meduman_backend.Linking.Moved.{merge-link_requests}
use meduman_backend.Linking.Codes.{
  ConsumeOutcome, linked, already_linked, parked, try_later, invalid, is_live, has_link_id,
  has_hash, consumed_as, consume_as, reject_code, plain_merge, after_merge, try_merge, consume_live,
}

abbrev pub takes : ConsumeOutcome → Bool
takes (linked p) = true
takes already_linked = true
takes (parked k) = true
takes try_later = false
takes invalid = false

-- No live request has the hash.
abbrev pub IsSpent : String → World → Type 0
IsSpent hash w = All (λ r. has_hash hash r ≡ true → is_live r.status ≡ false) w.link_requests

consume_as_lem :
    (id : String) (identity : ChatIdentity) (status : ChatLinkRequestStatus)
    (reason : Option ChatLinkConflictReason) (v : World) (row : ChatLinkRequest)
    → find_first (has_link_id id) v.link_requests ≡ some row
    → consume_as id identity status reason v ≡ (
      ok tt,
      record v {
        link_requests =
            update_many (has_link_id id) (consumed_as identity status reason v.now) v.link_requests;
      },
    )
unfolding consume_as find_first update_many
consume_as_lem id identity status reason v row here = rw here refl

module _ (hash : String) (w : World) (request : ChatLinkRequest)
    (one : count (has_hash hash) w.link_requests ≤ 1)
    (found : find_first (has_hash hash) w.link_requests ≡ some request) where
  -- Marking the only request of a hash leaves the hash spent.
  mark-IsSpent :
      (f : ChatLinkRequest → ChatLinkRequest)
      → ((r : ChatLinkRequest) → is_live (f r).status ≡ false)
      → All
          (λ r. has_hash hash r ≡ true → is_live r.status ≡ false)
          (update_many (has_link_id request.id) f w.link_requests)
  mark-IsSpent f spent =
      All-update_many _ _ (has_link_id request.id) f w.link_requests (λ r hit only. λ _. spent r)
        (λ r miss only. λ same. absurd (missed r miss (only same)))
        (unique_row (has_hash hash) w.link_requests one found)
    where
      missed : (r : ChatLinkRequest) → has_link_id request.id r ≡ false → r ≡ request → ⊥
      missed r miss e =
          ground (arith, miss, ap (λ (a : ChatLinkRequest). a.id) e, eq_iff r.id request.id)

  consume_as-IsSpent :
      (v : World) (identity : ChatIdentity) (status : ChatLinkRequestStatus)
      (reason : Option ChatLinkConflictReason)
      → is_live status ≡ false
      → v.link_requests ≡ w.link_requests
      → IsSpent hash (world_after (consume_as request.id identity status reason) v)
  consume_as-IsSpent v identity status reason spent same =
      let (row, here) =
        find_first-exists (has_hash hash) (has_link_id request.id) w.link_requests found
          (eq_refl request.id) in
      subst (λ (p : Result (Unit {0}) × World). IsSpent hash p.1)
        (sym (
          consume_as_lem request.id identity status reason v row
            (ap (find_first (has_link_id request.id)) same ∙ here)))
        (subst
          (λ xs.
            All (λ r. has_hash hash r ≡ true → is_live r.status ≡ false)
              (update_many (has_link_id request.id) (consumed_as identity status reason v.now) xs))
          (sym same) (mark-IsSpent (consumed_as identity status reason v.now) (λ r. spent)))

  mark_then-IsSpent :
      (v : World) (identity : ChatIdentity) (status : ChatLinkRequestStatus)
      (reason : Option ChatLinkConflictReason) (o : ConsumeOutcome)
      → is_live status ≡ false
      → v.link_requests ≡ w.link_requests
      → IsSpent hash (world_after (consume_as request.id identity status reason >> pure o) v)
  mark_then-IsSpent v identity status reason o spent same =
      Keeps-continue {P = IsSpent hash} (result_of (consume_as request.id identity status reason) v)
        (λ _. pure o) (world_after (consume_as request.id identity status reason) v)
        (λ _. Keeps-pure o) (consume_as-IsSpent v identity status reason spent same)

  after_merge-IsSpent :
      (identity : ChatIdentity) (r : Result MergeReport) (v : World) (o : ConsumeOutcome)
      → v.link_requests ≡ w.link_requests
      → result_of (after_merge identity request r) v ≡ ok o
      → takes o ≡ true
      → IsSpent hash (world_after (after_merge identity request r) v)
  after_merge-IsSpent identity (ok report) v o same h t =
      mark_then-IsSpent v identity ChatLinkRequestStatus.completed none (linked identity.platform)
        refl same
  after_merge-IsSpent identity (err (link_merge_collision kind)) v o same h t =
      mark_then-IsSpent v identity ChatLinkRequestStatus.pending_review (some kind) (parked kind)
        refl same
  after_merge-IsSpent identity (err link_merge_in_flight) v o same h t = absurd (ground arith)
  after_merge-IsSpent identity (err e) v o same h t = absurd (ground arith)

  try_merge-IsSpent :
      (identity : ChatIdentity) (c : Option ChatLinkConflictReason) (o : ConsumeOutcome)
      → result_of (try_merge identity request c) w ≡ ok o
      → takes o ≡ true
      → IsSpent hash (world_after (try_merge identity request c) w)
  try_merge-IsSpent identity (some kind) o h t =
      mark_then-IsSpent w identity ChatLinkRequestStatus.pending_review (some kind) (parked kind)
        refl refl
  try_merge-IsSpent identity none o h t =
      after_merge-IsSpent identity _ _ o
        (merge-link_requests identity.user_id request.target_user_id plain_merge w) h t

  -- Taking a live code, whatever comes of the merge.
  pub consume_live-IsSpent :
      (identity : ChatIdentity) (o : ConsumeOutcome)
      → result_of (consume_live identity request) w ≡ ok o
      → takes o ≡ true
      → IsSpent hash (world_after (consume_live identity request) w)
  unfolding consume_live has_in_flight_payout detect_collision find_first
  consume_live-IsSpent identity o h t =
      elim (Bool-cases (identity.user_id === request.target_user_id)) [
        | inl own ↦ rw own (
            mark_then-IsSpent w identity ChatLinkRequestStatus.completed none already_linked refl
              refl)
        | inr other ↦
            elim (Bool-cases (
              is_some (find_first (flies_for identity.user_id request.target_user_id) w.payouts))) [
                | inl flies ↦ absurd (ground (arith, h))
                | inr calm ↦
                    rw other
                      (rw calm (try_merge-IsSpent identity _ o (rw calm at (rw other at h)) t))
              ]
      ]

pub reject_code-invalid :
    (identity : ChatIdentity) (request : ChatLinkRequest) (reason : String) (w : World)
    (o : ConsumeOutcome)
    → result_of (reject_code identity request reason) w ≡ ok o
    → takes o ≡ false
unfolding reject_code
reject_code-invalid identity request reason w o h = ground arith

abbrev pub tried : ChatLinkRequest → ChatLinkRequest
tried r = record r { attempt_count = r.attempt_count + 1 }

-- What a refused code has written: nothing where no request was found, and else one attempt more on that request, its
-- other columns untouched, and one audit row.
abbrev pub OnlyTried : Option ChatLinkRequest → World → World → Type 0
OnlyTried none w w' = w' ≡ w
OnlyTried (some request) w w' =
    (row : AuditLog) × (row.action ≡ "chat.link_code_rejected")
    × (w' ≡ record w {
      link_requests = update_many (has_link_id request.id) tried w.link_requests;
      audit = row ∷ w.audit;
    })

pub reject_code_lem :
    (identity : ChatIdentity) (request : ChatLinkRequest) (reason : String) (w : World)
    (row : ChatLinkRequest)
    → find_first (has_link_id request.id) w.link_requests ≡ some row
    → (result_of (reject_code identity request reason) w ≡ ok invalid)
      × OnlyTried (some request) w (world_after (reject_code identity request reason) w)
unfolding reject_code find_first update_many
reject_code_lem identity request reason w row here = rw here (refl, (_, refl, refl))

-- An attempt more leaves a spent hash spent.
pub OnlyTried-IsSpent :
    (hash : String) (o : Option ChatLinkRequest) (w w' : World)
    → OnlyTried o w w'
    → IsSpent hash w
    → IsSpent hash w'
OnlyTried-IsSpent hash none w w' same h = subst (IsSpent hash) (sym same) h
OnlyTried-IsSpent hash (some request) w w' (row, _, same) h = subst (IsSpent hash) (sym same) (
    All-update_many _ _ (has_link_id request.id) tried w.link_requests (λ r _ dead. dead)
      (λ r _ dead. dead) h)
