-- ===== src/Linking/CodeLaws.antt =====
-- Link codes of chat-link.service.ts: a code works once.
use meduman_backend.Prelude.{
  leb, Bool-cases, Option-cases, concat, ◌≤◌, String, ◌≡◌, refl, sym, ap, ◌∙◌, subst, inl, inr,
  true, false, Option, none, some, [], ◌∷◌, eq_refl,
}
use meduman_backend.Store.ChatRows.{ChatIdentity, ChatLinkRequest}
use meduman_backend.Store.World.{World}
use meduman_backend.Store.Table.{
  find_first, count, find_first-where, All-find_first, find_first-exists,
}
use meduman_backend.Store.Action.{Result, ok, attempt, world_after, result_of}
use meduman_backend.Paystack.{request}
use meduman_backend.Linking.Codes.{
  LinkConfig, ConsumeOutcome, invalid, is_live, link_status_name, has_link_id, has_hash,
  reject_code, consume_live, normalize_link_code, consume_found, consume_link,
}
use meduman_backend.Linking.Spent.{
  takes, IsSpent, consume_live-IsSpent, reject_code-invalid, OnlyTried, reject_code_lem,
  OnlyTried-IsSpent,
}

module _ (config : LinkConfig) where
  -- The hash that a typed code is looked up by.
  abbrev pub hash_of : String → String
  hash_of raw_code = config.hash_code (normalize_link_code config raw_code)

  abbrev pub finding : String → World → Option ChatLinkRequest
  finding raw_code w = find_first (has_hash (hash_of raw_code)) w.link_requests

  pub found_lem :
      (identity : ChatIdentity) (raw_code : String) (w : World) (request : ChatLinkRequest)
      → finding raw_code w ≡ some request
      → consume_link config identity raw_code w ≡ consume_found config identity request w.now w
  unfolding consume_link find_first
  found_lem identity raw_code w request found = rw found refl

  pub unknown_lem :
      (identity : ChatIdentity) (raw_code : String) (w : World)
      → finding raw_code w ≡ none
      → consume_link config identity raw_code w ≡ (ok invalid, w)
  unfolding consume_link find_first
  unknown_lem identity raw_code w unknown = rw unknown refl

  consume_found-takes :
      (identity : ChatIdentity) (request : ChatLinkRequest) (w : World) (o : ConsumeOutcome)
      → result_of (consume_found config identity request w.now) w ≡ ok o
      → takes o ≡ true
      → consume_found config identity request w.now w ≡ consume_live identity request w
  unfolding consume_found
  consume_found-takes identity request w o h t = elim (Bool-cases (is_live request.status)) [
    | inr dead ↦ absurd (refused _ (rw dead at h))
    | inl live ↦ elim (Bool-cases (leb request.expires_at w.now)) [
      | inl late ↦ absurd (refused _ (rw (live, late) at h))
      | inr early ↦ elim (Bool-cases (leb config.max_attempts request.attempt_count)) [
        | inl capped ↦ absurd (refused _ (rw (live, early, capped) at h))
        | inr open_ ↦ rw (live, early, open_) refl
      ]
    ]
  ]
    where
      refused : (reason : String) → result_of (reject_code identity request reason) w ≡ ok o → ⊥
      refused reason e = cc (reject_code-invalid identity request reason w o e)

  -- A code that is taken is spent afterwards.
  pub consume-IsSpent :
      (identity : ChatIdentity) (raw_code : String) (w : World) (o : ConsumeOutcome)
      → count (has_hash (hash_of raw_code)) w.link_requests ≤ 1
      → result_of (consume_link config identity raw_code) w ≡ ok o
      → takes o ≡ true
      → IsSpent (hash_of raw_code) (world_after (consume_link config identity raw_code) w)
  consume-IsSpent identity raw_code w o one h t = elim (Option-cases (finding raw_code w)) [
    | inl unknown ↦ absurd (nothing_found unknown)
    | inr (request, found) ↦ by_request request found
  ]
    where
      nothing_found : finding raw_code w ≡ none → ⊥
      nothing_found unknown = cc (unknown_lem identity raw_code w unknown, h, t)

      by_request :
          (request : ChatLinkRequest)
          → finding raw_code w ≡ some request
          → IsSpent (hash_of raw_code) (world_after (consume_link config identity raw_code) w)
      by_request request found =
          let lookup = found_lem identity raw_code w request found in
          let h' = ap (λ (p : Result ConsumeOutcome × World). p.0) (sym lookup) ∙ h in
          let same = lookup ∙ consume_found-takes identity request w o h' t in
          subst (λ (p : Result ConsumeOutcome × World). IsSpent (hash_of raw_code) p.1) (sym same)
            (consume_live-IsSpent (hash_of raw_code) w request one found identity o
              (ap (λ (p : Result ConsumeOutcome × World). p.0) (sym same) ∙ h) t)

  dead_lem :
      (identity : ChatIdentity) (request : ChatLinkRequest) (w : World)
      → is_live request.status ≡ false
      → (reason : String) × (consume_found config identity request w.now w
          ≡ reject_code identity request reason w)
  unfolding consume_found
  dead_lem identity request w dead =
      (concat ("status " ∷ link_status_name request.status ∷ []), rw dead refl)

  -- A refusal of the request that was found.
  pub rejects :
      (identity : ChatIdentity) (raw_code reason : String) (w : World) (request : ChatLinkRequest)
      → finding raw_code w ≡ some request
      → consume_found config identity request w.now w ≡ reject_code identity request reason w
      → (result_of (consume_link config identity raw_code) w ≡ ok invalid)
        × OnlyTried (some request) w (world_after (consume_link config identity raw_code) w)
  rejects identity raw_code reason w request found e =
      let (row, here) =
        find_first-exists (has_hash (hash_of raw_code)) (has_link_id request.id) w.link_requests
          found (eq_refl request.id) in
      subst
        (λ (p : Result ConsumeOutcome × World). (p.0 ≡ ok invalid) × OnlyTried (some request) w p.1)
        (sym (found_lem identity raw_code w request found ∙ e))
        (reject_code_lem identity request reason w row here)

  -- Where each request that a code may name is refused, the call answers INVALID and writes the attempt only.
  pub refused_lem :
      (identity : ChatIdentity) (raw_code : String) (w : World)
      → ((request : ChatLinkRequest)
          → finding raw_code w ≡ some request
          → (reason : String) × (consume_found config identity request w.now w
              ≡ reject_code identity request reason w))
      → (result_of (consume_link config identity raw_code) w ≡ ok invalid)
        × OnlyTried (finding raw_code w) w (world_after (consume_link config identity raw_code) w)
  refused_lem identity raw_code w refuses = elim (Option-cases (finding raw_code w)) [
    | inl unknown ↦ rw unknown (
      ap (λ (p : Result ConsumeOutcome × World). p.0) (unknown_lem identity raw_code w unknown),
      ap (λ (p : Result ConsumeOutcome × World). p.1) (unknown_lem identity raw_code w unknown),
    )
    | inr (request, found) ↦
        let (reason, e) = refuses request found in
        rw found (rejects identity raw_code reason w request found e)
  ]

  -- A spent code is answered INVALID to everybody, and only the attempt and the audit row are written.
  pub consume_spent :
      (identity : ChatIdentity) (raw_code : String) (w : World)
      → IsSpent (hash_of raw_code) w
      → (result_of (consume_link config identity raw_code) w ≡ ok invalid)
        × OnlyTried (finding raw_code w) w (world_after (consume_link config identity raw_code) w)
  consume_spent identity raw_code w spent = refused_lem identity raw_code w λ request found.
      dead_lem identity request w (
        All-find_first (λ r. has_hash (hash_of raw_code) r ≡ true → is_live r.status ≡ false)
          (has_hash (hash_of raw_code)) w.link_requests spent found
          (find_first-where (has_hash (hash_of raw_code)) w.link_requests found))

  -- A link code works once. Where one request at most has its hash, and a call has linked the chat account, found it
  -- linked already or parked it for review, every text that is looked up by the same hash is answered INVALID, to
  -- whatever chat account types it; the request that was found gets one attempt more and keeps its other columns, one
  -- audit row is added, nothing else is written, and no request of the hash is PENDING afterwards.
  pub consume_once :
      (identity identity' : ChatIdentity) (raw_code raw_code' : String) (w : World)
      (o : ConsumeOutcome)
      → count (has_hash (hash_of raw_code)) w.link_requests ≤ 1
      → hash_of raw_code' ≡ hash_of raw_code
      → result_of (consume_link config identity raw_code) w ≡ ok o
      → takes o ≡ true
      → let w' = world_after (consume_link config identity raw_code) w in
        let w'' = world_after (consume_link config identity' raw_code') w' in
        (result_of (consume_link config identity' raw_code') w' ≡ ok invalid)
        × OnlyTried (finding raw_code' w') w' w''
        × IsSpent (hash_of raw_code') w''
  consume_once identity identity' raw_code raw_code' w o one same h t =
      let w' = world_after (consume_link config identity raw_code) w in
      let spent : IsSpent (hash_of raw_code') w' =
        subst (λ hash. IsSpent hash w') (sym same)
          (consume-IsSpent identity raw_code w o one h t) in
      let (answer, attempt) = consume_spent identity' raw_code' w' spent in
      (answer, attempt, OnlyTried-IsSpent _ (finding raw_code' w') _ _ attempt spent)
