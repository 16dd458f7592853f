-- ===== src/Gateway/Laws.antt =====
-- chat-inbound.service.ts: a message of a webhook is put on the queue once.
use meduman_backend.Prelude.{
  Bool-cases, Option-cases, length, All, String, ◌≡◌, refl, sym, ap, ◌∙◌, subst, inl, inr, Bool,
  true, false, Option, none, some, List, [], ◌∷◌, arith, eq_refl,
}
use meduman_backend.Store.ChatRows.{ChatPlatform, InboundChatMessage, ChatInboundEvent}
use meduman_backend.Store.World.{World}
use meduman_backend.Store.Table.{find_first}
use meduman_backend.Store.Action.{
  Error, unauthorized, Result, ok, err, Action, world_after, result_of, bind_ok, bind_err,
  Result-cases,
}
use meduman_backend.Store.Keeps.{Keeps, Keeps-pure, Keeps-bind}
use meduman_backend.Gateway.{
  ChatAdapter, ChatWebhookResult, same_platform, same_message, inbound_row, record_inbound,
  ingest_one, both, ingest_all, ingest,
}

abbrev pub Recorded : InboundChatMessage → World → Type 0
Recorded m w = (e : ChatInboundEvent) × (find_first (same_message m) w.inbound ≡ some e)

same_platform_refl : (p : ChatPlatform) → same_platform p p ≡ true
unfolding same_platform
same_platform_refl p = ground arith

own_row : (m : InboundChatMessage) (raw : String) → same_message m (inbound_row m raw) ≡ true
own_row m raw = ground (arith, same_platform_refl m.platform, eq_refl m.provider_message_id)

found_behind :
    {A : Type 0} (q : A → Bool) (x : A) (xs : List A) {a : A}
    → find_first q xs ≡ some a
    → (b : A) × (find_first q (x ∷ xs) ≡ some b)
unfolding find_first
found_behind q x xs {a} h = elim (Bool-cases (q x)) [ inl t ↦ (x, rw t refl) | inr f ↦ (a, rw f h) ]

-- An action that returned, with the world that it left.
ran_lem :
    {A : Type 0} (act : Action A) (w : World) (a : A)
    → result_of act w ≡ ok a
    → act w ≡ (ok a, world_after act w)
ran_lem act w a h = ap (λ r. (r, world_after act w)) h

module _ (m : InboundChatMessage) (raw : String) where
  new_inbound :
      (w : World)
      → find_first (same_message m) w.inbound ≡ none
      → (world_after (ingest_one m raw) w).inbound ≡ inbound_row m raw ∷ w.inbound
  unfolding ingest_one record_inbound
  new_inbound w h = ground (arith, h)

  again_lem :
      (w : World)
      → Recorded m w
      → ingest_one m raw w ≡ (ok (record { accepted = 0; duplicate = 1 }), w)
  unfolding ingest_one record_inbound find_first
  again_lem w (e, h) = rw h refl

  ingest_one-Recorded : (w : World) → Recorded m (world_after (ingest_one m raw) w)
  unfolding find_first
  ingest_one-Recorded w = elim (Option-cases (find_first (same_message m) w.inbound)) [
    | inl none_ ↦ (
      inbound_row m raw,
      ap (find_first (same_message m)) (new_inbound w none_) ∙ rw (own_row m raw) refl,
    )
    | inr (e, h) ↦ (
      e,
      ap (λ (p : Result ChatWebhookResult × World). find_first (same_message m) p.1.inbound)
            (again_lem w (e, h))
          ∙ h,
    )
  ]

  ingest_one-Keeps : (n : InboundChatMessage) → Keeps (Recorded n) (ingest_one m raw)
  ingest_one-Keeps n = record { at = λ w h. kept w h }
    where
      kept : (w : World) → Recorded n w → Recorded n (world_after (ingest_one m raw) w)
      kept w (e, h) = elim (Option-cases (find_first (same_message m) w.inbound)) [
        | inl none_ ↦
            let (x, there) = found_behind (same_message n) (inbound_row m raw) w.inbound h in
            (x, ap (find_first (same_message n)) (new_inbound w none_) ∙ there)
        | inr old ↦
            subst (λ (p : Result ChatWebhookResult × World). Recorded n p.1) (sym (again_lem w old))
              (e, h)
      ]

ingest_all-Keeps :
    (ms : List InboundChatMessage) (raw : String) (n : InboundChatMessage)
    → Keeps (Recorded n) (ingest_all ms raw)
unfolding ingest_all
ingest_all-Keeps [] raw n = Keeps-pure _
ingest_all-Keeps (m ∷ ms) raw n =
    Keeps-bind (ingest_one m raw) _ (ingest_one-Keeps m raw n) (λ first.
      Keeps-bind (ingest_all ms raw) _ (ingest_all-Keeps ms raw n)
        (λ rest. Keeps-pure (both first rest)))

-- What was recorded is a duplicate.
all_again :
    (ms : List InboundChatMessage) (raw : String) (w : World)
    → All (λ m. Recorded m w) ms
    → ingest_all ms raw w ≡ (ok (record { accepted = 0; duplicate = length ms }), w)
unfolding ingest_all
all_again [] raw w hs = refl
all_again (m ∷ ms) raw w (h, hs) =
    bind_ok (ingest_one m raw) _ (again_lem m raw w h)
    ∙ bind_ok (ingest_all ms raw) _ (all_again ms raw w hs)
    ∙ ap (λ d. (ok (record { accepted = 0; duplicate = d }), w)) (omega arith)

ingest_all-Recorded :
    (ms : List InboundChatMessage) (raw : String) (w : World) (r : ChatWebhookResult)
    → result_of (ingest_all ms raw) w ≡ ok r
    → All (λ m. Recorded m (world_after (ingest_all ms raw) w)) ms
unfolding ingest_all
ingest_all-Recorded [] raw w r h = tt
ingest_all-Recorded (m ∷ ms) raw w r h = elim (Result-cases (result_of (ingest_one m raw) w)) [
  | inr (e, failed) ↦ absurd (clash (bind_err (ingest_one m raw) _ (ap (λ q. (q, w1)) failed)))
  | inl (first, ran) ↦ elim (Result-cases (result_of (ingest_all ms raw) w1)) [
    | inr (e, failed) ↦ absurd (
        clash (
          bind_ok (ingest_one m raw) _ (ran_lem (ingest_one m raw) w first ran)
          ∙ bind_err (ingest_all ms raw) _ (ap (λ q. (q, w2)) failed)))
    | inl (rest, ran') ↦
        subst (λ v. All (λ n. Recorded n v) (m ∷ ms))
          (sym (
            ap (λ (p : Result ChatWebhookResult × World). p.1)
              (bind_ok (ingest_one m raw) _ (ran_lem (ingest_one m raw) w first ran)
                ∙ bind_ok (ingest_all ms raw) _ (ran_lem (ingest_all ms raw) w1 rest ran'))))
          (
            (ingest_all-Keeps ms raw m).at w1 (ingest_one-Recorded m raw w),
            ingest_all-Recorded ms raw w1 rest ran',
          )
  ]
]
  where
    w1 : World
    w1 = world_after (ingest_one m raw) w

    w2 : World
    w2 = world_after (ingest_all ms raw) w1

    clash : {e : Error} {v : World} → ingest_all (m ∷ ms) raw w ≡ (err e, v) → ⊥
    clash failed = cc (ap (λ (p : Result ChatWebhookResult × World). p.0) failed, h)

module _ (registry : ChatPlatform → Option ChatAdapter) (adapter : ChatAdapter)
    (platform : ChatPlatform) (known : registry platform ≡ some adapter)
    (raw_body headers body : String) where
  accepted_runs :
      (w : World)
      → adapter.verify_signature raw_body headers ≡ true
      → ingest registry platform raw_body headers body w ≡ ingest_all (adapter.parse body) body w
  unfolding ingest
  accepted_runs w signed = rw (known, signed) refl

  refused_lem :
      (w : World)
      → adapter.verify_signature raw_body headers ≡ false
      → ingest registry platform raw_body headers body w
        ≡ (err (unauthorized "Invalid chat webhook signature"), w)
  unfolding ingest
  refused_lem w forged = rw (known, forged) refl

  -- A webhook that a platform sends again, after one that was taken, finds every message recorded: it writes nothing
  -- and puts nothing on the queue, and all its messages are counted as duplicates.
  pub ingest_twice :
      (w : World) (r : ChatWebhookResult)
      → result_of (ingest registry platform raw_body headers body) w ≡ ok r
      → let w' = world_after (ingest registry platform raw_body headers body) w in
        ingest registry platform raw_body headers body w'
        ≡ (ok (record { accepted = 0; duplicate = length (adapter.parse body) }), w')
  ingest_twice w r h = elim (Bool-cases (adapter.verify_signature raw_body headers)) [
    | inr forged ↦
        absurd (clash (ap (λ (p : Result ChatWebhookResult × World). p.0) (refused_lem w forged)))
    | inl signed ↦
        let same = accepted_runs w signed in
        accepted_runs _ signed
        ∙ all_again (adapter.parse body) body _ (
            subst
              (λ (p : Result ChatWebhookResult × World).
                All (λ m. Recorded m p.1) (adapter.parse body))
              (sym same)
              (ingest_all-Recorded (adapter.parse body) body w r
                (ap (λ (p : Result ChatWebhookResult × World). p.0) (sym same) ∙ h)))
  ]
    where
      clash : {e : Error} → result_of (ingest registry platform raw_body headers body) w ≡ err e → ⊥
      clash failed = cc (failed, h)
