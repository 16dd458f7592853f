-- ===== src/Dialog/Laws.antt =====
-- chat-dialog.service.ts: what a buyer's code does, and what a wrong link code tells.
use meduman_backend.Prelude.{
  ltb, leb, Bool-cases, All, ◌===◌, concat, ℕ, ◌<◌, String, ◌≡◌, refl, sym, ap, ◌∙◌, subst, ◌⊎◌,
  inl, inr, Bool, true, false, ◌&&◌, Option, none, some, List, [], ◌∷◌, arith,
}
use meduman_backend.Store.Enums.{delivery_confirmation}
use meduman_backend.Store.Rows.{Transaction, User, OtpCode}
use meduman_backend.Store.ChatRows.{ChatIdentity, ChatLinkRequest}
use meduman_backend.Store.World.{World}
use meduman_backend.Store.Table.{find_first, find_many, find_many-All}
use meduman_backend.Store.Action.{
  Error, Result, ok, err, pure, attempt, world_after, result_of, bind_ok, Result-cases,
}
use meduman_backend.Paystack.{request}
use meduman_backend.Otp.{VerifyOtpInput, is_active, fail, consume_code, verify_active, verify}
use meduman_backend.Otp.Laws.{verify_sound}
use meduman_backend.Linking.Codes.{
  LinkConfig, is_live, link_status_name, reject_code, consume_found, consume_link,
}
use meduman_backend.Linking.Spent.{OnlyTried}
use meduman_backend.Linking.CodeLaws.{finding, refused_lem}
use meduman_backend.Dialog.Replies.{
  DialogConfig, awaits_code, code_input, after_verify, invalid_reply, link_reply,
}
use meduman_backend.Dialog.Actions.{confirm_found, try_confirm_otp, connect_account}

module _ (config : DialogConfig) where
  verify-frame :
      (input : VerifyOtpInput) (w : World)
      → let w' = world_after (verify config.otp input) w in
        (w'.transactions ≡ w.transactions) × (w'.timeline ≡ w.timeline) × (w'.jobs ≡ w.jobs)
  unfolding verify verify_active fail consume_code
  verify-frame input w = (ground arith, ground arith, ground arith)

  refused_world :
      (u : User) (tx : Transaction) (e : Error) (w : World)
      → world_after (after_verify u tx (err e)) w ≡ w
  refused_world u tx e w = ground arith

  -- The code that the buyer has typed is that of the active row for the transaction, unexpired and with attempts left.
  pub record IsConfirmed (u : User) (code : String) (w : World) : Type 0 where
    pub tx : Transaction
    pub active : OtpCode
    pub latest : config.last_updated (find_many (awaits_code u.id) w.transactions) ≡ some tx
    pub own : awaits_code u.id tx ≡ true
    pub found : find_first (is_active tx.id delivery_confirmation) w.otp_codes ≡ some active
    pub hashed : config.otp.hash_code code ≡ active.code_hash
    pub alive : w.now < active.expires_at
    pub tries : active.attempt_count < config.otp.max_attempts

  -- The row that is chosen among several is one of them.
  abbrev pub IsChoice : Type 0
  IsChoice =
      (rows : List Transaction) (tx : Transaction) (q : Transaction → Bool)
      → All (λ t. q t ≡ true) rows
      → config.last_updated rows ≡ some tx
      → q tx ≡ true

  -- A number that a buyer types into the chat changes no transaction, no timeline and no queue, unless it is the code
  -- of the active row for a transaction of that buyer that awaits confirmation, unexpired and with attempts left.
  pub confirm_needs_code :
      IsChoice
      → (u : User) (code : String) (w : World)
      → let w' = world_after (try_confirm_otp config u code) w in
        ((w'.transactions ≡ w.transactions) × (w'.timeline ≡ w.timeline) × (w'.jobs ≡ w.jobs))
        ⊎ IsConfirmed u code w
  unfolding try_confirm_otp
  confirm_needs_code choice u code w =
      go (config.last_updated (find_many (awaits_code u.id) w.transactions)) refl
    where
      same :
          (tx : Transaction) (error : Error)
          → result_of (verify config.otp (code_input u tx code)) w ≡ err error
          → world_after (confirm_found config u code (some tx)) w
            ≡ world_after (verify config.otp (code_input u tx code)) w
      same tx error failed =
          ap
            (λ r.
              world_after (after_verify u tx r)
                (world_after (verify config.otp (code_input u tx code)) w))
            failed
          ∙ refused_world u tx error (world_after (verify config.otp (code_input u tx code)) w)

      go :
          (o : Option Transaction)
          → config.last_updated (find_many (awaits_code u.id) w.transactions) ≡ o
          → let w' = world_after (confirm_found config u code o) w in
            ((w'.transactions ≡ w.transactions) × (w'.timeline ≡ w.timeline) × (w'.jobs ≡ w.jobs))
            ⊎ IsConfirmed u code w
      go none e = inl (refl, refl, refl)
      go (some tx) e =
          elim (Result-cases (result_of (verify config.otp (code_input u tx code)) w)) [
            | inl (done, passed) ↦
                let (active, found, hashed, alive, tries) =
                  verify_sound config.otp (code_input u tx code) w passed in
                inr (record {
                  tx = tx;
                  active = active;
                  latest = e;
                  own =
                      choice (find_many (awaits_code u.id) w.transactions) tx (awaits_code u.id)
                        (find_many-All (awaits_code u.id) w.transactions) e;
                  found = found;
                  hashed = hashed;
                  alive = alive;
                  tries = tries;
                })
            | inr (error, failed) ↦ inl (
              ap (λ (v : World). v.transactions) (same tx error failed)
                  ∙ (verify-frame (code_input u tx code) w).0,
              ap (λ (v : World). v.timeline) (same tx error failed)
                  ∙ (verify-frame (code_input u tx code) w).1,
              ap (λ (v : World). v.jobs) (same tx error failed)
                  ∙ (verify-frame (code_input u tx code) w).2,
            )
          ]

-- A request that a code may still be used for.
abbrev pub is_usable : LinkConfig → ℕ → ChatLinkRequest → Bool
is_usable links now r =
    is_live r.status && (ltb now r.expires_at && ltb r.attempt_count links.max_attempts)

module _ (config : DialogConfig) (identity : ChatIdentity) where
  unusable_lem :
      (request : ChatLinkRequest) (w : World)
      → is_usable config.links w.now request ≡ false
      → (reason : String) × (consume_found config.links identity request w.now w
          ≡ reject_code identity request reason w)
  unfolding consume_found
  unusable_lem request w h = elim (Bool-cases (is_live request.status)) [
    | inr dead ↦ (concat ("status " ∷ link_status_name request.status ∷ []), rw dead refl)
    | inl live ↦ elim (Bool-cases (leb request.expires_at w.now)) [
      | inl late ↦ ("expired", rw (live, late) refl)
      | inr early ↦ ("attempt cap reached", rw (live, early, tried live early) refl)
    ]
  ]
    where
      tried :
          is_live request.status ≡ true
          → leb request.expires_at w.now ≡ false
          → leb config.links.max_attempts request.attempt_count ≡ true
      tried live early = ground (arith, h)

  -- The chat tells nothing of a wrong link code. Whether no request has it, or one that is used up, expired or has been
  -- tried too often, the reply is the same; where no request has it nothing is written, and else that request gets one
  -- attempt more and keeps its other columns, and one audit row is added.
  pub connect_no_oracle :
      (arg : String) (w : World)
      → (arg === "") ≡ false
      → ((r : ChatLinkRequest)
          → finding config.links arg w ≡ some r
          → is_usable config.links w.now r ≡ false)
      → (result_of (connect_account config identity arg) w ≡ ok invalid_reply)
        × OnlyTried
            (finding config.links arg w)
            w
            (world_after (connect_account config identity arg) w)
  unfolding connect_account
  connect_no_oracle arg w given unusable =
      let (answer, attempt) =
        refused_lem config.links identity arg w
          λ request found. unusable_lem request w (unusable request found) in
      rw given (
        subst
          (λ (p : Result String × World).
            (p.0 ≡ ok invalid_reply) × OnlyTried (finding config.links arg w) w p.1)
          (sym (
            bind_ok (consume_link config.links identity arg) (λ outcome. pure (link_reply outcome))
              (λ i. (answer i, world_after (consume_link config.links identity arg) w))))
          (refl, attempt))
