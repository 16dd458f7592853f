-- ===== src/Otp/Examples.antt =====
-- Runs of otp.service.ts with a hash that keeps the code, and the theorems at them.
use meduman_backend.Prelude.{◌<◌, ◌≡◌, refl, none, some, [], ◌∷◌, arith}
use meduman_backend.Store.Enums.{confirmation_pending, delivery_confirmation, user}
use meduman_backend.Store.Rows.{OtpCode}
use meduman_backend.Store.World.{World}
use meduman_backend.Store.Table.{find_first, count, update_many}
use meduman_backend.Store.Action.{no_active_code, otp_verification, ok, err, world_after, result_of}
use meduman_backend.Store.Sample.{sale, with_sale}
use meduman_backend.Otp.{
  IssueOtpInput, IssueOtpResult, VerifyOtpInput, OtpConfig, is_active, consume_code, issue,
  verify_active, verify,
}
use meduman_backend.Otp.Laws.{verify_sound, verify_once, issue-verify}

abbrev plain_config : OtpConfig
plain_config = record {
  hash_code = λ code. code;
  random_digit = λ call position. position;
  code_length = 4;
  ttl_seconds = 600;
  max_attempts = 5;
}

abbrev ask : IssueOtpInput
ask = record {
  transaction_id = "t1";
  purpose = delivery_confirmation;
  actor = record { id = some "bola"; type = user; role = some "BUYER" };
}

abbrev confirming : World
confirming = with_sale confirmation_pending

issue-verify_example :
    let w' = world_after (issue plain_config ask) confirming in
    (count (is_active "t1" delivery_confirmation) w'.otp_codes ≡ 1)
    × ((r : IssueOtpResult) × (result_of (issue plain_config ask) confirming ≡ ok r)
        × (result_of
              (verify plain_config (record {
                transaction_id = "t1";
                purpose = delivery_confirmation;
                code = r.code;
                actor = ask.actor;
              }))
              w'
            ≡ ok tt))
unfolding find_first count
issue-verify_example =
    issue-verify plain_config ask confirming (record sale { status = confirmation_pending }) refl
      refl refl refl (omega arith) (omega arith)

abbrev stored_code : OtpCode
stored_code = record {
  id = "o1";
  transaction_id = "t1";
  code_hash = "0123";
  purpose = delivery_confirmation;
  expires_at = 5000;
  attempt_count = 2;
  consumed_at = none;
}

abbrev coded : World
coded = record confirming { otp_codes = stored_code ∷ [] }

abbrev answer : VerifyOtpInput
answer = record {
  transaction_id = "t1";
  purpose = delivery_confirmation;
  code = "0123";
  actor = ask.actor;
}

answer_passes : result_of (verify plain_config answer) coded ≡ ok tt
unfolding verify verify_active consume_code find_first count update_many is_active
answer_passes = refl

verify_sound_test :
    (active : OtpCode) × (find_first (is_active "t1" delivery_confirmation) coded.otp_codes
      ≡ some active)
    × ("0123" ≡ active.code_hash)
    × (coded.now < active.expires_at)
    × (active.attempt_count < 5)
verify_sound_test = verify_sound plain_config answer coded answer_passes

verify_once_example :
    result_of (verify plain_config answer) (world_after (verify plain_config answer) coded)
    ≡ err (otp_verification no_active_code)
unfolding count is_active
verify_once_example =
    verify_once plain_config answer answer coded (omega arith) answer_passes refl refl
