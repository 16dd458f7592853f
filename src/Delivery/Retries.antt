-- ===== src/Delivery/Retries.antt =====
-- webhook-delivery.service.ts: the attempts to deliver an event, until it is settled.
use meduman_backend.Prelude.{
  length, ℕ, zero, suc, ◌+◌, ◌-◌, ◌≤◌, ◌<◌, String, ◌≡◌, refl, ap, ◌∙◌, some, arith,
}
use meduman_backend.Store.Rows.{OutboundEvent}
use meduman_backend.Store.World.{World}
use meduman_backend.Store.Action.{Error, Result, ok, err, world_after, result_of}
use meduman_backend.Delivery.Endpoints.{MerchantConfig}
use meduman_backend.Delivery.Deliver.{deliver, next_run, run_job}
use meduman_backend.Delivery.Due.{IsDue, IsSettled, Attempt, settles, puts_off}
use meduman_backend.Delivery.Attempt.{attempt_lem}

module _ (config : MerchantConfig) (id : String) where
  looser :
      {a b m n : ℕ} {v w w' : World}
      → IsSettled config id a m w w'
      → a ≤ b
      → length w.posted + m ≤ length v.posted + n
      → IsSettled config id b n v w'
  looser s h k = record {
    event = s.event;
    found = s.found;
    settled = s.settled;
    attempts_le = omega (arith, h, s.attempts_le);
    posts_le = omega (arith, k, s.posts_le);
  }

  run_settled :
      (runs : ℕ) (w : World)
      → result_of (deliver config id) w ≡ ok tt
      → run_job config (suc runs) id w ≡ some (world_after (deliver config id) w)
  unfolding run_job
  run_settled runs w h = go (deliver config id w) h
    where
      go :
          (p : Result (Unit {0}) × World)
          → p.0 ≡ ok tt
          → next_run config (run_job config runs id) p ≡ some p.1
      go (r, v) k = rw k refl

  run_again :
      (runs : ℕ) (w w' : World) (e : Error)
      → deliver config id w ≡ (err e, w')
      → run_job config (suc runs) id w ≡ run_job config runs id w'
  unfolding run_job
  run_again runs w w' e h = ap (next_run config (run_job config runs id)) h

  -- Whatever the endpoint answers, as many runs of a delivery job as are left of the attempts bring the event to an end:
  -- it is DELIVERED or FAILED, its attempts stay within the limit, and the merchant was sent one request at most for
  -- each attempt that was left.
  pub delivery_ends :
      (runs : ℕ) (event : OutboundEvent) (w : World)
      → IsDue config id event w
      → event.attempt_count < config.max_attempts
      → config.max_attempts ≤ event.attempt_count + runs
      → (w' : World) × (run_job config runs id w ≡ some w')
        × IsSettled config id config.max_attempts (config.max_attempts - event.attempt_count) w w'
  delivery_ends zero event w due left enough = absurd (omega arith)
  delivery_ends (suc runs) event w due left enough =
      by_attempt (attempt_lem config id event w due) (delivery_ends runs)
    where
      by_attempt :
          Attempt config id event w
          → ((next_event : OutboundEvent) (v : World)
              → IsDue config id next_event v
              → next_event.attempt_count < config.max_attempts
              → config.max_attempts ≤ next_event.attempt_count + runs
              → (w' : World) × (run_job config runs id v ≡ some w')
                × IsSettled config id config.max_attempts
                    (config.max_attempts - next_event.attempt_count)
                    v
                    w')
          → (w' : World) × (run_job config (suc runs) id w ≡ some w')
            × IsSettled config id config.max_attempts
                (config.max_attempts - event.attempt_count)
                w
                w'
      by_attempt (settles h s) more = (
        world_after (deliver config id) w,
        run_settled runs w h,
        looser s (omega arith) (omega arith),
      )
      by_attempt (puts_off v off) more =
          let (w', ran, s) =
            more off.next_event v off.due (omega (arith, off.counted, off.below))
              (omega (arith, off.counted)) in
          (
            w',
            run_again runs w v off.error off.threw ∙ ran,
            looser s (omega arith) (omega (arith, off.counted, off.below, off.posts_le)),
          )
