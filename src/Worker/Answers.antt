-- ===== src/Worker/Answers.antt =====
-- What an answer of APNs means for the job and for its device: process of
-- server/internal/apns/client.go.
use along.Prelude.{◌⊎◌, ℕ, ◌<◌, ◌≡◌, ◌≢◌, String, false, ◌==◌}
use along.Store.Push.{PushJob}
use along.Worker.{Verdict, delivered, unregistered, refused}

-- The answers of APNs that settle a job, by their status and reason: the notification was accepted,
-- the device token is no longer good, or the notification was refused for another reason. The
-- answers that are left, 429 and 500 and above, are worth another try.
pub data Settled (status : ℕ) (reason : String) : Type 0 where
  accepted : status ≡ 200 → Settled status reason
  gone : status ≡ 410 → Settled status reason
  bad_device_token : status ≡ 400 → reason ≡ "BadDeviceToken" → Settled status reason
  wrong_topic : status ≡ 400 → reason ≡ "DeviceTokenNotForTopic" → Settled status reason
  rejected :
      status ≢ 200
      → status ≢ 410
      → status ≢ 429
      → status < 500
      → (status ≢ 400) ⊎ ((reason ≢ "BadDeviceToken") × (reason ≢ "DeviceTokenNotForTopic"))
      → Settled status reason

-- What such an answer rules out for a job that is claimed later: to be the same job, or to be for
-- the same device.
abbrev pub Excluded :
    {status : ℕ} {reason : String} → Settled status reason → PushJob → PushJob → Type 0
Excluded (accepted _) job j = (j.id == job.id) ≡ false
Excluded (gone _) job j = (j.device_id == job.device_id) ≡ false
Excluded (bad_device_token _ _) job j = (j.device_id == job.device_id) ≡ false
Excluded (wrong_topic _ _) job j = (j.device_id == job.device_id) ≡ false
Excluded (rejected _ _ _ _ _) job j = (j.id == job.id) ≡ false

verdict_of : {status : ℕ} {reason : String} → Settled status reason → Verdict
verdict_of (accepted _) = delivered
verdict_of (gone _) = unregistered
verdict_of (bad_device_token _ _) = unregistered
verdict_of (wrong_topic _ _) = unregistered
verdict_of (rejected _ _ _ _ _) = refused
