-- ===== src/Backup/Record/Outcome.antt =====
-- What `RunAndRecord` leaves behind, for a backup that succeeded and for one that failed.
use dockvault.Common.{
  Option, none, some, format_rfc3339_nano, ◌≡◌, refl, List, [], ◌∷◌, inl, inr, Text, codes, null,
  Bool-cases, if◌then◌else◌, leb, Instant, decimal, ◌++◌,
}
use dockvault.Effects.{
  Error, Json, object, field, text, no_fields, Call, now, http_post, ok, World, M, monad, ◌>>=◌,
  Answer, Answer-cases, to_result, attempt, return, perform, errorf,
}
use dockvault.Backup.Job.{Job}
use dockvault.Backup.Record.{
  WebhookPayload, payload_json, send_webhook, payload_of, recorded, recorded_status, outcome_word,
  error_of, run_and_record,
}

-- The record of a backup that ended at `t`, and the error to return.
abbrev pub Report : Type 0
Report = Job × Option Error

abbrev pub report : Job → Instant → Answer Text → Report
report job t (inr status) = (record job { last_backup = some t; last_backup_status = status }, none)
report job t (inl e) = (
  record job { last_backup = some t; last_backup_status = codes "failed: " ++ e.message },
  some e,
)

-- What the webhook is told.
abbrev pub notice : Job → Instant → (word message : Text) → Json
notice job t word message = object (
    field (codes "job") (text job.name) (
      field (codes "status") (text word) (
        field (codes "message") (text message)
          (field (codes "timestamp") (text (format_rfc3339_nano t)) no_fields))))

abbrev pub notice_of : Job → Instant → Answer Text → Json
notice_of job t (inr status) = notice job t (codes "success") status
notice_of job t (inl e) = notice job t (codes "failure") (codes "failed: " ++ e.message)

-- The log behind the recording: the clock is read, and then the webhook is called if there is one.
abbrev pub notified : Job → Json → List Call → List Call
notified job body log =
    if null job.webhook_url then now ∷ log else http_post job.webhook_url body ∷ now ∷ log

abbrev notify : Job → WebhookPayload → M (Unit {0})
notify job payload =
    if null job.webhook_url then return tt else send_webhook job.webhook_url payload

-- The notification makes its one request and does not panic, whatever the webhook answers.
notify_lem :
    (job : Job) (payload : WebhookPayload) (w : World)
    → (a : Answer (Unit {0})) × (attempt (notify job payload) w ≡ (
      ok a,
      record w {
        log =
            if null job.webhook_url
            then w.log
            else http_post job.webhook_url (payload_json payload) ∷ w.log;
      },
    ))
unfolding send_webhook monad
notify_lem job payload w = elim (Bool-cases (null job.webhook_url)) [
  | inl e ↦ (inr tt, rw e refl)
  | inr e ↦
      elim (Answer-cases
        (w.platform.answer w.log (http_post job.webhook_url (payload_json payload)))) [
          | inl (x, p) ↦
              (inl (errorf (codes "webhook request failed: " ++ (x.message ++ []))), rw (e, p) refl)
          | inr (status, p) ↦ elim (Bool-cases (leb 300 status)) [
            | inl q ↦ (
              inl (errorf (codes "webhook returned status " ++ decimal status)),
              rw (e, p, q) refl,
            )
            | inr q ↦ (inr tt, rw (e, p, q) refl)
          ]
        ]
]

attempt-to_result :
    (fn : M Text) (r : Answer Text) (w w1 : World)
    → fn w ≡ (to_result r, w1)
    → attempt fn w ≡ (ok r, w1)
unfolding attempt
attempt-to_result fn (inl e) w w1 h = rw h refl
attempt-to_result fn (inr s) w w1 h = rw h refl

-- A backup that ends in a status or in an error is recorded with the moment behind it: the status as it
-- is, or "failed: " and the error's text; a job with a webhook makes one call with the same text and
-- the word "success" or "failure", whose answer changes nothing; and exactly a failure is returned as an
-- error.
pub run_and_record_outcome :
    (job : Job) (fn : M Text) (r : Answer Text) (w w1 : World)
    → fn w ≡ (to_result r, w1)
    → let t : Instant = w1.platform.answer w1.log now in
      run_and_record job fn w
      ≡ (ok (report job t r), record w1 { log = notified job (notice_of job t r) w1.log })
unfolding run_and_record ◌>>=◌ perform return recorded payload_of error_of outcome_word
    recorded_status payload_json
run_and_record_outcome job fn (inl e) w w1 h =
    let t : Instant = w1.platform.answer w1.log now in
    let (a, k) = notify_lem job (payload_of job t (inl e)) (record w1 { log = now ∷ w1.log }) in
    rw (attempt-to_result fn (inl e) w w1 h, k) refl
run_and_record_outcome job fn (inr s) w w1 h =
    let t : Instant = w1.platform.answer w1.log now in
    let (a, k) = notify_lem job (payload_of job t (inr s)) (record w1 { log = now ∷ w1.log }) in
    rw (attempt-to_result fn (inr s) w w1 h, k) refl
