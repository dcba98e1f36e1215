-- ===== src/Backup/Record.antt =====
-- `RunAndRecord` of internal/backup/run.go, and the webhook of internal/utils/notifications.go.
pub mod Outcome
use dockvault.Common.{
  Option, none, some, ◌++◌, inl, inr, Text, codes, null, leb, decimal, if◌then◌else◌, Instant,
  format_rfc3339_nano,
}
use dockvault.Effects.{
  Error, Json, text, object, no_fields, field, to_result, Answer, M, ◌>>=◌, ◌>>◌, return, fail,
  wrap, attempt, ask, perform, now, http_post,
}
use dockvault.Backup.Job.{Job}

-- The fields that a backup sets; the other two are left empty and are omitted.
pub record WebhookPayload : Type 0 where
  pub job : Text
  pub status : Text
  pub message : Text
  pub timestamp : Instant

unfoldable pub payload_json : WebhookPayload → Json
payload_json p = object (
    field (codes "job") (text p.job) (
      field (codes "status") (text p.status) (
        field (codes "message") (text p.message)
          (field (codes "timestamp") (text (format_rfc3339_nano p.timestamp)) no_fields))))

unfoldable pub send_webhook : Text → WebhookPayload → M (Unit {0})
send_webhook url payload = if null url then return tt else (do
  status ←
      wrap (codes "webhook request failed: ") (ask (http_post url (payload_json payload)) to_result)
  if leb 300 status then fail (codes "webhook returned status " ++ decimal status) else return tt)

unfoldable pub recorded_status : Answer Text → Text
recorded_status (inr status) = status
recorded_status (inl e) = codes "failed: " ++ e.message

unfoldable pub outcome_word : Answer Text → Text
outcome_word (inr status) = codes "success"
outcome_word (inl e) = codes "failure"

unfoldable pub error_of : Answer Text → Option Error
error_of (inr status) = none
error_of (inl e) = some e

unfoldable pub recorded : Job → Instant → Answer Text → Job
recorded job t r = record job { last_backup = some t; last_backup_status = recorded_status r }

unfoldable pub payload_of : Job → Instant → Answer Text → WebhookPayload
payload_of job t r = record {
  job = job.name;
  status = outcome_word r;
  message = recorded_status r;
  timestamp = t;
}

-- The job with its new record, and the error to return.
unfoldable pub run_and_record : Job → M Text → M (Job × Option Error)
run_and_record job fn = do
  r ← attempt fn
  t ← perform now
  attempt (
      if null job.webhook_url then return tt else send_webhook job.webhook_url (payload_of job t r))
  return (recorded job t r, error_of r)
