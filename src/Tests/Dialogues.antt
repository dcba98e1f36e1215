-- ===== src/Tests/Dialogues.antt =====
-- The questions on a job, on a terminal that gives four lines.
use dockvault.Tests.{reply, host, job}
use dockvault.Common.{
  ◌≡◌, ◌≤◌, ℕ, zero, suc, refl, ap, Option, some, List, [], inl, inr, Text, codes, arith, pos,
  trim_space, has_prefix,
}
use dockvault.Effects.{Call, Reply, Answer, errorf, read_line, World, ok, monad}
use dockvault.Utils.{
  validate_retention_days, validate_min_files_to_keep, validate_local_retention_count,
  validate_webhook_url,
}
use dockvault.Utils.Selectors.{say}
use dockvault.Backup.Job.{Job}
use dockvault.Generator.Dialogue.{
  prompt_string, checked, parsed_int, int_round, string_round, retry, prompt_job_overrides,
}
use dockvault.Generator.DialogueLaws.{IsValidJob}
use dockvault.Generator.DialogueLaws.Ends.{reads, prompt_job_overrides-IsValidJob}

abbrev blank_until : ℕ → Answer Text
blank_until zero = inr []
blank_until (suc zero) = inr []
blank_until (suc (suc zero)) = inr []
blank_until (suc (suc (suc zero))) = inr []
blank_until _ = inl (errorf (codes "EOF"))

abbrev typed : List Call → (c : Call) → Reply c
typed log read_line = blank_until (reads log)
typed log c = reply log c

abbrev terminal : World
terminal = record { platform = record host { answer = typed }; log = [] }

blank_until_end : (n : ℕ) → 4 ≤ n → blank_until n ≡ inl (errorf (codes "EOF"))
blank_until_end zero h = absurd (omega arith)
blank_until_end (suc zero) h = absurd (omega arith)
blank_until_end (suc (suc zero)) h = absurd (omega arith)
blank_until_end (suc (suc (suc zero))) h = absurd (omega arith)
blank_until_end (suc (suc (suc (suc n)))) h = refl

abbrev kept_month : Job
kept_month = record job {
  retention_days = pos 30;
  min_files_to_keep = pos 3;
  local_retention_count = pos 2;
  webhook_url = codes "https://hook.example";
}

asked : (prompt_job_overrides 5 kept_month terminal).0 ≡ ok (some kept_month)
unfolding prompt_job_overrides retry int_round string_round prompt_string checked parsed_int say
    monad validate_retention_days validate_min_files_to_keep validate_local_retention_count
    validate_webhook_url trim_space has_prefix
asked = refl

prompt_job_overrides-IsValidJob_example :
    (job' : Job) × (◌≡◌ {A = Option Job} (some kept_month) (some job')) × IsValidJob job'
prompt_job_overrides-IsValidJob_example =
    prompt_job_overrides-IsValidJob 4 5 kept_month terminal
      (prompt_job_overrides 5 kept_month terminal).1 (some kept_month)
      (λ log h. (errorf (codes "EOF"), blank_until_end (reads log) h)) (omega arith)
      (ap (λ r. (r, (prompt_job_overrides 5 kept_month terminal).1)) asked)
