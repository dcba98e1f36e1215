-- ===== src/Generator/Dialogue.antt =====
-- The questions of internal/generator/wizard.go. A loop that asks again takes fuel, one unit for each
-- answer; `none` means that the fuel ran out. The loop of `promptInt` and the one around it are one here:
-- both ask the same question again, after a line on what is wrong.
use dockvault.Common.{
  ℕ, zero, suc, Bool, not, Option, none, some, List, [], ◌∷◌, ◌++◌, Text, codes, null, any,
  trim_space, atoi, ℤ, decimal_ℤ, quoted, assign, value_of, Dict, if◌then◌else◌,
}
use dockvault.Effects.{
  Result, ok, err, panic, M, ◌>>=◌, ◌>>◌, return, lift, ask, to_result, read_line,
}
use dockvault.Utils.{
  validate_retention_days, validate_min_files_to_keep, validate_local_retention_count,
  validate_webhook_url,
}
use dockvault.Utils.Selectors.{say}
use dockvault.Backup.Job.{Job}
use dockvault.Backup.Clients.{DockerClient}
use dockvault.Detector.ServiceTypes.{credential_env_keys_for}
use dockvault.Generator.Connectivity.{test_connectivity}

-- A blank line is the default.
unfoldable pub prompt_string : Text → Text → M Text
prompt_string label default = do
  say (label ++ (codes " [" ++ (default ++ codes "]: ")))
  line ← ask read_line to_result
  return (if null (trim_space line) then default else trim_space line)

-- The value, if it passes, and a line on it, if it does not.
unfoldable pub checked : {A : Type 0} → A → Result (Unit {0}) → M (Option A)
checked a (ok done) = return (some a)
checked a (err e) = say e.message >> return none
checked a (panic t) = lift (panic t)

unfoldable pub parsed_int : (ℤ → Result (Unit {0})) → Option ℤ → M (Option ℤ)
parsed_int validate none = say (codes "enter a whole number") >> return none
parsed_int validate (some n) = checked n (validate n)

-- One round of a question for a number.
unfoldable pub int_round : Text → ℤ → (ℤ → Result (Unit {0})) → M (Option ℤ)
int_round label default validate = do
  say (label ++ (codes " [" ++ (decimal_ℤ default ++ codes "]: ")))
  line ← ask read_line to_result
  if null (trim_space line)
      then checked default (validate default)
      else parsed_int validate (atoi (trim_space line))

unfoldable pub string_round : Text → Text → (Text → Result (Unit {0})) → M (Option Text)
string_round label default validate = do t ← prompt_string label default; checked t (validate t)

-- What follows a value, or its absence.
abbrev pub choose : {A B : Type 0} → M (Option B) → (A → M (Option B)) → Option A → M (Option B)
choose absent f none = absent
choose absent f (some a) = f a

-- The round again until it gives a value.
unfoldable pub retry : {A : Type 0} → ℕ → M (Option A) → M (Option A)
retry zero round = return none
retry (suc fuel) round = round >>= choose (retry fuel round) (λ a. return (some a))

infixl 5 ◌>>?◌
abbrev pub ◌>>?◌ : {A B : Type 0} → M (Option A) → (A → M (Option B)) → M (Option B)
m >>? f = m >>= choose (return none) f

unfoldable pub prompt_job_overrides : ℕ → Job → M (Option Job)
prompt_job_overrides fuel job =
    retry fuel (int_round (codes "Retention days") job.retention_days validate_retention_days)
    >>? λ days.
        retry fuel
          (int_round (codes "Min files to keep") job.min_files_to_keep validate_min_files_to_keep)
        >>? λ least.
            retry fuel (
              int_round (codes "Local backup copies to retain (0 disables)")
                job.local_retention_count validate_local_retention_count)
            >>? λ count.
                retry fuel (
                  string_round (codes "Webhook URL (blank for none)") job.webhook_url
                    validate_webhook_url)
                >>? λ url. return (
                    some (record job {
                      retention_days = days;
                      min_files_to_keep = least;
                      local_retention_count = count;
                      webhook_url = url;
                    }))

unfoldable pub prompt_key : Text → Dict → M Dict
prompt_key key creds =
    if null (value_of key creds)
    then (do
      val ← prompt_string (codes "  " ++ (key ++ codes " (blank to skip)")) []
      return (if null val then creds else assign key val creds))
    else return creds

unfoldable pub prompt_keys : List Text → Dict → M Dict
prompt_keys [] creds = return creds
prompt_keys (key ∷ keys) creds = prompt_key key creds >>= prompt_keys keys

unfoldable pub say_connectivity : Bool × Text → M (Unit {0})
say_connectivity (reached, msg) =
    if null msg
    then return tt
    else if reached
    then say (codes "  connectivity check: " ++ msg)
    else say (codes "  connectivity check: " ++ (msg ++ codes " (job will still be saved)"))

-- The connection is tried with a Docker client, if there is one.
unfoldable pub try_connection : Option DockerClient → Job → M (Unit {0})
try_connection none job = return tt
try_connection (some dc) job = do r ← test_connectivity dc job; say_connectivity r

unfoldable pub prompt_missing_credentials : Option DockerClient → Job → M Job
prompt_missing_credentials dc job =
    let keys = credential_env_keys_for job.service_type in
    if null keys
    then return job
    else if null job.container_name
    then return job
    else if not (any (λ k. null (value_of k job.credentials)) keys)
    then return job
    else (do
      say (
          codes "\n"
          ++ (quoted job.name
              ++ codes
                  " is missing credentials that couldn't be auto-detected from the container's environment:"))
      creds ← prompt_keys keys job.credentials
      let filled = record job { credentials = creds }
      try_connection dc filled
      return filled)
