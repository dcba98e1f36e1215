-- ===== src/Utils.antt =====
-- internal/utils/validators.go
pub mod Selectors
pub mod Questions
use dockvault.Common.{
  ℕ, Bool, false, [], ◌∷◌, ◌++◌, ◌&&◌, ◌||◌, Text, codes, null, all, leb, ◌==◌, quoted, has_prefix,
  if◌then◌else◌, ℤ, negative, nonpos, decimal_ℤ,
}
use dockvault.Effects.{Result, ok, err, errorf}

-- `[a-z0-9]` and `[a-z0-9_]`
abbrev pub is_alnum : ℕ → Bool
is_alnum c = (leb b'a' c && leb c b'z') || (leb b'0' c && leb c b'9')

abbrev pub is_name_byte : ℕ → Bool
is_name_byte c = is_alnum c || (c == b'_')

-- `jobNameRE`
unfoldable pub matches_job_name : Text → Bool
matches_job_name [] = false
matches_job_name (c ∷ s) = is_alnum c && all is_name_byte s

unfoldable pub validate_job_name : Text → Result (Unit {0})
unfolding matches_job_name
validate_job_name name =
    if null name
    then err (errorf (codes "job name cannot be empty"))
    else if matches_job_name name
    then ok tt
    else err (
        errorf (
          codes "job name "
          ++ (quoted name
              ++ codes
                  " must be lowercase alphanumeric with underscores, starting with a letter or digit")))

unfoldable pub validate_retention_days : ℤ → Result (Unit {0})
validate_retention_days days =
    if nonpos days
    then err (errorf (codes "retention_days must be at least 1, got " ++ decimal_ℤ days))
    else ok tt

unfoldable pub validate_min_files_to_keep : ℤ → Result (Unit {0})
validate_min_files_to_keep n =
    if negative n
    then err (errorf (codes "min_files_to_keep cannot be negative, got " ++ decimal_ℤ n))
    else ok tt

unfoldable pub validate_local_retention_count : ℤ → Result (Unit {0})
validate_local_retention_count n =
    if negative n
    then err (errorf (codes "local_retention_count cannot be negative, got " ++ decimal_ℤ n))
    else ok tt

unfoldable pub validate_webhook_url : Text → Result (Unit {0})
validate_webhook_url url =
    if null url
    then ok tt
    else if has_prefix url (codes "http://") || has_prefix url (codes "https://")
    then ok tt
    else err (
        errorf
          (codes "webhook URL " ++ (quoted url ++ codes " must start with http:// or https://")))
