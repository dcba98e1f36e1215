-- ===== src/Detector/Naming.antt =====
-- internal/detector/naming.go, and the job names of internal/detector/detector.go.
use dockvault.Common.{
  Dict, lookup, value_of, ℕ, Bool, true, false, not, Option, none, some, [], ◌∷◌, ◌++◌, ◌&&◌, ◌||◌,
  Text, codes, ◌=t◌, null, all, leb, ◌==◌, length, take, to_lower, trim, trim_space, trim_prefix,
  trim_suffix, trim_right, clean, path_base, if◌then◌else◌,
}
use dockvault.Utils.{is_alnum}
use dockvault.Detector.ServiceTypes.{ServiceType, postgres, mysql, mongodb, generic, name_of}

-- `anonymousVolumeRE`
abbrev is_hex : ℕ → Bool
is_hex c = (leb b'0' c && leb c b'9') || (leb b'a' c && leb c b'f')

unfoldable pub is_anonymous : Text → Bool
is_anonymous name = (length name == 64) && all is_hex name

unfoldable pub volume_identifier : Text → Text
unfolding is_anonymous
volume_identifier name = if is_anonymous name then codes "vol-" ++ take 8 name else name

-- The name that stands for a path without one.
abbrev or_root : Text → Text
or_root base =
    if null base || (base =t codes ".") || (base =t codes "/") then codes "root" else base

unfoldable pub bind_mount_identifier : Text → Text
bind_mount_identifier target = codes "bind-" ++ or_root (path_base (clean target))

unfoldable pub remote_path : Text → Text → Text → Text → Text
remote_path environment hostname service job =
    codes "/"
    ++ (to_lower environment
        ++ (codes "/"
            ++ (to_lower hostname
                ++ (codes "/"
                    ++ (to_lower service ++ (codes "/" ++ (to_lower job ++ codes "/")))))))

unfoldable pub normalize_environment : Text → Text
normalize_environment env =
    let env' = to_lower (trim_space env) in if null env' then codes "stage" else env'

abbrev pub is_underscore : ℕ → Bool
is_underscore c = c == b'_'

-- `nonAlnumRE.ReplaceAllString(s, "_")`, with whether the byte before was replaced.
unfoldable pub collapse : Bool → Text → Text
collapse in_run [] = []
collapse in_run (c ∷ s) =
    let rest = collapse (not (is_alnum c)) s in
    if is_alnum c then c ∷ rest else if in_run then rest else b'_' ∷ rest

unfoldable pub sanitize_component : Text → Text
unfolding collapse
sanitize_component s =
    let out = trim is_underscore (collapse false (to_lower s)) in
    if null out then codes "unnamed" else out

-- The key of the credential that names the database, and of the user.
unfoldable pub db_key : ServiceType → Option Text
db_key postgres = some (codes "POSTGRES_DB")
db_key mysql = some (codes "MYSQL_DATABASE")
db_key mongodb = some (codes "MONGO_INITDB_DATABASE")
db_key _ = none

unfoldable pub db_name_from_creds : ServiceType → Dict → Text
unfolding db_key
db_name_from_creds service creds = elim (db_key service) [
  | none ↦ []
  | some key ↦ value_of key creds
]

unfoldable pub user_key : ServiceType → Option Text
user_key postgres = some (codes "POSTGRES_USER")
user_key mysql = some (codes "MYSQL_USER")
user_key mongodb = some (codes "MONGO_INITDB_ROOT_USERNAME")
user_key _ = none

unfoldable pub has_user_cred : ServiceType → Dict → Bool
unfolding user_key
has_user_cred service creds = elim (user_key service) [
  | none ↦ false
  | some key ↦ elim (lookup key creds) [ none ↦ false | some v ↦ true ]
]

unfoldable pub volume_suffix : Text → Text → Text
volume_suffix volume service =
    let name = to_lower volume in
    let name = trim_suffix name (codes "_data") in
    let name = trim_suffix name (codes "_db") in
    let name = trim_suffix name (codes "_volume") in
    let name = trim_suffix name (codes "_vol") in
    let name = trim is_underscore (trim_prefix name (to_lower service ++ codes "_")) in
    if null name || (name =t to_lower service) then [] else name

abbrev pub is_generic : ServiceType → Bool
is_generic generic = true
is_generic _ = false

unfoldable pub suffix_of : Text → ServiceType → Text
unfolding volume_suffix is_anonymous volume_identifier
suffix_of volume service =
    if is_anonymous volume then volume_identifier volume else volume_suffix volume (name_of service)

-- The name before it is sanitized.
unfoldable pub proposed_name : Text → ServiceType → Dict → Text
unfolding db_name_from_creds has_user_cred suffix_of
proposed_name volume service creds =
    let db = db_name_from_creds service creds in
    let suffix = suffix_of volume service in
    if not (null db)
    then name_of service ++ (codes "_" ++ db)
    else if has_user_cred service creds
    then name_of service ++ codes "_user_backup"
    else if not (is_generic service) && not (null suffix)
    then name_of service ++ (codes "_" ++ suffix)
    else name_of service ++ codes "_backup"

unfoldable pub generate_job_name : Text → ServiceType → Dict → Text
unfolding proposed_name sanitize_component
generate_job_name volume service creds = sanitize_component (proposed_name volume service creds)

unfoldable pub host_dir_job_name : Text → Text
unfolding sanitize_component
host_dir_job_name path =
    sanitize_component (or_root (path_base (trim_right (λ c. c == b'/') path)) ++ codes "_hostdir")
