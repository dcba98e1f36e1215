-- ===== src/Rclone.antt =====
-- internal/rclone/client.go: the wrapper of the `rclone` command, and the rule of retention.
pub mod Retention
pub mod Listing
pub mod Prune
pub mod Newest
pub mod SharedDrives
use dockvault.Common.{
  ℕ, Bool, true, false, Option, none, some, List, [], ◌∷◌, ◌++◌, ◌⊎◌, inl, inr, ◌&&◌, map, Text,
  codes, ◌=t◌, null, any, keep, take, drop, length, leb, ltb, trim_space, trim_prefix, trim_suffix,
  has_suffix, is_space, join, split, decimal, decimal_ℤ, quoted, if◌then◌else◌, ℤ, pos, negsuc,
  pos_part, Instant, parse_rfc3339, days_before, text_lt, sort_by, not,
}
use dockvault.Effects.{
  Content, bytes, Json, Fields, Exit, Result, ok, err, panic, errorf, M, ◌>>=◌, ◌>>◌, return, fail,
  attempt, lift, wrap, ask, perform, run_command, now, unmarshal,
}
use dockvault.Json.{text_field, int_field, bool_field, fields_of, decode_array}
use dockvault.Json

pub record Client : Type 0 where
  pub bin_path : Text
  pub remote : Text

unfoldable pub new : Text → Client
new remote = record { bin_path = codes "rclone"; remote = remote }

unfoldable pub bin : Client → Text
bin c = if null c.bin_path then codes "rclone" else c.bin_path

unfoldable pub read_exit : List Text → Exit → Result Text
read_exit args e = elim e.failure [
  | none ↦ ok e.stdout
  | some cause ↦
      let stderr = trim_space e.stderr in
      let message = if null stderr then cause else stderr in
      err (errorf (codes "rclone " ++ (join args (codes " ") ++ (codes ": " ++ message))))
]

unfoldable pub run : Client → List Text → M Text
run c args = ask (run_command (bin c) args none) (read_exit args)

unfoldable pub remote_path : Client → Text → Text
remote_path c path = c.remote ++ (codes ":" ++ trim_prefix path (codes "/"))

abbrev pub manifest_suffix : Text
manifest_suffix = codes ".manifest.json"

unfoldable pub has_remote : Client → Text → Bool
has_remote c line = trim_suffix (trim_space line) (codes ":") =t c.remote

unfoldable pub check_configured : Client → M (Unit {0})
check_configured c = do
  out ← run c (codes "listremotes" ∷ [])
  if any (has_remote c) (split out 10)
      then return tt
      else fail (
          codes "rclone remote "
          ++ (quoted c.remote
              ++ (codes " is not configured\n  hint: run `rclone config` and create a remote named "
                  ++ quoted c.remote)))

unfoldable pub mkdir : Client → Text → M (Unit {0})
mkdir c path =
    wrap (codes "creating remote directory " ++ (path ++ codes ": "))
      (run c (codes "mkdir" ∷ remote_path c path ∷ []) >> return tt)

unfoldable pub upload : Client → Text → Text → M (Unit {0})
upload c local path =
    wrap (codes "uploading " ++ (local ++ codes ": "))
      (run c (codes "copy" ∷ local ∷ remote_path c path ∷ []) >> return tt)

pub record LsjsonEntry : Type 0 where
  pub path : Text
  pub name : Text
  pub size : ℤ
  pub mod_time : Text
  pub is_dir : Bool

unfoldable pub decode_entry : Json → Result LsjsonEntry
decode_entry j = Json.◌>>=◌ (fields_of j) λ fs. Json.◌>>=◌ (text_field (codes "Path") [] fs) λ path.
    Json.◌>>=◌ (text_field (codes "Name") [] fs) λ name.
      Json.◌>>=◌ (int_field (codes "Size") (pos 0) fs) λ size.
        Json.◌>>=◌ (text_field (codes "ModTime") [] fs) λ mod_time.
          Json.◌>>=◌ (bool_field (codes "IsDir") false fs) λ is_dir.
            ok (record {
              path = path;
              name = name;
              size = size;
              mod_time = mod_time;
              is_dir = is_dir;
            })

pub record FileInfo : Type 0 where
  pub name : Text
  pub size : ℤ
  pub mod_time : Text
  pub path : Text

-- The loop of `ListFiles`: directories and manifests are left out.
unfoldable pub is_backup : LsjsonEntry → Bool
is_backup e = if e.is_dir then false else not (has_suffix e.name manifest_suffix)

unfoldable pub file_of : Text → LsjsonEntry → FileInfo
file_of base e = record {
  name = e.name;
  size = e.size;
  mod_time = e.mod_time;
  path = base ++ (codes "/" ++ e.name);
}

unfoldable pub newer : FileInfo → FileInfo → Bool
newer a b = text_lt b.mod_time a.mod_time

unfoldable pub files_of : Text → List LsjsonEntry → List FileInfo
files_of path entries =
    sort_by newer (map (file_of (trim_suffix path (codes "/"))) (keep is_backup entries))

unfoldable pub list_entries : Text → M Text → M (List LsjsonEntry)
list_entries path output = do
  out ← wrap (codes "listing " ++ (path ++ codes ": ")) output
  wrap (codes "parsing rclone lsjson output: ")
      (do j ← unmarshal (bytes out); lift (decode_array decode_entry j))

unfoldable pub list_files : Client → Text → M (List FileInfo)
list_files c path = do
  entries ← list_entries path (run c (codes "lsjson" ∷ remote_path c path ∷ []))
  return (files_of path entries)

-- `TreeEntry` has the fields of an entry of the listing.
unfoldable pub list_tree : Client → Text → M (List LsjsonEntry)
list_tree c path =
    list_entries path (run c (codes "lsjson" ∷ codes "--recursive" ∷ remote_path c path ∷ []))

unfoldable pub download : Client → Text → Text → M (Unit {0})
download c path dest =
    wrap (codes "downloading " ++ (path ++ codes ": "))
      (run c (codes "copy" ∷ remote_path c path ∷ dest ∷ []) >> return tt)

-- Whether a file is older than the cutoff: a time that does not parse is not.
unfoldable pub is_expired : Instant → FileInfo → Bool
is_expired cutoff f = elim (parse_rfc3339 f.mod_time) [ none ↦ false | some t ↦ ltb t cutoff ]

-- `FilesToPrune` at a moment. The slice `files[minFilesToKeep:]` panics below zero.
unfoldable pub files_to_prune : Instant → List FileInfo → ℤ → ℤ → Result (List FileInfo)
files_to_prune moment files days (negsuc n) = panic (codes "slice bounds out of range")
files_to_prune moment files days (pos n) =
    if leb (length files) n
    then ok []
    else ok (keep (is_expired (days_before moment days)) (drop n files))

-- The clock is read only behind the two ends of `FilesToPrune` that need no time.
unfoldable pub choose_old : List FileInfo → ℤ → ℤ → M (List FileInfo)
choose_old files days (negsuc n) = lift (panic (codes "slice bounds out of range"))
choose_old files days (pos n) =
    if leb (length files) n
    then return []
    else (do t ← perform now; lift (files_to_prune t files days (pos n)))

unfoldable pub delete_file : Client → Text → M Text
delete_file c path = run c (codes "deletefile" ∷ remote_path c path ∷ [])

-- The loop of `Prune`, over what is left to delete, with the names deleted so far. A failure returns
-- them beside its error; no caller reads them then.
unfoldable pub prune_loop : Client → ℤ → List FileInfo → List Text → M (List Text)
prune_loop c least [] pruned = return pruned
prune_loop c least (f ∷ fs) pruned = do
  wrap
      (codes "deleting "
        ++ (f.path
            ++ (codes " (kept "
                ++ (decimal (length pruned)
                    ++ (codes " of the newest "
                        ++ (decimal_ℤ least ++ codes " backups intact so far): "))))))
      (delete_file c f.path)
  attempt (delete_file c (f.path ++ manifest_suffix))
  prune_loop c least fs (pruned ++ (f.name ∷ []))

unfoldable pub prune : Client → Text → ℤ → ℤ → M (List Text)
prune c path days least = do
  files ← wrap (codes "checking file count before prune: ") (list_files c path)
  to_delete ← choose_old files days least
  prune_loop c least to_delete []

-- `strings.Fields`, its first element
unfoldable pub first_word : Text → Text
first_word [] = []
first_word (c ∷ s) = if is_space c then [] else c ∷ first_word s

unfoldable pub hashsum : Client → Text → M Text
hashsum c path = do
  out ←
      wrap (codes "hashing " ++ (path ++ codes ": "))
        (run c (codes "hashsum" ∷ codes "md5" ∷ remote_path c path ∷ []))
  let line = trim_space out
  if null line
      then fail (codes "hashing " ++ (path ++ codes ": empty output from rclone hashsum"))
      else return (first_word line)
