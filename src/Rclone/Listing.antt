-- ===== src/Rclone/Listing.antt =====
-- The order and the content of `ListFiles`.
use mathlib.Core.List.{Perm}
use dockvault.Common.{
  [], ◌++◌, ◌&&◌, has_suffix, refl, Bool-cases, not, text_lt, ◌∷◌, Bool, ◌≡◌, List, map, keep, Text,
  codes, trim_suffix,
}
use mathlib.Core.Logic.{inl, inr}
use dockvault.Common.Order.{
  InOrder, sort_by-InOrder, sort_by-perm, text_lt-IsComparison, text_lt-asymm,
}
use dockvault.Common.Order.{IsComparison}
use dockvault.Rclone.{FileInfo, LsjsonEntry, newer, file_of, files_of, is_backup}

newer-IsComparison : IsComparison newer
unfolding newer
newer-IsComparison a b c h = elim (text_lt-IsComparison c.mod_time b.mod_time a.mod_time h) [
  | inl e ↦ inr e
  | inr e ↦ inl e
]

-- A file is not a directory, and its name does not end like that of a manifest.
abbrev pub is_archive : LsjsonEntry → Bool
is_archive e = not e.is_dir && not (has_suffix e.name (codes ".manifest.json"))

-- The order of the listing: the greater text of the modification time first.
abbrev pub is_later : FileInfo → FileInfo → Bool
is_later a b = text_lt b.mod_time a.mod_time

abbrev pub described : Text → LsjsonEntry → FileInfo
described dir e = record {
  name = e.name;
  size = e.size;
  mod_time = e.mod_time;
  path = trim_suffix dir (codes "/") ++ (codes "/" ++ e.name);
}

keep-is_backup : (entries : List LsjsonEntry) → keep is_backup entries ≡ keep is_archive entries
unfolding keep is_backup
keep-is_backup [] = refl
keep-is_backup (e ∷ es) = elim (Bool-cases e.is_dir) [
  | inl d ↦ rw (d, keep-is_backup es) refl
  | inr d ↦ rw (d, keep-is_backup es) refl
]

pub files_of-InOrder :
    (path : Text) (entries : List LsjsonEntry) → InOrder is_later (files_of path entries)
unfolding files_of newer
files_of-InOrder path entries =
    sort_by-InOrder newer newer-IsComparison (λ a b. text_lt-asymm b.mod_time a.mod_time) _

-- The files are the entries of the listing that are neither directories nor named like a manifest, each
-- as often as it is listed, with its name below the directory as its path; and no file stands behind
-- one whose modification time is a smaller text.
pub files_of_listing :
    (path : Text) (entries : List LsjsonEntry)
    → InOrder is_later (files_of path entries)
      × Perm (files_of path entries) (map (described path) (keep is_archive entries))
unfolding files_of file_of
files_of_listing path entries =
    (files_of-InOrder path entries, rw (keep-is_backup entries) (sort_by-perm newer _))
