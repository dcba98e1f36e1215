-- ===== src/Workspace/HistoryRoundTrip.antt =====
-- What `SaveManifest` writes is what `LoadManifest` reads.
use dockvault.Common.{
  arith, ◌≡◌, refl, sym, ap, ◌∙◌, List, [], ◌∷◌, none, some, Text, codes, ◌=t◌, =t_refl, ℤ, zero,
  suc, pos, negsuc, if◌then◌else◌, Option,
}
use mathlib.Core.Path.{subst}
use dockvault.Effects.{
  Json, text, number, object, Fields, no_fields, field, document, Call, Platform, World, Result, ok,
  ◌>>=◌, ask, write_file, Reply, monad, continue-ok,
}
use dockvault.Effects.Keeps.{Only, bind-Only, return-Only, attempt-Only, ask-Only}
use dockvault.Effects.Gate.{Anything}
use dockvault.Json.{get, as_int, int_field, fields_of, omit_empty, decode_items, decode_array}
use dockvault.Json.Omitted.{look_up, text_field-shown, text_field-text}
use dockvault.Backup.Manifest.{owner_only}
use dockvault.Workspace.Paths.{manifest_path, make_private, ensure_layout}
use dockvault.Workspace.History.{
  ManifestEntry, omit_zero, entry_json, entries_json, jobs_json, decode_manifest_entry, decode_jobs,
  decode_manifest, manifest_read, load_manifest, save_manifest,
}
use dockvault.Workspace.JobRoundTrip.{KeepsFiles}

-- A number that is left out if it is zero.
shown_number : ℤ → Option Json
shown_number (pos zero) = none
shown_number n = some (number n)

get-omit_zero :
    (k j : Text) (n : ℤ)
    → get k (omit_zero j n no_fields) ≡ (if j =t k then shown_number n else none)
unfolding omit_zero shown_number get
get-omit_zero k j (pos zero) = ground arith
get-omit_zero k j (pos (suc n)) = refl
get-omit_zero k j (negsuc n) = refl

int_field-shown :
    (k : Text) (n : ℤ) (fs : Fields) → get k fs ≡ shown_number n → int_field k (pos 0) fs ≡ ok n
unfolding int_field as_int shown_number
int_field-shown k (pos zero) fs h = rw h refl
int_field-shown k (pos (suc n)) fs h = rw h refl
int_field-shown k (negsuc n) fs h = rw h refl

abbrev fields : ManifestEntry → Fields
fields e = field (codes "job_name") (text e.job_name) (
    field (codes "service_type") (text e.service_type) (
      omit_empty (codes "last_backup") e.last_backup (
        omit_empty (codes "last_backup_status") e.last_backup_status
          (omit_zero (codes "last_size_bytes") e.last_size_bytes no_fields))))

decode_manifest_entry-entry_json : (e : ManifestEntry) → decode_manifest_entry (entry_json e) ≡ ok e
unfolding decode_manifest_entry entry_json fields_of ◌=t◌
decode_manifest_entry-entry_json e =
    rw
      (
        text_field-text (codes "job_name") e.job_name (fields e)
            (simp (look_up, get-omit_zero) refl),
        text_field-text (codes "service_type") e.service_type (fields e)
            (simp (look_up, get-omit_zero) refl),
        text_field-shown (codes "last_backup") e.last_backup (fields e)
            (simp (look_up, get-omit_zero) refl),
        text_field-shown (codes "last_backup_status") e.last_backup_status (fields e)
            (simp (look_up, get-omit_zero) refl),
        int_field-shown (codes "last_size_bytes") e.last_size_bytes (fields e)
            (simp (look_up, get-omit_zero) refl),
      )
      refl

decode_items-entries_json :
    (es : List ManifestEntry) → decode_items decode_manifest_entry (entries_json es) ≡ ok es
unfolding decode_items entries_json
decode_items-entries_json [] = refl
decode_items-entries_json (e ∷ es) =
    rw (decode_manifest_entry-entry_json e, decode_items-entries_json es) refl

decode_array-jobs_json :
    (es : List ManifestEntry) → decode_array decode_manifest_entry (jobs_json es) ≡ ok es
unfolding decode_array jobs_json
decode_array-jobs_json [] = refl
decode_array-jobs_json (e ∷ es) = decode_items-entries_json (e ∷ es)

abbrev manifest_json : List ManifestEntry → Json
manifest_json es = object (field (codes "jobs") (jobs_json es) no_fields)

decode_manifest-manifest_json :
    (es : List ManifestEntry) → decode_manifest (manifest_json es) ≡ ok es
unfolding decode_manifest decode_jobs fields_of get ◌=t◌
decode_manifest-manifest_json es = decode_array-jobs_json es

ensure_layout-Only : (root : Text) → Only Anything (ensure_layout root)
unfolding ensure_layout make_private
ensure_layout-Only root = bind-Only (private_dir _) λ _. private_dir _
  where
    private_dir : (dir : Text) → Only Anything (make_private dir)
    private_dir dir =
        unfold make_private in
        bind-Only (ask-Only _ _ tt)
          λ _. bind-Only (attempt-Only (ask-Only _ _ tt)) λ _. return-Only tt

-- A request that succeeds is the newest of the log.
asked :
    (c : Call) (read : Reply c → Result (Unit {0})) (w w' : World)
    → ask c read w ≡ (ok tt, w')
    → w' ≡ record w { log = c ∷ w.log }
unfolding ask
asked c read w w' h = sym (ap (λ r. r.1) h)

module _ (host : Platform) (root : Text) (es : List ManifestEntry) (keeps : KeepsFiles host) where
  abbrev saved : List Call → List Call
  saved log = write_file (manifest_path root) owner_only (document (manifest_json es)) ∷ log

  load-saved :
      (w : World)
      → w.platform ≡ host
      → (load_manifest root (record w { log = saved w.log })).0 ≡ ok es
  unfolding load_manifest manifest_read monad
  load-saved w e =
      rw
        (
          subst KeepsFiles (sym e) keeps (saved w.log) (manifest_path root)
              (document (manifest_json es)) (rw (=t_refl (manifest_path root)) refl),
          decode_manifest-manifest_json es,
        )
        refl

  -- On a file system that keeps the documents that are written, a history that was saved without an
  -- error is loaded again, entry by entry.
  pub load_manifest-save_manifest :
      (log : List Call) (w' : World)
      → save_manifest root es (record { platform = host; log = log }) ≡ (ok tt, w')
      → (load_manifest root w').0 ≡ ok es
  unfolding save_manifest ◌>>=◌
  load_manifest-save_manifest log w' h =
      let w : World = record { platform = host; log = log } in
      let (a, w1, h1, h2) = continue-ok (ensure_layout root w) _ h in
      let stays : w1.platform ≡ host =
        sym (ap (λ r. r.1.platform) h1) ∙ (ensure_layout-Only root).stays w in
      rw (asked _ _ w1 w' h2) (load-saved w1 stays)
