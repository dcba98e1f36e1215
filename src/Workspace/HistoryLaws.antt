-- ===== src/Workspace/HistoryLaws.antt =====
-- What `Upsert` leaves in the history of the jobs.
use dockvault.Common.{
  ◌≡◌, refl, Bool, false, Option, none, some, List, [], ◌∷◌, Text, ◌=t◌, =t_iff, any, ◌||◌, arith,
  Bool-cases, inl, inr, if◌then◌else◌, =t_refl,
}
use dockvault.Workspace.History.{ManifestEntry, upsert}

-- The entry of a job, the first one that has its name.
abbrev pub entry_of : Text → List ManifestEntry → Option ManifestEntry
entry_of name [] = none
entry_of name (e ∷ es) = if e.job_name =t name then some e else entry_of name es

abbrev pub is_recorded : Text → List ManifestEntry → Bool
is_recorded name es = any (λ e. e.job_name =t name) es

-- No job is recorded twice.
abbrev pub RecordedOnce : List ManifestEntry → Type 0
RecordedOnce [] = Unit
RecordedOnce (e ∷ es) = (is_recorded e.job_name es ≡ false) × RecordedOnce es

is_recorded-upsert :
    (entry : ManifestEntry) (es : List ManifestEntry) (name : Text)
    → is_recorded name (upsert entry es) ≡ (is_recorded name es || (entry.job_name =t name))
unfolding upsert
is_recorded-upsert entry [] name = ground arith
is_recorded-upsert entry (e ∷ es) name = elim (Bool-cases (e.job_name =t entry.job_name)) [
  | inl p ↦ rw (p, (=t_iff e.job_name entry.job_name).0 p) (ground arith)
  | inr p ↦ rw p (ground (arith, is_recorded-upsert entry es name))
]

entry_of-same :
    (entry : ManifestEntry) (es : List ManifestEntry)
    → entry_of entry.job_name (upsert entry es) ≡ some entry
unfolding upsert
entry_of-same entry [] = rw (=t_refl entry.job_name) refl
entry_of-same entry (e ∷ es) = elim (Bool-cases (e.job_name =t entry.job_name)) [
  | inl p ↦ rw (p, =t_refl entry.job_name) refl
  | inr p ↦ rw (p, p) (entry_of-same entry es)
]

entry_of-others :
    (entry : ManifestEntry) (es : List ManifestEntry) (name : Text)
    → (entry.job_name =t name) ≡ false
    → entry_of name (upsert entry es) ≡ entry_of name es
unfolding upsert
entry_of-others entry [] name h = rw h refl
entry_of-others entry (e ∷ es) name h = elim (Bool-cases (e.job_name =t entry.job_name)) [
  | inl p ↦ rw (p, h, (=t_iff e.job_name entry.job_name).0 p, h) refl
  | inr p ↦ elim (Bool-cases (e.job_name =t name)) [
    | inl q ↦ rw (p, q) refl
    | inr q ↦ rw (p, q) (entry_of-others entry es name h)
  ]
]

upsert-RecordedOnce :
    (entry : ManifestEntry) (es : List ManifestEntry)
    → RecordedOnce es
    → RecordedOnce (upsert entry es)
unfolding upsert
upsert-RecordedOnce entry [] h = (refl, tt)
upsert-RecordedOnce entry (e ∷ es) (he, h) = elim (Bool-cases (e.job_name =t entry.job_name)) [
  | inl p ↦ rw p (rw ((=t_iff e.job_name entry.job_name).0 p) at he, h)
  | inr p ↦ rw p (
    ground (
      arith,
      is_recorded-upsert entry es e.job_name,
      =t_iff entry.job_name e.job_name,
      =t_iff e.job_name entry.job_name,
    ),
    upsert-RecordedOnce entry es h,
  )
]

-- After an entry is recorded, the history has it for its job and what it had for every other job, and
-- still records no job twice if it did not before.
pub upsert_lem :
    (entry : ManifestEntry) (es : List ManifestEntry)
    → (entry_of entry.job_name (upsert entry es) ≡ some entry)
      × ((name : Text)
          → (entry.job_name =t name) ≡ false
          → entry_of name (upsert entry es) ≡ entry_of name es)
      × (RecordedOnce es → RecordedOnce (upsert entry es))
upsert_lem entry es =
    (entry_of-same entry es, entry_of-others entry es, upsert-RecordedOnce entry es)
