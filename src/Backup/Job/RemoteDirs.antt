-- ===== src/Backup/Job/RemoteDirs.antt =====
-- The directories that a run creates before its jobs start.
use dockvault.Common.{
  ◌≡◌, ◌≢◌, inl, inr, refl, Bool, true, false, List, [], ◌∷◌, ◌++◌, ◌||◌, Text, ◌=t◌, =t_iff, null,
  any, arith, if◌then◌else◌, Bool-cases, ◌∙◌,
}
use dockvault.Backup.Job.{Job, seen_in, remote_dirs, unique_remote_dirs}

-- Every directory stands once.
abbrev pub Distinct : List Text → Type 0
Distinct [] = Unit
Distinct (d ∷ ds) = (seen_in ds d ≡ false) × Distinct ds

-- Some job has the directory.
abbrev pub wanted : List Job → Text → Bool
wanted jobs dir = any (λ job. job.google_drive_path =t dir) jobs

seen_in-append :
    (ds es : List Text) (d : Text) → seen_in (ds ++ es) d ≡ (seen_in ds d || seen_in es d)
unfolding seen_in
seen_in-append [] es d = refl
seen_in-append (x ∷ ds) es d = ground (arith, seen_in-append ds es d)

seen_in_one : (x d : Text) → seen_in (x ∷ []) d ≡ (x =t d)
unfolding seen_in
seen_in_one x d = ground arith

Distinct-snoc :
    (ds : List Text) (d : Text) → Distinct ds → seen_in ds d ≡ false → Distinct (ds ++ (d ∷ []))
unfolding seen_in
Distinct-snoc [] d h k = (refl, tt)
Distinct-snoc (x ∷ ds) d (hx, h) k = (
  ground (arith, seen_in-append ds (d ∷ []) x, =t_iff x d, =t_iff d x),
  Distinct-snoc ds d h (ground arith),
)

-- The list after one round of the loop.
abbrev after : List Text → Text → List Text
after dirs dir = if null dir || seen_in dirs dir then dirs else dirs ++ (dir ∷ [])

after-Distinct : (dirs : List Text) (dir : Text) → Distinct dirs → Distinct (after dirs dir)
after-Distinct dirs dir h = elim (Bool-cases (null dir)) [
  | inl e ↦ rw e h
  | inr e ↦ elim (Bool-cases (seen_in dirs dir)) [
    | inl k ↦ rw (e, k) h
    | inr k ↦ rw (e, k) (Distinct-snoc dirs dir h k)
  ]
]

remote_dirs-Distinct :
    (dirs : List Text) (jobs : List Job) → Distinct dirs → Distinct (remote_dirs dirs jobs)
unfolding remote_dirs
remote_dirs-Distinct dirs [] h = h
remote_dirs-Distinct dirs (job ∷ jobs) h =
    remote_dirs-Distinct (after dirs job.google_drive_path) jobs
      (after-Distinct dirs job.google_drive_path h)

null_ne : (dir d : Text) → null dir ≡ true → d ≢ [] → (dir =t d) ≡ false
unfolding ◌=t◌
null_ne [] [] e h = absurd (h refl)
null_ne [] (c ∷ d) e h = refl
null_ne (c ∷ dir) d e h = cc

seen_in-after :
    (dirs : List Text) (dir d : Text)
    → d ≢ []
    → seen_in (after dirs dir) d ≡ (seen_in dirs d || (dir =t d))
seen_in-after dirs dir d h = elim (Bool-cases (null dir)) [
  | inl e ↦ rw (e, null_ne dir d e h) (ground arith)
  | inr e ↦ elim (Bool-cases (seen_in dirs dir)) [
    | inl k ↦
        rw (e, k)
          (elim (Bool-cases (dir =t d)) [
            | inl q ↦ rw q (rw ((=t_iff dir d).0 q) at k ∙ ground arith)
            | inr q ↦ rw q (ground arith)
          ])
    | inr k ↦ rw (e, k) (ground (arith, seen_in-append dirs (dir ∷ []) d, seen_in_one dir d))
  ]
]

remote_dirs-seen :
    (dirs : List Text) (jobs : List Job) (d : Text)
    → d ≢ []
    → seen_in (remote_dirs dirs jobs) d ≡ (seen_in dirs d || wanted jobs d)
unfolding remote_dirs
remote_dirs-seen dirs [] d h = ground arith
remote_dirs-seen dirs (job ∷ jobs) d h = ground (
  arith,
  remote_dirs-seen (after dirs job.google_drive_path) jobs d h,
  seen_in-after dirs job.google_drive_path d h,
)

not_null : (d : Text) → null d ≡ false → (d =t []) ≡ false
unfolding ◌=t◌
not_null [] h = cc h
not_null (c ∷ d) h = refl

empty-after :
    (dirs : List Text) (dir : Text) → seen_in dirs [] ≡ false → seen_in (after dirs dir) [] ≡ false
empty-after dirs dir h = elim (Bool-cases (null dir)) [
  | inl e ↦ rw e h
  | inr e ↦ elim (Bool-cases (seen_in dirs dir)) [
    | inl k ↦ rw (e, k) h
    | inr k ↦
        rw (e, k)
          (ground (arith, h, not_null dir e, seen_in-append dirs (dir ∷ []) [], seen_in_one dir []))
  ]
]

remote_dirs-empty :
    (dirs : List Text) (jobs : List Job)
    → seen_in dirs [] ≡ false
    → seen_in (remote_dirs dirs jobs) [] ≡ false
unfolding remote_dirs
remote_dirs-empty dirs [] h = h
remote_dirs-empty dirs (job ∷ jobs) h =
    remote_dirs-empty (after dirs job.google_drive_path) jobs
      (empty-after dirs job.google_drive_path h)

-- Every directory is created once; the empty one is not created, even if a job has it; and every other
-- one is created exactly if some job has it.
pub unique_remote_dirs_complete :
    (jobs : List Job)
    → Distinct (unique_remote_dirs jobs)
      × (seen_in (unique_remote_dirs jobs) [] ≡ false)
      × ((d : Text) → d ≢ [] → seen_in (unique_remote_dirs jobs) d ≡ wanted jobs d)
unfolding unique_remote_dirs seen_in
unique_remote_dirs_complete jobs = (
  remote_dirs-Distinct [] jobs tt,
  remote_dirs-empty [] jobs refl,
  λ d h. remote_dirs-seen [] jobs d h,
)
