-- ===== src/Cli/Runs.antt =====
-- `runJobs` of internal/cli/backup.go: the loop starts a goroutine for each job as soon as the semaphore
-- has room, and the goroutines end in any order. Which result each of them writes is left open.
use mathlib.Core.List.{Perm, perm_middle, append-nil}
use mathlib.Core.List.Perm
use mathlib.Core.Path.{subst}
use dockvault.Common.{
  ℕ, sym, suc, ◌+◌, ◌*◌, ◌≡◌, ◌<◌, ◌≤◌, refl, List, [], ◌∷◌, ◌++◌, ◌⊎◌, inl, inr, length,
  length-append, map, arith, none,
}
use dockvault.Backup.Job.{Job}
use dockvault.Cli.Backup.{JobResult}

-- An index into `results`, and its job.
abbrev pub Task : Type 0
Task = ℕ × Job

-- The jobs that the loop has not reached, those whose goroutines run, and the results written, the
-- latest first.
pub record Runs : Type 0 where
  pub pending : List Task
  pub running : List Task
  pub written : List (Task × JobResult)

pub data Step (parallel : ℕ) : Runs → Runs → Type 0 where
  -- The loop sends to the channel, which has room, and starts the goroutine.
  start :
      (task : Task) (pending running : List Task) (written : List (Task × JobResult))
      → length running < parallel
      → Step parallel
          (record { pending = task ∷ pending; running = running; written = written })
          (record { pending = pending; running = task ∷ running; written = written })
  -- A goroutine writes its result and receives from the channel.
  finish :
      (pending before : List Task) (task : Task) (after : List Task)
      (written : List (Task × JobResult)) (r : JobResult)
      → Step parallel
          (record { pending = pending; running = before ++ (task ∷ after); written = written })
          (record { pending = pending; running = before ++ after; written = (task, r) ∷ written })

-- A run of a number of steps.
pub data Reaches (parallel : ℕ) (s : Runs) : ℕ → Runs → Type 0 where
  nothing : Reaches parallel s 0 s
  then_step :
      {n : ℕ} {t u : Runs}
      → Reaches parallel s n t
      → Step parallel t u
      → Reaches parallel s (suc n) u

-- The jobs with their indices, from an index on.
abbrev pub numbered : ℕ → List Job → List Task
numbered i [] = []
numbered i (job ∷ jobs) = (i, job) ∷ numbered (suc i) jobs

unfoldable pub begin : List Job → Runs
begin jobs = record { pending = numbered 0 jobs; running = []; written = [] }

abbrev pub task_of : Task × JobResult → Task
task_of (task, r) = task

-- Every task, wherever it stands.
unfoldable pub tasks : Runs → List Task
tasks s = s.pending ++ (s.running ++ map task_of s.written)

-- The steps that are left: two for a pending task, one for a running one.
unfoldable pub left : Runs → ℕ
left s = 2 * length s.pending + length s.running

module _ {parallel : ℕ} {s : Runs} where
  within :
      {n : ℕ} {t : Runs}
      → length s.running ≤ parallel
      → Reaches parallel s n t
      → length t.running ≤ parallel
  within h nothing = h
  within h (then_step g (start task pending running written room)) = omega arith
  within h (then_step g (finish pending before task after written r)) =
      omega (arith, within h g, length-append before (task ∷ after), length-append before after)

  counted : {n : ℕ} {t : Runs} → Reaches parallel s n t → n + left t ≡ left s
  unfolding left
  counted nothing = omega arith
  counted (then_step g (start task pending running written room)) = omega (arith, counted g)
  counted (then_step g (finish pending before task after written r)) =
      omega (arith, counted g, length-append before (task ∷ after), length-append before after)

-- A step moves a task, and loses or adds none.
moved : {parallel : ℕ} {s t : Runs} → Step parallel s t → Perm (tasks t) (tasks s)
unfolding tasks
moved (start task pending running written room) =
    perm_middle pending (running ++ map task_of written)
moved (finish pending before task after written r) = Perm.append_left pending (
    Perm.trans (perm_middle (before ++ after) (map task_of written))
      (Perm.append_right (map task_of written) (Perm.symm (perm_middle before after))))

conserved :
    {parallel : ℕ} {s : Runs} {n : ℕ} {t : Runs} → Reaches parallel s n t → Perm (tasks t) (tasks s)
conserved {s = s} nothing = Perm.refl (tasks s)
conserved (then_step g x) = Perm.trans (moved x) (conserved g)

-- No goroutine runs, and none is left to start.
abbrev pub Ended : Runs → Type 0
Ended s = (s.pending ≡ []) × (s.running ≡ [])

goes_on :
    (parallel : ℕ) (pending running : List Task) (written : List (Task × JobResult))
    → 0 < parallel
    → let s : Runs = record { pending = pending; running = running; written = written } in
      Ended s ⊎ ((t : Runs) × Step parallel s t)
goes_on parallel pending (task ∷ running) written h =
    inr (_, finish pending [] task running written (record { job = task.1; failure = none }))
goes_on parallel (task ∷ pending) [] written h = inr (_, start task pending [] written h)
goes_on parallel [] [] written h = inl (refl, refl)

length-numbered : (i : ℕ) (jobs : List Job) → length (numbered i jobs) ≡ length jobs
length-numbered i [] = refl
length-numbered i (job ∷ jobs) = omega (arith, length-numbered (suc i) jobs)

-- After any number of steps of the run of some jobs, with room for at least one: no more goroutines run
-- than there is room for; the steps taken and left are twice the jobs; every job with its index stands
-- exactly once, as pending, as running or with its result; and the run has ended or can go on.
pub run_jobs_lem :
    (parallel : ℕ) (jobs : List Job) (n : ℕ) (t : Runs)
    → 0 < parallel
    → Reaches parallel (begin jobs) n t
    → (length t.running ≤ parallel)
      × (n + left t ≡ 2 * length jobs)
      × Perm (t.pending ++ (t.running ++ map task_of t.written)) (numbered 0 jobs)
      × (Ended t ⊎ ((u : Runs) × Step parallel t u))
unfolding begin left tasks
run_jobs_lem parallel jobs n t h g = (
  within (omega arith) g,
  omega (arith, counted g, length-numbered 0 jobs),
  Perm.trans (conserved g)
      (subst (λ l. Perm l (numbered 0 jobs)) (sym (append-nil (numbered 0 jobs))) (Perm.refl _)),
  goes_on parallel t.pending t.running t.written h,
)
