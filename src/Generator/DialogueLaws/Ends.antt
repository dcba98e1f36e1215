-- ===== src/Generator/DialogueLaws/Ends.antt =====
-- The questions of internal/generator/wizard.go on an input that ends.
use dockvault.Common.{
  ℕ, zero, suc, ◌+◌, ◌≡◌, ◌<◌, ◌≤◌, refl, sym, ap, ◌∙◌, Bool, true, false, Option, none, some, List,
  [], ◌∷◌, ◌⊎◌, inl, inr, Text, ℤ, arith, if◌then◌else◌,
}
use mathlib.Core.Path.{subst}
use dockvault.Effects.{
  Call, World, Platform, Result, ok, err, panic, Error, M, ◌>>=◌, return, ask, to_result, read_line,
  continue-ok,
}
use dockvault.Effects.Keeps.{Grows, same, more, Only, bind-Only, return-Only, lift-Only, if-Only}
use dockvault.Utils.Questions.{say-Only}
use dockvault.Backup.Job.{Job}
use dockvault.Generator.Dialogue.{
  choose, prompt_string, checked, parsed_int, int_round, string_round, retry, prompt_job_overrides,
}
use dockvault.Generator.DialogueLaws.{IsValidJob, overrides-Gives}

abbrev pub is_read : Call → Bool
is_read read_line = true
is_read _ = false

-- How many lines were asked for.
abbrev pub reads : List Call → ℕ
reads [] = 0
reads (c ∷ log) = if is_read c then suc (reads log) else reads log

-- The input has at most `n` lines.
abbrev pub HasLines : ℕ → Platform → Type 0
HasLines n p = (log : List Call) → n ≤ reads log → (e : Error) × (p.answer log read_line ≡ inl e)

abbrev IsQuiet : Call → Type 0
IsQuiet c = is_read c ≡ false

Grows-reads : {a b : List Call} → Grows IsQuiet a b → reads b ≡ reads a
Grows-reads same = refl
Grows-reads (more {log = log} c q g) =
    ap (λ b. if b then suc (reads log) else reads log) q ∙ Grows-reads g

checked-IsQuiet : {A : Type 0} (a : A) (r : Result (Unit {0})) → Only IsQuiet (checked a r)
unfolding checked
checked-IsQuiet a (ok done) = return-Only _
checked-IsQuiet a (err e) = bind-Only (say-Only _ refl) λ _. return-Only _
checked-IsQuiet a (panic t) = lift-Only _

parsed_int-IsQuiet :
    (validate : ℤ → Result (Unit {0})) (o : Option ℤ) → Only IsQuiet (parsed_int validate o)
unfolding parsed_int
parsed_int-IsQuiet validate none = bind-Only (say-Only _ refl) λ _. return-Only _
parsed_int-IsQuiet validate (some n) = checked-IsQuiet _ _

-- On an input of `n` lines, a success reads one of them.
record Once (n : ℕ) {A : Type 0} (m : M A) : Type 0 where
  once :
      (w w' : World) (a : A)
      → HasLines n w.platform
      → m w ≡ (ok a, w')
      → (w'.platform ≡ w.platform) × (reads w.log < n) × (reads w'.log ≡ suc (reads w.log))

-- With `fuel`, a success has a value.
record Completes (n fuel : ℕ) {A : Type 0} (m : M (Option A)) : Type 0 where
  completes :
      (w w' : World) (r : Option A)
      → HasLines n w.platform
      → n < fuel + reads w.log
      → m w ≡ (ok r, w')
      → ((a : A) × (r ≡ some a)) × (w'.platform ≡ w.platform) × (reads w.log ≤ reads w'.log)

under : (a b : ℕ) → (a < b) ⊎ (b ≤ a)
under a zero = inr (omega arith)
under zero (suc b) = inl (omega arith)
under (suc a) (suc b) = elim (under a b) [ inl l ↦ inl (omega arith) | inr g ↦ inr (omega arith) ]

module _ {n : ℕ} where
  lines_left :
      (w : World) (a : Text)
      → HasLines n w.platform
      → to_result (w.platform.answer w.log read_line) ≡ ok a
      → reads w.log < n
  lines_left w a h e = elim (under (reads w.log) n) [
    | inl l ↦ l
    | inr g ↦ (let (x, k) = h w.log g in let c = ap to_result (sym k) ∙ e in cc c)
  ]

  ask-Once : Once n (ask read_line to_result)
  unfolding ask
  ask-Once = record {
    once = λ w w' a h e. (
      ap (λ r. r.1.platform) (sym e),
      lines_left w a h (ap (λ r. r.0) e),
      ap (λ r. reads r.1.log) (sym e),
    );
  }

  -- What is done before reads no line.
  after-Once :
      {A B : Type 0} {m : M A} {f : A → M B}
      → Only IsQuiet m
      → ((a : A) → Once n (f a))
      → Once n (m >>= f)
  unfolding ◌>>=◌
  after-Once {A = A} {B = B} {m = m} {f = f} o k = record {
    once = λ w w' b h e. ends w w' b h (continue-ok (m w) f e);
  }
    where
      ends :
          (w w' : World) (b : B)
          → HasLines n w.platform
          → (a : A) × (w1 : World) × (m w ≡ (ok a, w1)) × (f a w1 ≡ (ok b, w'))
          → (w'.platform ≡ w.platform) × (reads w.log < n) × (reads w'.log ≡ suc (reads w.log))
      ends w w' b h (a, w1, e1, e2) =
          let p = ap (λ r. r.1.platform) (sym e1) ∙ o.stays w in
          let l = ap (λ r. reads r.1.log) (sym e1) ∙ Grows-reads (o.grows w) in
          let (p', r', l') = (k a).once w1 w' b (subst (HasLines n) (sym p) h) e2 in
          (p' ∙ p, subst (λ x. x < n) l r', l' ∙ ap suc l)

  -- And neither does what is done afterwards.
  before-Once :
      {A B : Type 0} {m : M A} {f : A → M B}
      → Once n m
      → ((a : A) → Only IsQuiet (f a))
      → Once n (m >>= f)
  unfolding ◌>>=◌
  before-Once {A = A} {B = B} {m = m} {f = f} o k = record {
    once = λ w w' b h e. ends w w' b h (continue-ok (m w) f e);
  }
    where
      ends :
          (w w' : World) (b : B)
          → HasLines n w.platform
          → (a : A) × (w1 : World) × (m w ≡ (ok a, w1)) × (f a w1 ≡ (ok b, w'))
          → (w'.platform ≡ w.platform) × (reads w.log < n) × (reads w'.log ≡ suc (reads w.log))
      ends w w' b h (a, w1, e1, e2) =
          let (p, r, l) = o.once w w1 a h e1 in
          let p' = ap (λ r. r.1.platform) (sym e2) ∙ (k a).stays w1 in
          let l' = ap (λ r. reads r.1.log) (sym e2) ∙ Grows-reads ((k a).grows w1) in
          (p' ∙ p, r, l' ∙ l)

  int_round-Once :
      (label : Text) (default : ℤ) (validate : ℤ → Result (Unit {0}))
      → Once n (int_round label default validate)
  unfolding int_round
  int_round-Once label default validate =
      after-Once (say-Only _ refl)
        λ _. before-Once ask-Once λ line. if-Only _ (checked-IsQuiet _ _) (parsed_int-IsQuiet _ _)

  string_round-Once :
      (label default : Text) (validate : Text → Result (Unit {0}))
      → Once n (string_round label default validate)
  unfolding string_round prompt_string
  string_round-Once label default validate =
      before-Once (after-Once (say-Only _ refl) λ _. before-Once ask-Once λ line. return-Only _)
        λ t. checked-IsQuiet _ _

  value-Completes : (fuel : ℕ) {A : Type 0} (a : A) → Completes n fuel (return (some a))
  unfolding return
  value-Completes fuel a = record {
    completes = λ w w' r h l e. (
      (a, cc e),
      ap (λ r. r.1.platform) (sym e),
      subst (λ v. reads w.log ≤ reads v.log) (ap (λ r. r.1) e) (omega arith),
    );
  }

  -- The next computation has at least the lines that the last one left.
  choose-Completes :
      (fuel : ℕ) {A B : Type 0} {m : M (Option A)} {f : A → M (Option B)}
      → Completes n fuel m
      → ((a : A) → Completes n fuel (f a))
      → Completes n fuel (m >>= choose (return none) f)
  unfolding ◌>>=◌
  choose-Completes fuel {A = A} {B = B} {m = m} {f = f} c k = record {
    completes = λ w w' r h l e. chosen w w' r h l (continue-ok (m w) (choose (return none) f) e);
  }
    where
      chosen :
          (w w' : World) (r : Option B)
          → HasLines n w.platform
          → n < fuel + reads w.log
          → (o : Option A) × (w1 : World) × (m w ≡ (ok o, w1))
            × (choose (return none) f o w1 ≡ (ok r, w'))
          → ((b : B) × (r ≡ some b)) × (w'.platform ≡ w.platform) × (reads w.log ≤ reads w'.log)
      chosen w w' r h l (o, w1, e1, e2) =
          let ((a, q), p, g) = c.completes w w1 o h l e1 in
          let e3 = subst (λ o. choose (return none) f o w1 ≡ (ok r, w')) q e2 in
          let (v, p', g') =
            (k a).completes w1 w' r (subst (HasLines n) (sym p) h) (omega arith) e3 in
          (v, p' ∙ p, omega arith)

  -- A round that gives nothing used one line and one unit of fuel.
  retry-Completes :
      (fuel : ℕ) {A : Type 0} {round : M (Option A)}
      → 0 < fuel
      → Once n round
      → Completes n fuel (retry fuel round)
  unfolding retry ◌>>=◌ return
  retry-Completes zero z o = let no : ⊥ = omega arith in absurd no
  retry-Completes (suc fuel) {A = A} {round = round} z o = record {
    completes = λ w w' r h l e.
        again (λ y. retry-Completes fuel y o) w w' r h l
          (continue-ok (round w) (choose (retry fuel round) (λ a. return (some a))) e);
  }
    where
      again :
          (0 < fuel → Completes n fuel (retry fuel round))
          → (w w' : World) (r : Option A) → HasLines n w.platform
          → n < suc fuel + reads w.log
          → (o : Option A) × (w1 : World) × (round w ≡ (ok o, w1))
            × (choose (retry fuel round) (λ a. return (some a)) o w1 ≡ (ok r, w'))
          → ((b : A) × (r ≡ some b)) × (w'.platform ≡ w.platform) × (reads w.log ≤ reads w'.log)
      again rest w w' r h l (none, w1, e1, e2) =
          let (p, g, s) = o.once w w1 none h e1 in
          let (v, p', g') =
            (rest (omega arith)).completes w1 w' r (subst (HasLines n) (sym p) h) (omega arith)
              e2 in
          (v, p' ∙ p, omega arith)
      again rest w w' r h l (some a, w1, e1, e2) =
          let (p, g, s) = o.once w w1 (some a) h e1 in
          (
            (a, cc e2),
            ap (λ r. r.1.platform) (sym e2) ∙ p,
            subst (λ x. reads w.log ≤ x) (ap (λ r. reads r.1.log) e2) (omega arith),
          )

overrides-Completes :
    (n fuel : ℕ) (job : Job) → 0 < fuel → Completes n fuel (prompt_job_overrides fuel job)
unfolding prompt_job_overrides
overrides-Completes n fuel job z =
    choose-Completes fuel (retry-Completes fuel z (int_round-Once _ _ _)) λ days.
      choose-Completes fuel (retry-Completes fuel z (int_round-Once _ _ _)) λ least.
        choose-Completes fuel (retry-Completes fuel z (int_round-Once _ _ _)) λ count.
          choose-Completes fuel (retry-Completes fuel z (string_round-Once _ _ _))
            λ url. value-Completes fuel _

-- On an input of at most `n` lines, whatever they are, more than `n` units of fuel are enough for the
-- questions on a job: where they end without an error or a panic, they give a job, and its days,
-- its counts and its webhook pass their validators.
pub prompt_job_overrides-IsValidJob :
    (n fuel : ℕ) (job : Job) (w w' : World) (r : Option Job)
    → HasLines n w.platform
    → n < fuel
    → prompt_job_overrides fuel job w ≡ (ok r, w')
    → (job' : Job) × (r ≡ some job') × IsValidJob job'
prompt_job_overrides-IsValidJob n fuel job w w' r h l e =
    let ((job', q), _, _) =
      (overrides-Completes n fuel job (omega arith)).completes w w' r h (omega arith) e in
    (job', q, (overrides-Gives fuel job).gives w w' job' (e ∙ ap (λ r. (ok r, w')) q))
