-- ===== src/Generator/DialogueLaws.antt =====
-- The values that the questions of internal/generator/wizard.go let through.
pub mod Ends
use dockvault.Common.{
  ℕ, zero, suc, ◌+◌, ◌≡◌, ◌<◌, ◌≤◌, refl, sym, ap, ◌∙◌, Bool, true, false, Option, none, some, List,
  [], ◌∷◌, ◌⊎◌, inl, inr, Text, ℤ, null, trim_space, atoi, arith, if◌then◌else◌,
}
use mathlib.Core.Path.{subst}
use dockvault.Effects.{
  lift, Call, World, Platform, Result, ok, err, panic, Error, M, ◌>>=◌, return, ask, to_result,
  print, read_line, monad, continue, continue-ok, Answer-cases,
}
use dockvault.Effects.Keeps.{Grows, same, more, Only, bind-Only, return-Only, lift-Only, if-Only}
use dockvault.Utils.{
  validate_retention_days, validate_min_files_to_keep, validate_local_retention_count,
  validate_webhook_url,
}
use dockvault.Utils.Selectors.{say}
use dockvault.Utils.Questions.{say-Only}
use dockvault.Backup.Job.{Job}
use dockvault.Generator.Dialogue.{
  choose, prompt_string, checked, parsed_int, int_round, string_round, retry, ◌>>?◌,
  prompt_job_overrides,
}

-- A value that comes out satisfies `Q`.
pub record Gives {A : Type 0} (Q : A → Type 0) (m : M (Option A)) : Type 0 where
  pub gives : (w w' : World) (a : A) → m w ≡ (ok (some a), w') → Q a

bind-Gives :
    {A B : Type 0} {Q : A → Type 0} (m : M B) {f : B → M (Option A)}
    → ((b : B) → Gives Q (f b))
    → Gives Q (m >>= f)
unfolding ◌>>=◌
bind-Gives m {f} h = record {
  gives = λ w w' a k. let (b, w1, k1, k2) = continue-ok (m w) f k in (h b).gives w1 w' a k2;
}

nothing-Gives : {A : Type 0} {Q : A → Type 0} → Gives Q (return none)
unfolding return
nothing-Gives = record { gives = λ w w' a k. cc k }

value-Gives : {A : Type 0} {Q : A → Type 0} (a : A) → Q a → Gives Q (return (some a))
unfolding return
value-Gives {Q = Q} a q = record { gives = λ w w' b k. subst Q (cc k) q }

if-Gives :
    {A : Type 0} {Q : A → Type 0} (b : Bool) {m n : M (Option A)}
    → Gives Q m
    → Gives Q n
    → Gives Q (if b then m else n)
if-Gives true h k = h
if-Gives false h k = k

choose-Gives :
    {A B : Type 0} {R : A → Type 0} {Q : B → Type 0} {m : M (Option A)} {absent : M (Option B)}
    {f : A → M (Option B)}
    → Gives R m
    → Gives Q absent
    → ((a : A) → R a → Gives Q (f a))
    → Gives Q (m >>= choose absent f)
unfolding ◌>>=◌
choose-Gives {A = A} {B = B} {R = R} {Q = Q} {m = m} {absent = absent} {f = f} h n k = record {
  gives = λ w w' b e.
      let (r, w1, e1, e2) = continue-ok (m w) (choose absent f) e in split r w w1 w' b e1 e2;
}
  where
    split :
        (r : Option A) (w w1 w' : World) (b : B)
        → m w ≡ (ok r, w1)
        → choose absent f r w1 ≡ (ok (some b), w')
        → Q b
    split none w w1 w' b e1 e2 = n.gives w1 w' b e2
    split (some a) w w1 w' b e1 e2 = (k a (h.gives w w1 a e1)).gives w1 w' b e2

retry-Gives :
    {A : Type 0} {Q : A → Type 0} (fuel : ℕ) {round : M (Option A)}
    → Gives Q round
    → Gives Q (retry fuel round)
unfolding retry
retry-Gives zero h = nothing-Gives
retry-Gives (suc fuel) h = choose-Gives h (retry-Gives fuel h) (λ a q. value-Gives a q)

module _ {A : Type 0} (validate : A → Result (Unit {0})) where
  checked-Gives :
      (a : A) (r : Result (Unit {0}))
      → validate a ≡ r
      → Gives (λ x. validate x ≡ ok tt) (checked a r)
  unfolding checked
  checked-Gives a (ok done) e = value-Gives a e
  checked-Gives a (err x) e = bind-Gives (say x.message) λ _. nothing-Gives
  checked-Gives a (panic t) e = unfold lift in record { gives = λ w w' b k. cc k }

int_round-Gives :
    (label : Text) (n : ℤ) (validate : ℤ → Result (Unit {0}))
    → Gives (λ x. validate x ≡ ok tt) (int_round label n validate)
unfolding int_round
int_round-Gives label n validate = bind-Gives _ λ _.
    bind-Gives _
      λ line. if-Gives _ (checked-Gives validate n _ refl) (parsed (atoi (trim_space line)))
  where
    parsed : (o : Option ℤ) → Gives (λ x. validate x ≡ ok tt) (parsed_int validate o)
    parsed none = unfold parsed_int in bind-Gives _ λ _. nothing-Gives
    parsed (some m) = unfold parsed_int in checked-Gives validate m _ refl

string_round-Gives :
    (label t : Text) (validate : Text → Result (Unit {0}))
    → Gives (λ x. validate x ≡ ok tt) (string_round label t validate)
unfolding string_round
string_round-Gives label t validate = bind-Gives _ λ s. checked-Gives validate s _ refl

-- The numbers and the webhook of a job pass their validators.
pub record IsValidJob (job : Job) : Type 0 where
  pub days : validate_retention_days job.retention_days ≡ ok tt
  pub least : validate_min_files_to_keep job.min_files_to_keep ≡ ok tt
  pub count : validate_local_retention_count job.local_retention_count ≡ ok tt
  pub url : validate_webhook_url job.webhook_url ≡ ok tt

pub overrides-Gives : (fuel : ℕ) (job : Job) → Gives IsValidJob (prompt_job_overrides fuel job)
unfolding prompt_job_overrides
overrides-Gives fuel job =
    choose-Gives (retry-Gives fuel (int_round-Gives _ _ _)) nothing-Gives λ days d.
      choose-Gives (retry-Gives fuel (int_round-Gives _ _ _)) nothing-Gives λ least l.
        choose-Gives (retry-Gives fuel (int_round-Gives _ _ _)) nothing-Gives λ count c.
          choose-Gives (retry-Gives fuel (string_round-Gives _ _ _)) nothing-Gives
            λ url u. value-Gives _ (record { days = d; least = l; count = c; url = u })
