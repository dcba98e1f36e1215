-- ===== src/Utils/Questions.antt =====
-- What the questions on the terminal promise.
use dockvault.Common.{
  Bool, List, ◌∷◌, inl, inr, Text, ◌=t◌, trim_space, to_lower, ℕ, suc, [], Option, none, some,
}
use dockvault.Effects.{Call, ◌>>=◌, monad, print, read_line, Answer-cases, ask, to_result, return}
use dockvault.Effects.Keeps.{
  same, more, Only, bind-Only, return-Only, perform-Only, ask-Only, throw-Only,
}
use dockvault.Effects.Gate.{Asks}
use dockvault.Utils.Selectors.{
  say, print_options, chosen, select_one, is_yes, confirm, require_typed_confirmation,
}

pub say-Only : {P : Call → Type 0} (t : Text) → P (print t) → Only P (say t)
unfolding say
say-Only t h = bind-Only (perform-Only (print t) h) λ _. return-Only tt

print_options-Only :
    {P : Call → Type 0}
    → ((t : Text) → P (print t))
    → (n : ℕ) (os : List Text) → Only P (print_options n os)
unfolding print_options
print_options-Only h n [] = return-Only tt
print_options-Only h n (o ∷ os) = bind-Only (say-Only _ (h _)) λ _. print_options-Only h (suc n) os

chosen-Only : {P : Call → Type 0} (count : ℕ) (i : Option ℕ) → Only P (chosen count i)
unfolding chosen
chosen-Only count none = throw-Only _
chosen-Only count (some i) = return-Only i

pub select_one-Only :
    {P : Call → Type 0}
    → ((t : Text) → P (print t))
    → P read_line
    → (prompt : Text) (os : List Text) → Only P (select_one prompt os)
unfolding select_one
select_one-Only h r prompt os = bind-Only (say-Only _ (h _)) λ _.
    bind-Only (print_options-Only h 1 os)
      λ _. bind-Only (say-Only _ (h _)) λ _. bind-Only (ask-Only _ _ r) λ line. chosen-Only _ _

pub confirm-Only :
    {P : Call → Type 0}
    → ((t : Text) → P (print t))
    → P read_line
    → (prompt : Text) (d : Bool) → Only P (confirm prompt d)
unfolding confirm
confirm-Only h r prompt d =
    bind-Only (say-Only _ (h _)) λ _. bind-Only (ask-Only _ _ r) λ line. return-Only _

abbrev pub is_word : Text → Text → Bool
is_word word line = trim_space line =t word

abbrev pub is_agreed : Bool → Text → Bool
is_agreed default_yes line = is_yes default_yes (to_lower (trim_space line))

question-Asks :
    {P : Call → Type 0} (t : Text) (accepts : Text → Bool)
    → P (print t)
    → Asks P accepts (say t >>= λ _. ask read_line to_result >>= λ line. return (accepts line))
unfolding say monad
question-Asks t accepts h = record {
  before = λ w. print t ∷ w.log;
  grows = λ w. more _ h same;
  answers = λ w. elim (Answer-cases (w.platform.answer (print t ∷ w.log) read_line)) [
    | inl (e, k) ↦ inl (e, rw k)
    | inr (line, k) ↦ inr (line, k, rw k)
  ];
}

pub require_typed_confirmation-Asks :
    {P : Call → Type 0}
    → ((t : Text) → P (print t))
    → (word : Text) → Asks P (is_word word) (require_typed_confirmation word)
unfolding require_typed_confirmation
require_typed_confirmation-Asks h word = question-Asks _ (is_word word) (h _)

pub confirm-Asks :
    {P : Call → Type 0}
    → ((t : Text) → P (print t))
    → (prompt : Text) (d : Bool) → Asks P (is_agreed d) (confirm prompt d)
unfolding confirm
confirm-Asks h prompt d = question-Asks _ (is_agreed d) (h _)
