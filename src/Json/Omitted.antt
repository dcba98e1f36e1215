-- ===== src/Json/Omitted.antt =====
-- The look-up of a key in an object some of whose empty fields are left out, as equations for `simp`.
use dockvault.Common.{
  ◌≡◌, refl, Bool, true, false, Option, none, some, [], ◌∷◌, Text, ◌=t◌, ℤ, if◌then◌else◌,
}
use dockvault.Effects.{Json, text, number, Fields, no_fields, field, ok}
use dockvault.Json.{get, as_text, as_int, text_field, int_field, omit_empty}

-- What a field that may be left out holds.
unfoldable pub shown : Text → Option Json
shown [] = none
shown (c ∷ s) = some (text (c ∷ s))

unfoldable pub or_earlier : Option Json → Option Json → Option Json
or_earlier (some v) o = some v
or_earlier none o = o

pub or_earlier-none : (o : Option Json) → or_earlier o none ≡ o
unfolding or_earlier
or_earlier-none none = refl
or_earlier-none (some v) = refl

pub or_earlier_after_none : (o : Option Json) → or_earlier none o ≡ o
unfolding or_earlier
or_earlier_after_none o = refl

pub get-no_fields : (k : Text) → get k no_fields ≡ none
unfolding get
get-no_fields k = refl

pub get-field :
    (k j : Text) (v : Json) (fs : Fields)
    → get k (field j v fs) ≡ or_earlier (get k fs) (if j =t k then some v else none)
unfolding get or_earlier
get-field k j v fs = same (get k fs) (if j =t k then some v else none)
  where
    same : (o later : Option Json) → elim o [ some u ↦ some u | none ↦ later ] ≡ or_earlier o later
    same none later = refl
    same (some u) later = refl

pub get-omit_empty :
    (k j t : Text) (fs : Fields)
    → get k (omit_empty j t fs) ≡ or_earlier (get k fs) (if j =t k then shown t else none)
unfolding omit_empty shown or_earlier
get-omit_empty k j [] fs = same (get k fs) (j =t k)
  where
    same : (o : Option Json) (b : Bool) → o ≡ or_earlier o (if b then none else none)
    same none true = refl
    same none false = refl
    same (some v) b = refl
get-omit_empty k j (c ∷ s) fs = get-field k j (text (c ∷ s)) fs

pub text_field-shown : (k t : Text) (fs : Fields) → get k fs ≡ shown t → text_field k [] fs ≡ ok t
unfolding text_field as_text shown
text_field-shown k [] fs h = rw h refl
text_field-shown k (c ∷ s) fs h = rw h refl

pub text_field-text :
    (k t : Text) (fs : Fields) → get k fs ≡ some (text t) → text_field k [] fs ≡ ok t
unfolding text_field as_text
text_field-text k t fs h = rw h refl

pub int_field-number :
    (k : Text) (old n : ℤ) (fs : Fields) → get k fs ≡ some (number n) → int_field k old fs ≡ ok n
unfolding int_field as_int
int_field-number k old n fs h = rw h refl

pub ruleset look_up =
    (get-no_fields, get-field, get-omit_empty, or_earlier-none, or_earlier_after_none)
