-- ===== src/Rclone/Retention.antt =====
-- What `FilesToPrune` may delete.
use dockvault.Common.{
  ℕ, ◌≤◌, ◌≡◌, refl, Bool, true, false, List, [], ◌∷◌, drop, length, leb, if_cons, keep, arith, ℤ,
  pos, Instant, days_before, Bool-cases, inl, inr, if◌then◌else◌, leb→le, zero, suc,
}
use dockvault.Effects.{ok}
use dockvault.Rclone.{FileInfo, files_to_prune, is_expired}

-- The third list is a merge of the other two: each keeps its order, and nothing is lost or added.
pub data Splits {A : Type 0} : List A → List A → List A → Type 0 where
  none_left : Splits [] [] []
  stays :
      (x : A) {kept gone whole : List A}
      → Splits kept gone whole
      → Splits (x ∷ kept) gone (x ∷ whole)
  goes :
      (x : A) {kept gone whole : List A}
      → Splits kept gone whole
      → Splits kept (x ∷ gone) (x ∷ whole)

module _ {A : Type 0} where
  all_stay : (xs : List A) → Splits xs [] xs
  all_stay [] = none_left
  all_stay (x ∷ xs) = stays x (all_stay xs)

  -- The elements that fail a test.
  pub rest : (A → Bool) → List A → List A
  rest p [] = []
  rest p (x ∷ xs) = if_cons (if p x then false else true) x (rest p xs)

drop_all {ℓ} : {A : Type ℓ} (n : ℕ) (xs : List A) → length xs ≤ n → drop n xs ≡ []
drop_all zero [] h = refl
drop_all zero (x ∷ xs) h = absurd (omega arith)
drop_all (suc n) [] h = refl
drop_all (suc n) (x ∷ xs) h = drop_all n xs (omega arith)

pub files_to_prune-eq :
    (moment : Instant) (files : List FileInfo) (days : ℤ) (least : ℕ)
    → files_to_prune moment files days (pos least)
      ≡ ok (keep (is_expired (days_before moment days)) (drop least files))
unfolding files_to_prune keep
files_to_prune-eq moment files days least = elim (Bool-cases (leb (length files) least)) [
  | inl e ↦ rw (e, drop_all least files (leb→le _ _ e)) refl
  | inr e ↦ rw e refl
]
