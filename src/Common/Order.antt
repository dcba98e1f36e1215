-- ===== src/Common/Order.antt =====
-- `sort_by` gives the same elements in order, and `text_lt` is an order that it may use.
use mathlib.Core.Path.{◌≡◌, refl}
use mathlib.Core.Logic.{◌⊎◌, inl, inr}
use mathlib.Core.Bool.{Bool, true, false}
use mathlib.Core.List.{List, [], ◌∷◌, Perm}
use mathlib.Core.List.Perm
use native.Mathlib.Omega.{arith}
use dockvault.Common.Tests.{Bool-cases}
use dockvault.Common.Lists.{All}
use dockvault.Common.Strings.{Text}
use dockvault.Common.Sorting.{text_lt, insert_sorted, sort_by}

-- A strict order whose negation is transitive.
abbrev pub IsComparison : {A : Type 0} → (A → A → Bool) → Type 0
IsComparison {A} before =
    (a b c : A) → before a c ≡ true → (before a b ≡ true) ⊎ (before b c ≡ true)

pub text_lt-IsComparison : IsComparison text_lt
unfolding text_lt
text_lt-IsComparison [] b [] h = cc
text_lt-IsComparison (x ∷ a) b [] h = cc
text_lt-IsComparison [] [] (z ∷ c) h = inr refl
text_lt-IsComparison [] (y ∷ b) (z ∷ c) h = inl refl
text_lt-IsComparison (x ∷ a) [] (z ∷ c) h = inr refl
text_lt-IsComparison (x ∷ a) (y ∷ b) (z ∷ c) h = ground (arith, text_lt-IsComparison a b c)

pub text_lt-asymm : (s t : Text) → text_lt s t ≡ true → text_lt t s ≡ false
unfolding text_lt
text_lt-asymm [] [] h = cc
text_lt-asymm [] (d ∷ t) h = refl
text_lt-asymm (c ∷ s) [] h = cc
text_lt-asymm (c ∷ s) (d ∷ t) h = ground (arith, text_lt-asymm s t)

module _ {A : Type 0} (before : A → A → Bool) where
  -- Nothing stands behind an element that should come before it.
  abbrev pub InOrder : List A → Type 0
  InOrder [] = Unit
  InOrder (x ∷ xs) = All (λ y. before y x ≡ false) xs × InOrder xs

  insert_sorted-perm : (x : A) (xs : List A) → Perm (insert_sorted before x xs) (x ∷ xs)
  unfolding insert_sorted
  insert_sorted-perm x [] = Perm.refl (x ∷ [])
  insert_sorted-perm x (y ∷ ys) = elim (Bool-cases (before y x)) [
    | inl e ↦ rw e (Perm.trans (Perm.cons y (insert_sorted-perm x ys)) (Perm.swap x y ys))
    | inr e ↦ rw e (Perm.refl (x ∷ y ∷ ys))
  ]

  pub sort_by-perm : (xs : List A) → Perm (sort_by before xs) xs
  unfolding sort_by
  sort_by-perm [] = Perm.refl []
  sort_by-perm (x ∷ xs) =
      Perm.trans (insert_sorted-perm x (sort_by before xs)) (Perm.cons x (sort_by-perm xs))

  -- A predicate of every element is one of every element of the sorted list.
  module _ (P : A → Type 0) where
    All-insert_sorted : (x : A) (xs : List A) → P x → All P xs → All P (insert_sorted before x xs)
    unfolding insert_sorted
    All-insert_sorted x [] h k = (h, tt)
    All-insert_sorted x (y ∷ ys) h (hy, k) = elim (Bool-cases (before y x)) [
      | inl e ↦ rw e (hy, All-insert_sorted x ys h k)
      | inr e ↦ rw e (h, (hy, k))
    ]

    pub All-sort_by : (xs : List A) → All P xs → All P (sort_by before xs)
    unfolding sort_by
    All-sort_by [] h = tt
    All-sort_by (x ∷ xs) (hx, h) = All-insert_sorted x (sort_by before xs) hx (All-sort_by xs h)

  module _ (compares : IsComparison before)
      (asymm : (a b : A) → before a b ≡ true → before b a ≡ false) where
    not_before : (x y z : A) → before y x ≡ false → before z y ≡ false → before z x ≡ false
    not_before x y z h k = elim (Bool-cases (before z x)) [
      | inl e ↦ elim (compares z y x e) [ inl a ↦ cc | inr b ↦ cc ]
      | inr e ↦ e
    ]

    All-not_before :
        (x y : A) (ys : List A)
        → before y x ≡ false
        → All (λ z. before z y ≡ false) ys
        → All (λ z. before z x ≡ false) ys
    All-not_before x y [] h k = tt
    All-not_before x y (z ∷ ys) h (hz, k) = (not_before x y z h hz, All-not_before x y ys h k)

    insert_sorted-InOrder : (x : A) (xs : List A) → InOrder xs → InOrder (insert_sorted before x xs)
    unfolding insert_sorted
    insert_sorted-InOrder x [] h = (tt, tt)
    insert_sorted-InOrder x (y ∷ ys) (h, k) = elim (Bool-cases (before y x)) [
      | inl e ↦ rw e (
        All-insert_sorted (λ z. before z y ≡ false) x ys (asymm y x e) h,
        insert_sorted-InOrder x ys k,
      )
      | inr e ↦ rw e ((e, All-not_before x y ys e h), (h, k))
    ]

    pub sort_by-InOrder : (xs : List A) → InOrder (sort_by before xs)
    unfolding sort_by
    sort_by-InOrder [] = tt
    sort_by-InOrder (x ∷ xs) = insert_sorted-InOrder x (sort_by before xs) (sort_by-InOrder xs)
