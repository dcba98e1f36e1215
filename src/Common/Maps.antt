-- ===== src/Common/Maps.antt =====
-- Go's maps from texts to texts, as association lists.
use mathlib.Core.Path.{◌≡◌, refl}
use mathlib.Core.Logic.{inl, inr}
use mathlib.Core.Bool.{Bool, false, ◌||◌}
use mathlib.Core.Option.{Option, none, some}
use mathlib.Core.List.{List, [], ◌∷◌}
use native.Mathlib.Omega.{arith}
use dockvault.Common.Tests.{if◌then◌else◌, Bool-cases}
use dockvault.Common.Lists.{any}
use dockvault.Common.Strings.{Text, ◌=t◌, =t_iff}

abbrev pub Dict : Type 0
Dict = List (Text × Text)

-- `m[key]`, with `ok`
unfoldable pub lookup : Text → Dict → Option Text
lookup key [] = none
lookup key ((k, v) ∷ m) = if k =t key then some v else lookup key m

-- `m[key]`: the empty string for a missing key.
unfoldable pub value_of : Text → Dict → Text
unfolding lookup
value_of key m = elim (lookup key m) [ none ↦ [] | some v ↦ v ]

-- `m[key] = value`
unfoldable pub assign : Text → Text → Dict → Dict
assign key value [] = (key, value) ∷ []
assign key value ((k, v) ∷ m) =
    let rest = assign key value m in if k =t key then (key, value) ∷ m else (k, v) ∷ rest

abbrev pub has_key : Text → Dict → Bool
has_key key m = any (λ kv. kv.0 =t key) m

-- Every key stands once.
abbrev pub DistinctKeys : Dict → Type 0
DistinctKeys [] = Unit
DistinctKeys ((k, v) ∷ m) = (has_key k m ≡ false) × DistinctKeys m

pub lookup-assign :
    (j k v : Text) (m : Dict) → lookup j (assign k v m) ≡ (if k =t j then some v else lookup j m)
unfolding lookup assign
lookup-assign j k v [] = refl
lookup-assign j k v ((i, u) ∷ m) = elim (Bool-cases (i =t k)) [
  | inl e ↦ rw (e, (=t_iff i k).0 e) (ground arith)
  | inr e ↦ rw (e, lookup-assign j k v m) (clash e)
]
  where
    clash :
        (i =t k) ≡ false
        → (if i =t j then some u else if k =t j then some v else lookup j m)
          ≡ (if k =t j then some v else if i =t j then some u else lookup j m)
    clash e = ground (arith, =t_iff i j, =t_iff k j, =t_iff i k)

pub has_key-assign :
    (j k v : Text) (m : Dict) → has_key j (assign k v m) ≡ (has_key j m || (k =t j))
unfolding assign
has_key-assign j k v [] = ground arith
has_key-assign j k v ((i, u) ∷ m) = elim (Bool-cases (i =t k)) [
  | inl e ↦ rw (e, (=t_iff i k).0 e) (ground arith)
  | inr e ↦ rw e (ground (arith, has_key-assign j k v m))
]

pub assign-DistinctKeys : (k v : Text) (m : Dict) → DistinctKeys m → DistinctKeys (assign k v m)
unfolding assign
assign-DistinctKeys k v [] h = (refl, tt)
assign-DistinctKeys k v ((i, u) ∷ m) (new, h) = elim (Bool-cases (i =t k)) [
  | inl e ↦ rw e (rw ((=t_iff i k).0 e) at new, h)
  | inr e ↦
      rw e (
        ground (arith, has_key-assign i k v m, =t_iff i k, =t_iff k i),
        assign-DistinctKeys k v m h,
      )
]
