-- ===== src/Workspace/EnvOrder.antt =====
-- The map that a list of entries stands for does not change when its entries are sorted by their keys.
use mathlib.Core.Logic.{inl, inr}
use dockvault.Common.{
  ◌≡◌, refl, false, ◌||◌, none, some, [], ◌∷◌, Text, ◌=t◌, =t_iff, Dict, lookup, has_key,
  DistinctKeys, sort_by, insert_sorted, text_lt, keep, not, arith, Bool-cases, if◌then◌else◌, ◌∙◌,
}
use dockvault.Workspace.Env.{key_before}

has_key-insert_sorted :
    (j k v : Text) (m : Dict)
    → has_key j (insert_sorted key_before (k, v) m) ≡ ((k =t j) || has_key j m)
unfolding insert_sorted
has_key-insert_sorted j k v [] = refl
has_key-insert_sorted j k v ((i, u) ∷ m) = elim (Bool-cases (text_lt i k)) [
  | inl e ↦ rw (e, has_key-insert_sorted j k v m) (ground arith)
  | inr e ↦ rw e refl
]

has_key-sort_by : (j : Text) (m : Dict) → has_key j (sort_by key_before m) ≡ has_key j m
unfolding sort_by
has_key-sort_by j [] = refl
has_key-sort_by j ((k, v) ∷ m) =
    rw (has_key-insert_sorted j k v (sort_by key_before m), has_key-sort_by j m) refl

lookup-insert_sorted :
    (j k v : Text) (m : Dict)
    → has_key k m ≡ false
    → lookup j (insert_sorted key_before (k, v) m) ≡ (if k =t j then some v else lookup j m)
unfolding insert_sorted lookup
lookup-insert_sorted j k v [] h = refl
lookup-insert_sorted j k v ((i, u) ∷ m) h = elim (Bool-cases (i =t k)) [
  | inl same ↦ cc (rw same at h)
  | inr other ↦ elim (Bool-cases (text_lt i k)) [
    | inl e ↦
        rw (e, lookup-insert_sorted j k v m (rw other at h))
          (ground (arith, =t_iff i j, =t_iff k j, =t_iff i k))
    | inr e ↦ rw e refl
  ]
]

pub lookup-sort_by :
    (j : Text) (m : Dict) → DistinctKeys m → lookup j (sort_by key_before m) ≡ lookup j m
unfolding sort_by lookup
lookup-sort_by j [] h = refl
lookup-sort_by j ((k, v) ∷ m) (new, h) =
    rw
      (
        lookup-insert_sorted j k v (sort_by key_before m) (has_key-sort_by k m ∙ new),
        lookup-sort_by j m h,
      )
      refl

insert_sorted-DistinctKeys :
    (k v : Text) (m : Dict)
    → has_key k m ≡ false
    → DistinctKeys m
    → DistinctKeys (insert_sorted key_before (k, v) m)
unfolding insert_sorted
insert_sorted-DistinctKeys k v [] new h = (refl, tt)
insert_sorted-DistinctKeys k v ((i, u) ∷ m) new (first, h) = elim (Bool-cases (text_lt i k)) [
  | inl e ↦ rw e (
    ground (arith, has_key-insert_sorted i k v m, =t_iff i k, =t_iff k i),
    insert_sorted-DistinctKeys k v m (ground arith) h,
  )
  | inr e ↦ rw e (new, (first, h))
]

pub sort_by-DistinctKeys : (m : Dict) → DistinctKeys m → DistinctKeys (sort_by key_before m)
unfolding sort_by
sort_by-DistinctKeys [] h = tt
sort_by-DistinctKeys ((k, v) ∷ m) (new, h) =
    insert_sorted-DistinctKeys k v (sort_by key_before m) (has_key-sort_by k m ∙ new)
      (sort_by-DistinctKeys m h)

-- The entries but for those of one key.
pub lookup-without :
    (key j : Text) (m : Dict)
    → lookup j (keep (λ kv. not (kv.0 =t key)) m) ≡ (if key =t j then none else lookup j m)
unfolding keep lookup
lookup-without key j [] = ground arith
lookup-without key j ((k, v) ∷ m) = elim (Bool-cases (k =t key)) [
  | inl e ↦ rw (e, lookup-without key j m) (ground (arith, =t_iff k key, =t_iff k j, =t_iff key j))
  | inr e ↦ rw (e, lookup-without key j m) (ground (arith, =t_iff k key, =t_iff k j, =t_iff key j))
]

-- A key that a map has not.
pub lookup-absent : (j : Text) (m : Dict) → has_key j m ≡ false → lookup j m ≡ none
unfolding lookup
lookup-absent j [] h = refl
lookup-absent j ((k, v) ∷ m) h = elim (Bool-cases (k =t j)) [
  | inl e ↦ cc (rw e at h)
  | inr e ↦ rw e (lookup-absent j m (rw e at h))
]
