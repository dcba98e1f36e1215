-- ===== src/Detector/HostPathLaws.antt =====
-- The host paths that a scan finds.
use dockvault.Common.{
  ℕ, ◌+◌, ◌≡◌, refl, ap, ◌∙◌, Bool, List, [], ◌∷◌, ◌++◌, ◌||◌, inl, inr, Text, ◌=t◌, =t_iff, arith,
  Bool-cases, if◌then◌else◌, sort_by, insert_sorted,
}
use dockvault.Common.Order.{
  InOrder, sort_by-InOrder, text_lt-IsComparison, text_lt-asymm, IsComparison,
}
use dockvault.Detector.Findings.{HostPathInfo}
use dockvault.Detector.HostPaths.{has_path, add_all, path_before, host_paths}

abbrev one : Bool → ℕ
one b = if b then 1 else 0

-- How often a path was found.
abbrev pub copies : Text → List HostPathInfo → ℕ
copies path [] = 0
copies path (h ∷ hs) = one (h.path =t path) + copies path hs

copies-append :
    (path : Text) (xs ys : List HostPathInfo)
    → copies path (xs ++ ys) ≡ copies path xs + copies path ys
copies-append path [] ys = omega arith
copies-append path (x ∷ xs) ys = omega (arith, copies-append path xs ys)

has_path-append :
    (path : Text) (xs ys : List HostPathInfo)
    → has_path path (xs ++ ys) ≡ (has_path path xs || has_path path ys)
has_path-append path [] ys = refl
has_path-append path (x ∷ xs) ys = ground (arith, has_path-append path xs ys)

copies-insert_sorted :
    (path : Text) (x : HostPathInfo) (xs : List HostPathInfo)
    → copies path (insert_sorted path_before x xs) ≡ copies path (x ∷ xs)
unfolding insert_sorted
copies-insert_sorted path x [] = refl
copies-insert_sorted path x (y ∷ ys) = elim (Bool-cases (path_before y x)) [
  | inl e ↦ rw e (omega (arith, copies-insert_sorted path x ys))
  | inr e ↦ rw e refl
]

copies-sort_by :
    (path : Text) (xs : List HostPathInfo) → copies path (sort_by path_before xs) ≡ copies path xs
unfolding sort_by
copies-sort_by path [] = refl
copies-sort_by path (x ∷ xs) =
    copies-insert_sorted path x (sort_by path_before xs)
    ∙ ap (λ n. one (x.path =t path) + n) (copies-sort_by path xs)

module _ (path : Text) where
  -- The list after one call of `add`.
  abbrev added : HostPathInfo → List HostPathInfo → List HostPathInfo
  added h out = if has_path h.path out then out else out ++ (h ∷ [])

  has_path-added :
      (h : HostPathInfo) (out : List HostPathInfo)
      → has_path path (added h out) ≡ (has_path path out || (h.path =t path))
  has_path-added h out = ground (arith, has_path-append path out (h ∷ []), =t_iff h.path path)

  copies-added :
      (h : HostPathInfo) (out : List HostPathInfo)
      → copies path out ≡ one (has_path path out)
      → copies path (added h out) ≡ one (has_path path (added h out))
  copies-added h out e = ground (
    arith,
    has_path-append path out (h ∷ []),
    copies-append path out (h ∷ []),
    =t_iff h.path path,
  )

  copies-add_all :
      (out hs : List HostPathInfo)
      → copies path out ≡ one (has_path path out)
      → copies path (add_all out hs) ≡ one (has_path path out || has_path path hs)
  unfolding add_all
  copies-add_all out [] e = e ∙ ground arith
  copies-add_all out (h ∷ hs) e =
      copies-add_all (added h out) hs (copies-added h out e) ∙ ground (arith, has_path-added h out)

path_before-IsComparison : IsComparison path_before
unfolding path_before
path_before-IsComparison a b c h = text_lt-IsComparison a.path b.path c.path h

-- Of all that was found at the mounts, the notable directories and the files, the scan gives every path
-- exactly once, in the order of the paths, and no other.
pub host_paths_lem :
    (found : List HostPathInfo)
    → ((path : Text) → copies path (host_paths found) ≡ (if has_path path found then 1 else 0))
      × InOrder path_before (host_paths found)
unfolding host_paths path_before
host_paths_lem found = (
  λ path. copies-sort_by path (add_all [] found) ∙ copies-add_all path [] found refl,
  sort_by-InOrder path_before path_before-IsComparison (λ a b. text_lt-asymm a.path b.path)
      (add_all [] found),
)
