-- ===== src/Rclone/Newest.antt =====
-- What a run of `Prune` leaves on the remote.
use mathlib.Core.Path.{subst}
use dockvault.Common.{
  codes, ℕ, zero, suc, ◌≡◌, refl, ap, ◌⊎◌, inl, inr, false, List, [], ◌∷◌, ◌++◌, take, drop, length,
  ℤ, pos, Text, All,
}
use dockvault.Common.Order.{InOrder}
use dockvault.Effects.{Call, now, World, ok, ◌>>=◌, return, continue-ok}
use dockvault.Effects.Keeps.{Grows, Grows-mono}
use dockvault.Rclone.{
  Client, FileInfo, manifest_suffix, list_files, list_entries, files_of, prune, run, remote_path,
}
use dockvault.Rclone.Listing.{is_later, files_of-InOrder}
use dockvault.Rclone.Prune.{delete_request, Deletes, prune-Deletes}

list_files-InOrder :
    (c : Client) (path : Text) (w w' : World) (files : List FileInfo)
    → list_files c path w ≡ (ok files, w')
    → InOrder is_later files
unfolding list_files ◌>>=◌ return
list_files-InOrder c path w w' files h =
    let (entries, w1, _, k) =
      continue-ok (list_entries path (run c (codes "lsjson" ∷ remote_path c path ∷ [])) w)
        (λ entries. return (files_of path entries)) h in
    let same : files_of path entries ≡ files = cc k in
    subst (InOrder is_later) same (files_of-InOrder path entries)

All-both :
    {A : Type 0} (P Q : A → Type 0) (xs : List A) → All P xs → All Q xs → All (λ x. P x × Q x) xs
All-both P Q [] h k = tt
All-both P Q (x ∷ xs) (hx, h) (kx, k) = ((hx, kx), All-both P Q xs h k)

All-drop : {A : Type 0} (P : A → Type 0) (n : ℕ) (xs : List A) → All P xs → All P (drop n xs)
All-drop P zero xs h = h
All-drop P (suc n) [] h = tt
All-drop P (suc n) (x ∷ xs) (hx, h) = All-drop P n xs h

All-trivial : {A : Type 0} (xs : List A) → All (λ x. Unit {0}) xs
All-trivial [] = tt
All-trivial (x ∷ xs) = (tt, All-trivial xs)

-- No file of the list has a greater time than one of `kept`.
abbrev pub NotLater : List FileInfo → FileInfo → Type 0
NotLater kept f = All (λ k. is_later f k ≡ false) kept

drop-NotLater :
    (n : ℕ) (xs : List FileInfo) → InOrder is_later xs → All (NotLater (take n xs)) (drop n xs)
drop-NotLater zero xs h = All-trivial xs
drop-NotLater (suc n) [] h = tt
drop-NotLater (suc n) (x ∷ xs) (hx, h) =
    All-both (λ f. is_later f x ≡ false) (NotLater (take n xs)) (drop n xs)
      (All-drop (λ f. is_later f x ≡ false) n xs hx) (drop-NotLater n xs h)

abbrev pub DeletesOne : Client → FileInfo → Call → Type 0
DeletesOne c f call =
    (call ≡ delete_request c f.path) ⊎ (call ≡ delete_request c (f.path ++ manifest_suffix))

-- A file stands at some place of the list.
abbrev pub Stands : FileInfo → List FileInfo → Type 0
Stands f [] = ⊥
Stands f (x ∷ xs) = (f ≡ x) ⊎ Stands f xs

which :
    (c : Client) (Q : FileInfo → Type 0) (fs : List FileInfo) (call : Call)
    → All Q fs
    → Deletes c fs call
    → (f : FileInfo) × Stands f fs × Q f × DeletesOne c f call
which c Q [] call h d = absurd d
which c Q (f ∷ fs) call (q, h) d = elim d [
  | inl e ↦ (f, inl refl, q, inl e)
  | inr r ↦ elim r [
    | inl e ↦ (f, inl refl, q, inr e)
    | inr s ↦ let (g, place, k, one) = which c Q fs call h s in (g, inr place, k, one)
  ]
]

length-kept :
    (c : Client) (n : ℕ) (xs : List FileInfo) (call : Call)
    → Deletes c (drop n xs) call
    → length (take n xs) ≡ n
length-kept c zero xs call d = refl
length-kept c (suc n) [] call d = absurd d
length-kept c (suc n) (x ∷ xs) call d = ap suc (length-kept c n xs call d)

-- Behind a listing that succeeds, and for a least count `n` that is not negative, a run of `Prune` asks
-- for nothing but the time and the deletion of listed files and of their manifests, and of such a file
-- only if there are `n` other places of the listing in front of it, each of a file whose modification
-- time is no smaller text.
pub prune-SparesNewest :
    (c : Client) (path : Text) (days : ℤ) (n : ℕ) (w w' : World) (files : List FileInfo)
    → list_files c path w ≡ (ok files, w')
    → Grows
        (λ call.
          (call ≡ now)
          ⊎ ((f : FileInfo) × Stands f (drop n files)
              × NotLater (take n files) f
              × DeletesOne c f call
              × (length (take n files) ≡ n)))
        w'.log
        (prune c path days (pos n) w).1.log
prune-SparesNewest c path days n w w' files h =
    Grows-mono
      (λ call d. elim d [
        | inl e ↦ inl e
        | inr d ↦
            let (f, place, q, one) =
              which c (NotLater (take n files)) (drop n files) call
                (drop-NotLater n files (list_files-InOrder c path w w' files h)) d in
            inr (f, place, q, one, length-kept c n files call d)
      ])
      (prune-Deletes c path days n w w' files h)
