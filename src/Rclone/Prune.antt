-- ===== src/Rclone/Prune.antt =====
-- What `Prune` deletes on the remote.
use dockvault.Common.{
  length, leb, ℕ, ◌≡◌, refl, ◌⊎◌, inl, inr, Bool, List, [], ◌∷◌, ◌++◌, drop, keep, ℤ, pos, Text,
  codes, none, Bool-cases,
}
use dockvault.Effects.{Call, run_command, now, World, ok, monad}
use dockvault.Effects.Keeps.{
  Grows, Grows-mono, more, same, Only, Only-mono, Grows-trans, bind-Only, wrap-Only, attempt-Only,
  return-Only, ask-Only,
}
use dockvault.Rclone.{
  choose_old, Client, FileInfo, bin, run, remote_path, manifest_suffix, delete_file, prune_loop,
  prune, list_files,
}
use dockvault.Rclone.Retention.{files_to_prune-eq}

-- The request to delete one object of the remote.
unfoldable pub delete_request : Client → Text → Call
delete_request c path = run_command (bin c) (codes "deletefile" ∷ remote_path c path ∷ []) none

-- A request to delete one of the files or its manifest.
abbrev pub Deletes : Client → List FileInfo → Call → Type 0
Deletes c [] call = ⊥
Deletes c (f ∷ fs) call =
    (call ≡ delete_request c f.path)
    ⊎ (call ≡ delete_request c (f.path ++ manifest_suffix))
    ⊎ Deletes c fs call

delete_file-Only :
    {P : Call → Type 0} (c : Client) (path : Text)
    → P (delete_request c path)
    → Only P (delete_file c path)
unfolding delete_file delete_request run
delete_file-Only c path p = ask-Only _ _ p

prune_loop-Only :
    (c : Client) (least : ℤ) (fs : List FileInfo) (pruned : List Text)
    → Only (Deletes c fs) (prune_loop c least fs pruned)
unfolding prune_loop
prune_loop-Only c least [] pruned = return-Only pruned
prune_loop-Only c least (f ∷ fs) pruned =
    bind-Only (wrap-Only _ (delete_file-Only c f.path (inl refl))) λ _.
      bind-Only (attempt-Only (delete_file-Only c _ (inr (inl refl)))) λ _.
        Only-mono (λ call d. inr (inr d)) (prune_loop-Only c least fs (pruned ++ (f.name ∷ [])))

Deletes-keep :
    (c : Client) (p : FileInfo → Bool) (fs : List FileInfo) (call : Call)
    → Deletes c (keep p fs) call
    → Deletes c fs call
unfolding keep
Deletes-keep c p [] call d = d
Deletes-keep c p (f ∷ fs) call d = elim (Bool-cases (p f)) [
  | inl e ↦ elim (rw e at d) [
    | inl h ↦ inl h
    | inr r ↦ elim r [ inl h ↦ inr (inl h) | inr h ↦ inr (inr (Deletes-keep c p fs call h)) ]
  ]
  | inr e ↦ inr (inr (Deletes-keep c p fs call (rw e at d)))
]

pub prune-Deletes :
    (c : Client) (path : Text) (days : ℤ) (n : ℕ) (w w' : World) (files : List FileInfo)
    → list_files c path w ≡ (ok files, w')
    → Grows
        (λ call. (call ≡ now) ⊎ Deletes c (drop n files) call)
        w'.log
        (prune c path days (pos n) w).1.log
unfolding prune monad choose_old prune_loop
prune-Deletes c path days n w w' files e = elim (Bool-cases (leb (length files) n)) [
  | inl few ↦ rw (e, few) same
  | inr many ↦
      rw (e, many, files_to_prune-eq)
        (Grows-trans (more now (inl refl) same) (
          Grows-mono (λ call d. inr (Deletes-keep c _ (drop n files) call d))
            ((prune_loop-Only c (pos n) _ []).grows _)))
]
