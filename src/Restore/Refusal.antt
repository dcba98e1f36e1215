-- ===== src/Restore/Refusal.antt =====
-- A download that fails its check is never handed to Docker.
use dockvault.Common.{◌≡◌, refl, Bool, [], ◌∷◌, Text, codes, path_join}
use dockvault.Effects.{
  Error, Result, ok, err, panic, World, M, continue, monad, ◌>>=◌, ◌>>◌, wrap, ask, finally,
  to_result, mkdir_temp, remove_all,
}
use dockvault.Backup.Job.{Job}
use dockvault.Backup.Clients.{RcloneClient}
use dockvault.Backup.TempDir.{with_temp_dir}
use dockvault.Restore.Files.{BackupFile, download_to, restore_prefix}
use dockvault.Restore.Verify.{verify_manifest_file, download_and_read, Downloaded}

module _ {A B : Type 0} where
  -- An error of the first two steps is the error of the three.
  continue-err :
      {C : Type 0} (r : Result A × World) (q : A → M B) (rest : B → M C) {e : Error} {w : World}
      → continue r q ≡ (err e, w)
      → continue r (λ a. q a >>= rest) ≡ (err e, w)
  unfolding monad
  continue-err (ok a, w1) q rest h = rw h refl
  continue-err (err e', w1) q rest h = cc h
  continue-err (panic t, w1) q rest h = cc h

-- The steps of a restorer that reads the archive from disk, up to the check.
unfoldable pub check_file : RcloneClient → Job → BackupFile → M Text
check_file rc job file = do
  dir ← wrap (codes "creating temp dir: ") (ask (mkdir_temp (restore_prefix job)) to_result)
  download_to rc file dir
  verify_manifest_file rc file dir (path_join (dir ∷ file.name ∷ []))

module _ (rc : RcloneClient) (job : Job) (file : BackupFile) where
  -- What follows the check, given the directory and the warning.
  abbrev pub body : (Text → Text → M Text) → Text → M Text
  body rest dir =
      download_to rc file dir
      >> (verify_manifest_file rc file dir (path_join (dir ∷ file.name ∷ [])) >>= rest dir)

  in_dir :
      (r : Result Text × World) (e : Error) (w' : World)
      → continue r (λ dir.
        download_to rc file dir
        >> verify_manifest_file rc file dir (path_join (dir ∷ file.name ∷ [])))
        ≡ (err e, w')
      → (w'' : World) × ((rest : Text → Text → M Text)
          → continue r (λ dir. finally (body rest dir) (ask (remove_all dir) to_result))
            ≡ (err e, w''))
  unfolding monad
  in_dir (ok dir, w1) e w' h = (
    (ask (remove_all dir) to_result w').1,
    λ rest.
        rw
          (continue-err (download_to rc file dir w1)
            (λ _. verify_manifest_file rc file dir (path_join (dir ∷ file.name ∷ []))) (rest dir) h)
          refl,
  )
  in_dir (err e', w1) e w' h = (w', λ rest. h)
  in_dir (panic t, w1) e w' h = (w', λ rest. cc h)

  pub file_refused :
      (w w' : World) (e : Error)
      → check_file rc job file w ≡ (err e, w')
      → (w'' : World) × ((rest : Text → Text → M Text)
          → with_temp_dir (restore_prefix job) (body rest) w ≡ (err e, w''))
  unfolding check_file with_temp_dir ◌>>=◌
  file_refused w w' e h = in_dir (wrap _ (ask (mkdir_temp (restore_prefix job)) to_result) w) e w' h

  -- The same for a restorer that reads the dump into memory.
  pub dump_refused :
      {C : Type 0} (gunzip : Bool) (w w' : World) (e : Error) (rest : Downloaded → M C)
      → download_and_read rc file gunzip w ≡ (err e, w')
      → (download_and_read rc file gunzip >>= rest) w ≡ (err e, w')
  unfolding ◌>>=◌
  dump_refused gunzip w w' e rest h = rw h refl
