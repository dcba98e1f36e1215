-- ===== src/Backup/Upload/Integrity.antt =====
-- What a successful upload guarantees.
use mathlib.Core.Path.{subst}
use dockvault.Common.{
  sym, ◌∙◌, false, ◌≡◌, refl, ◌⊎◌, inl, inr, true, [], ◌∷◌, ◌++◌, Text, codes, null, ◌=t◌, =t_iff,
  Bool-cases, ap,
}
use dockvault.Effects.{
  Call, Reply, Result, ok, err, panic, World, M, continue, continue-ok, Answer-cases, monad, ◌>>=◌,
  Content, open_file, read_file, wrap, ask, wrapped, attempted, return, ◌>>◌, FileStat, stat,
  to_result,
}
use dockvault.Backup.Job.{Job}
use dockvault.Backup.Clients.{RcloneClient}
use dockvault.Backup.Manifest.{compute_manifest, ArchiveManifest, manifest_path_for, write_manifest}
use dockvault.Backup.LocalCopy.{retain_local_copy}
use dockvault.Backup.Upload.{
  Error, Sidecar, sidecar_of, manifest_computed, make_sidecar, upload_archive, upload_sidecar,
  conclude_upload, verify_upload, verify_remote_hash, compare_md5, remote_md5_of, remote_file_of,
}

-- The content that a hashing pass reads behind a request to open the file.
abbrev pub Reads : World → Text → Content → Type 0
Reads w path content = w.platform.answer (open_file path ∷ w.log) (read_file path) ≡ inr content

wrapped-ok :
    {A : Type 0} (prefix suffix : Text) (r : Result A) (a : A)
    → wrapped prefix suffix r ≡ ok a
    → r ≡ ok a
wrapped-ok prefix suffix (ok b) a h = h
wrapped-ok prefix suffix (err e) a h = cc h
wrapped-ok prefix suffix (panic t) a h = cc h

null-eq : (s : Text) → null s ≡ true → s ≡ []
null-eq [] h = refl
null-eq (c ∷ s) h = cc h

-- A verification that passes saw the local digest as the remote one.
compare_md5-ok :
    (path md5 got : Text) (w w' : World) → compare_md5 path md5 got w ≡ (ok tt, w') → got ≡ md5
unfolding compare_md5 monad
compare_md5-ok path md5 got w w' h = elim (Bool-cases (got =t md5)) [
  | inl e ↦ (=t_iff got md5).0 e
  | inr e ↦ cc (rw e at h)
]

verify_remote_hash-ok :
    (rc : RcloneClient) (path md5 : Text) (w w' : World)
    → verify_remote_hash rc path md5 w ≡ (ok tt, w')
    → (rc.hashsum path w).0 ≡ ok md5
unfolding verify_remote_hash monad
verify_remote_hash-ok rc path md5 w w' h =
    let (got, w1, p, q) = continue-ok (remote_md5_of rc path w) (compare_md5 path md5) h in
    rw (← compare_md5-ok path md5 got w1 w' q) (
      wrapped-ok (codes "verifying upload integrity for " ++ (path ++ codes ": ")) [] _ got
        (ap (λ (r : Result Text × World). r.0) p))

-- The manifest's MD5 is that of the content that was read.
compute_manifest-md5 :
    (job : Job) (path : Text) (w w' : World) (m : ArchiveManifest)
    → compute_manifest job path w ≡ (ok m, w')
    → (content : Content) × Reads w path content × (m.md5 ≡ w.platform.md5 content)
unfolding compute_manifest monad
compute_manifest-md5 job path w w' m h =
    elim (Answer-cases (w.platform.answer w.log (open_file path))) [
      | inl (e, p) ↦ cc (rw p at h)
      | inr (v, p) ↦
          elim (Answer-cases (w.platform.answer (open_file path ∷ w.log) (read_file path))) [
            | inl (e, q) ↦ cc (rw (p, q) at h)
            | inr (content, q) ↦ (content, q, cc (rw (p, q) at h))
          ]
    ]

-- There is no manifest: it could not be computed, or it could not be written.
abbrev pub NoManifest : Job → Text → World → Type 0
NoManifest job path w =
    ((e : Error) × (w1 : World) × (compute_manifest job path w ≡ (err e, w1)))
    ⊎ ((m : ArchiveManifest) × (e : Error) × (w1 : World) × (w2 : World) × (compute_manifest job
            path w
          ≡ (ok m, w1))
        × (write_manifest m (manifest_path_for path) w1 ≡ (err e, w2)))

-- A sidecar has a path, and the MD5 of what the archive held; or there is no manifest.
abbrev Describes : Job → Text → World → Sidecar → Type 0
Describes job path w side =
    NoManifest job path w
    ⊎ ((null side.path ≡ false)
        × ((content : Content) × Reads w path content × (side.md5 ≡ w.platform.md5 content)))

null-manifest_path_for : (path : Text) → null (manifest_path_for path) ≡ false
unfolding manifest_path_for
null-manifest_path_for [] = refl
null-manifest_path_for (c ∷ path) = refl

ok-injective :
    {A : Type 0} {a b : A} {w w' : World} → ◌≡◌ {A = Result A × World} (ok a, w) (ok b, w') → a ≡ b
ok-injective h = cc h

after_write :
    (job : Job) (path : Text) (w w1 w' : World) (side : Sidecar) (m : ArchiveManifest)
    (r : Result (Unit {0}) × World)
    → compute_manifest job path w ≡ (ok m, w1)
    → write_manifest m (manifest_path_for path) w1 ≡ r
    → continue (attempted r.0, r.1) (λ r. return (sidecar_of (manifest_path_for path) m r))
      ≡ (ok side, w')
    → Describes job path w side
unfolding sidecar_of monad
after_write job path w w1 w' side m (ok done, w2) p q h =
    rw (← ok-injective h)
      (inr (null-manifest_path_for path, compute_manifest-md5 job path w w1 m p))
after_write job path w w1 w' side m (err e, w2) p q h = inl (inr (m, e, w1, w2, p, q))
after_write job path w w1 w' side m (panic t, w2) p q h = cc h

after_compute :
    (job : Job) (path : Text) (w w' : World) (side : Sidecar) (r : Result ArchiveManifest × World)
    → compute_manifest job path w ≡ r
    → continue (attempted r.0, r.1) (manifest_computed path) ≡ (ok side, w')
    → Describes job path w side
unfolding manifest_computed monad
after_compute job path w w' side (err e, w1) p h = inl (inl (e, w1, p))
after_compute job path w w' side (panic t, w1) p h = cc h
after_compute job path w w' side (ok m, w1) p h =
    after_write job path w w1 w' side m (write_manifest m (manifest_path_for path) w1) p refl h

make_sidecar-Describes :
    (job : Job) (path : Text) (w w' : World) (side : Sidecar)
    → make_sidecar job path w ≡ (ok side, w')
    → Describes job path w side
unfolding make_sidecar monad
make_sidecar-Describes job path w w' side h =
    after_compute job path w w' side (compute_manifest job path w) refl h

verify_upload-ok :
    (rc : RcloneClient) (job : Job) (path : Text) (side : Sidecar) (w w' : World)
    → verify_upload rc job path side w ≡ (ok tt, w')
    → null side.path ≡ false
    → (rc.hashsum (remote_file_of job path) w).0 ≡ ok side.md5
unfolding verify_upload monad
verify_upload-ok rc job path side w w' h e =
    verify_remote_hash-ok rc (remote_file_of job path) side.md5 w w' (rw e at h)

-- The steps of `upload_archive`, from the last one back.
abbrev after_sidecar_upload : RcloneClient → Job → Text → FileStat → Sidecar → Text → M Text
after_sidecar_upload rc job path info side status =
    verify_upload rc job path side >> conclude_upload rc job info status

abbrev after_upload : RcloneClient → Job → Text → FileStat → Sidecar → Text → M Text
after_upload rc job path info side status =
    upload_sidecar rc job side.path status >>= after_sidecar_upload rc job path info side

abbrev uploaded : RcloneClient → Job → Text → M (Unit {0})
uploaded rc job path =
    wrap (codes "uploading to " ++ (job.google_drive_path ++ codes ": "))
      (rc.upload path job.google_drive_path)

abbrev after_copy : RcloneClient → Job → Text → FileStat → Sidecar → Text → M Text
after_copy rc job path info side status =
    uploaded rc job path >> after_upload rc job path info side status

abbrev after_sidecar : RcloneClient → Job → Text → FileStat → Sidecar → M Text
after_sidecar rc job path info side =
    retain_local_copy job path side.path side.status >>= after_copy rc job path info side

abbrev after_stat : RcloneClient → Job → Text → FileStat → M Text
after_stat rc job path info = make_sidecar job path >>= after_sidecar rc job path info

-- The run `w` of an upload in its order: the archive is described, a local copy is kept, the archive and
-- its manifest are sent, and then the remote reports, for the uploaded file, the MD5 of what the local
-- archive held when it was described; or there is no manifest to compare with.
pub record Verified (rc : RcloneClient) (job : Job) (path : Text) (w : World) : Type 0 where
  pub side : Sidecar
  pub described : World
  pub copied : World
  pub sent : World
  pub checked : World
  pub status : Text
  pub is_described :
      make_sidecar job path (record w { log = stat path ∷ w.log }) ≡ (ok side, described)
  pub is_copied : retain_local_copy job path side.path side.status described ≡ (ok status, copied)
  pub is_sent : rc.upload path job.google_drive_path copied ≡ (ok tt, sent)
  pub is_checked : (upload_sidecar rc job side.path status sent).1 ≡ checked
  pub verdict :
      NoManifest job path (record w { log = stat path ∷ w.log })
      ⊎ ((content : Content) × Reads (record w { log = stat path ∷ w.log }) path content
          × ((rc.hashsum (remote_file_of job path) checked).0 ≡ ok (w.platform.md5 content)))

wrap-ok :
    {A : Type 0} (prefix : Text) (m : M A) (w w' : World) (a : A)
    → wrap prefix m w ≡ (ok a, w')
    → m w ≡ (ok a, w')
unfolding wrap
wrap-ok {A = A} prefix m w w' a h = go (m w) refl h
  where
    go :
        (r : Result A × World)
        → m w ≡ r
        → ◌≡◌ {A = Result A × World} (wrapped prefix [] r.0, r.1) (ok a, w')
        → m w ≡ (ok a, w')
    go (ok b, w1) p h = p ∙ h
    go (err e, w1) p h = cc h
    go (panic t, w1) p h = cc h

after_ask :
    {A : Type 0} (prefix : Text) (c : Call) (read : Reply c → Result A) (w w' : World) (a : A)
    → wrap prefix (ask c read) w ≡ (ok a, w')
    → w' ≡ record w { log = c ∷ w.log }
unfolding wrap ask
after_ask prefix c read w w' a h = sym (ap (λ r. r.1) h)

end_world : {A : Type 0} {r : Result A × World} {a : A} {w : World} → r ≡ (ok a, w) → r.1 ≡ w
end_world h = ap (λ r. r.1) h

verdict_lem :
    (rc : RcloneClient) (job : Job) (path : Text) (side : Sidecar) (w w1 w2 w3 : World)
    → make_sidecar job path w ≡ (ok side, w1)
    → verify_upload rc job path side w2 ≡ (ok tt, w3)
    → NoManifest job path w
      ⊎ ((content : Content) × Reads w path content
          × ((rc.hashsum (remote_file_of job path) w2).0 ≡ ok (w.platform.md5 content)))
verdict_lem rc job path side w w1 w2 w3 made checks =
    elim (make_sidecar-Describes job path w w1 side made) [
      | inl none_made ↦ inl none_made
      | inr (has_path, (content, reads, same)) ↦ inr (
        content,
        reads,
        verify_upload-ok rc job path side w2 w3 checks has_path ∙ ap (λ t. ok t) same,
      )
    ]

-- An upload that succeeds described the archive, sent it, and only then saw the remote report, for the
-- uploaded file, the MD5 of what the local archive held when it was described, unless the manifest could
-- not be computed or not be written.
pub upload_archive-Verified :
    (rc : RcloneClient) (job : Job) (path : Text) (w w' : World) (status : Text)
    → upload_archive rc job path w ≡ (ok status, w')
    → Verified rc job path w
unfolding upload_archive ◌>>=◌
upload_archive-Verified rc job path w w' status h =
    let (info, w1, stated, h1) =
      continue-ok (wrap (codes "reading archive output: ") (ask (stat path) to_result) w)
        (λ info. after_stat rc job path info) h in
    let (side, w2, made, h2) =
      continue-ok (make_sidecar job path w1) (λ side. after_sidecar rc job path info side) h1 in
    let (s3, w3, kept, h3) =
      continue-ok (retain_local_copy job path side.path side.status w2)
        (λ s. after_copy rc job path info side s) h2 in
    let (_, w4, sends, h4) =
      continue-ok (uploaded rc job path w3) (λ _. after_upload rc job path info side s3) h3 in
    let (s5, w5, manifest_sent, h5) =
      continue-ok (upload_sidecar rc job side.path s3 w4)
        (λ s. after_sidecar_upload rc job path info side s) h4 in
    let (done, w6, checks, _) =
      continue-ok (verify_upload rc job path side w5) (λ _. conclude_upload rc job info s5) h5 in
    let made' =
      subst (λ v. make_sidecar job path v ≡ (ok side, w2)) (after_ask _ _ _ w w1 info stated)
        made in
    record {
      side = side;
      described = w2;
      copied = w3;
      sent = w4;
      checked = w5;
      status = s3;
      is_described = made';
      is_copied = kept;
      is_sent = wrap-ok _ _ w3 w4 tt sends;
      is_checked = end_world manifest_sent;
      verdict = verdict_lem rc job path side _ w2 w5 w6 made' checks;
    }
