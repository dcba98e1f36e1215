-- ===== src/Cli/ScanMasks.antt =====
-- The printed scan and the secrets.
use dockvault.Common.{
  length-map, ℕ, suc, ◌≡◌, refl, List, [], ◌∷◌, Text, Dict, map, Bool-cases, inl, inr,
  if◌then◌else◌,
}
use dockvault.Detector.Findings.{VolumeInfo}
use dockvault.Detector.Credentials.{looks_like_secret, generic_secret_markers}
use dockvault.Cli.Scan.{
  looks_secret, masked, masked_rest, masked_cred_keys, say_credentials, print_volume, print_volumes,
  print_scan_text,
}

-- Another value for each entry whose key the scan captures as a secret.
abbrev pub replaced : (Text → Text) → Text × Text → Text × Text
replaced other (k, v) = (k, if looks_like_secret k then other k else v)

abbrev pub with_secrets : (Text → Text) → VolumeInfo → VolumeInfo
with_secrets other v = record v { credentials = map (replaced other) v.credentials }

module _ (other : Text → Text) where
  masked-replaced :
      (k v : Text) → masked k (if looks_like_secret k then other k else v) ≡ masked k v
  unfolding masked looks_secret looks_like_secret generic_secret_markers
  masked-replaced k v = elim (Bool-cases (looks_secret k)) [ inl h ↦ rw h refl | inr h ↦ rw h refl ]

  masked_rest-replaced :
      (creds : Dict) → masked_rest (map (replaced other) creds) ≡ masked_rest creds
  unfolding masked_rest
  masked_rest-replaced [] = refl
  masked_rest-replaced ((k, v) ∷ creds) = rw (masked-replaced k v, masked_rest-replaced creds) refl

  say_credentials-replaced :
      (creds : Dict) → say_credentials (map (replaced other) creds) ≡ say_credentials creds
  unfolding say_credentials masked_cred_keys
  say_credentials-replaced [] = refl
  say_credentials-replaced ((k, v) ∷ creds) =
      rw (masked-replaced k v, masked_rest-replaced creds) refl

  print_volume-replaced :
      (n : ℕ) (v : VolumeInfo) → print_volume n (with_secrets other v) ≡ print_volume n v
  unfolding print_volume
  print_volume-replaced n v = rw (say_credentials-replaced v.credentials) refl

  print_volumes-replaced :
      (n : ℕ) (vols : List VolumeInfo)
      → print_volumes n (map (with_secrets other) vols) ≡ print_volumes n vols
  unfolding print_volumes
  print_volumes-replaced n [] = refl
  print_volumes-replaced n (v ∷ vols) =
      rw (print_volume-replaced n v, print_volumes-replaced (suc n) vols) refl

  -- The text output of the scan, which is its default, does not depend on the values of the credentials
  -- whose keys the scan captures because they look like secrets: with any other values in their place
  -- it prints the same.
  pub print_scan_text-with_secrets :
      (vols : List VolumeInfo)
      → print_scan_text (map (with_secrets other) vols) ≡ print_scan_text vols
  unfolding print_scan_text
  print_scan_text-with_secrets vols =
      rw (print_volumes-replaced 1 vols, length-map (with_secrets other) vols) refl
