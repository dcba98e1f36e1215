-- ===== src/Detector/CredentialLaws.antt =====
-- Which credentials are captured from the environment of a container.
use dockvault.Common.{
  ◌≡◌, refl, Bool, true, false, not, Option, none, some, List, [], ◌∷◌, ◌&&◌, ◌||◌, Text, ◌=t◌,
  =t_iff, arith, Bool-cases, inl, inr, Dict, lookup, assign, has_key, DistinctKeys, lookup-assign,
  if◌then◌else◌, ◌∙◌,
}
use dockvault.Detector.ServiceTypes.{detect_service_type, credential_env_keys}
use dockvault.Detector.Credentials.{
  is_one_of, looks_like_secret, copy_known, known_credentials, secret_credentials,
  extract_credentials,
}

-- The first of two values that is there.
abbrev or_else : Option Text → Option Text → Option Text
or_else (some v) o = some v
or_else none o = o

or_else-none : (o : Option Text) → or_else o none ≡ o
or_else-none none = refl
or_else-none (some v) = refl

lookup-missing : (j : Text) (m : Dict) → has_key j m ≡ false → lookup j m ≡ none
unfolding lookup
lookup-missing j [] h = refl
lookup-missing j ((k, v) ∷ m) h = elim (Bool-cases (k =t j)) [
  | inl e ↦ cc (rw e at h)
  | inr e ↦ rw e (lookup-missing j m (rw e at h))
]

lookup-copy_known :
    (j k : Text) (o : Option Text) (creds : Dict)
    → lookup j (copy_known o k creds)
      ≡ (if k =t j then or_else o (lookup j creds) else lookup j creds)
unfolding copy_known
lookup-copy_known j k none creds = ground arith
lookup-copy_known j k (some v) creds = lookup-assign j k v creds

lookup-known_credentials :
    (j : Text) (keys : List Text) (env creds : Dict)
    → lookup j (known_credentials keys env creds)
      ≡ (if is_one_of keys j then or_else (lookup j env) (lookup j creds) else lookup j creds)
unfolding known_credentials
lookup-known_credentials j [] env creds = refl
lookup-known_credentials j (k ∷ keys) env creds =
    lookup-known_credentials j keys env (copy_known (lookup k env) k creds)
    ∙ elim (Bool-cases (k =t j)) [
      | inl e ↦
          rw (lookup-copy_known j k (lookup k env) creds, e, (=t_iff k j).0 e)
            (again (lookup j env) (lookup j creds) (is_one_of keys j))
      | inr e ↦ rw (lookup-copy_known j k (lookup k env) creds, e) refl
    ]
  where
    again :
        (o p : Option Text) (b : Bool)
        → (if b then or_else o (or_else o p) else or_else o p) ≡ or_else o p
    again none p true = refl
    again none p false = refl
    again (some v) p true = refl
    again (some v) p false = refl

-- The secrets of the environment that are no known keys.
abbrev is_other_secret : List Text → Text → Bool
is_other_secret known key = not (is_one_of known key) && looks_like_secret key

lookup-secret_credentials :
    (j : Text) (known : List Text) (env creds : Dict)
    → DistinctKeys env
    → lookup j (secret_credentials known env creds) ≡ (
        if is_other_secret known j then or_else (lookup j env) (lookup j creds) else lookup j creds)
unfolding secret_credentials lookup
lookup-secret_credentials j known [] creds h = ground arith
lookup-secret_credentials j known ((k, v) ∷ env) creds (new, h) =
    let next : Dict =
      if is_one_of known k
      then creds
      else if looks_like_secret k
      then assign k v creds
      else creds in
    lookup-secret_credentials j known env next h ∙ elim (Bool-cases (k =t j)) [
      | inl e ↦
          rw (e, lookup-missing j env (rw ((=t_iff k j).0 e) at new), (=t_iff k j).0 e)
            (ground (arith, lookup-assign j j v creds, =t_iff j j))
      | inr e ↦ rw e (ground (arith, lookup-assign j k v creds))
    ]

-- A key is captured, with its value, if it is one of the service's keys or looks like a secret, and
-- nothing else is, in an environment whose keys are distinct.
pub extract_credentials_lem :
    (image : Text) (env : Dict) (key : Text)
    → DistinctKeys env
    → lookup key (extract_credentials image env) ≡ (
        if is_one_of (credential_env_keys (detect_service_type image)) key || looks_like_secret key
        then lookup key env
        else none)
unfolding extract_credentials
extract_credentials_lem image env key h =
    let known : List Text = credential_env_keys (detect_service_type image) in
    lookup-secret_credentials key known env (known_credentials known env []) h
    ∙ rw (lookup-known_credentials key known env [])
        (both (lookup key env) (is_one_of known key) (looks_like_secret key))
  where
    both :
        (o : Option Text) (b c : Bool)
        → (if not b && c
            then or_else o (if b then or_else o (lookup key []) else lookup key [])
            else if b
            then or_else o (lookup key [])
            else lookup key [])
          ≡ (if b || c then o else none)
    both o true c = unfold lookup in or_else-none o
    both o false true = unfold lookup in or_else-none o
    both o false false = unfold lookup in refl
