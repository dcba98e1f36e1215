-- ===== src/Detector/Credentials.antt =====
-- `ExtractCredentials` of internal/detector/detector.go.
use dockvault.Common.{
  Bool, Option, none, some, List, [], ◌∷◌, Text, codes, ◌=t◌, any, contains, to_upper, Dict, lookup,
  assign, if◌then◌else◌,
}
use dockvault.Detector.ServiceTypes.{detect_service_type, credential_env_keys}

abbrev pub is_one_of : List Text → Text → Bool
is_one_of keys key = any (λ k. k =t key) keys

unfoldable pub generic_secret_markers : List Text
generic_secret_markers = codes "PASSWORD" ∷ codes "TOKEN" ∷ codes "SECRET" ∷ codes "API_KEY" ∷ []

unfoldable pub looks_like_secret : Text → Bool
unfolding generic_secret_markers
looks_like_secret key = any (λ marker. contains (to_upper key) marker) generic_secret_markers

unfoldable pub copy_known : Option Text → Text → Dict → Dict
copy_known none key creds = creds
copy_known (some v) key creds = assign key v creds

-- The loop over the keys of the service.
unfoldable pub known_credentials : List Text → Dict → Dict → Dict
unfolding copy_known
known_credentials [] env creds = creds
known_credentials (key ∷ keys) env creds =
    known_credentials keys env (copy_known (lookup key env) key creds)

-- The loop over the environment: a known key was captured already.
unfoldable pub secret_credentials : List Text → Dict → Dict → Dict
unfolding looks_like_secret
secret_credentials known [] creds = creds
secret_credentials known ((key, v) ∷ env) creds = secret_credentials known env (
    if is_one_of known key
    then creds
    else if looks_like_secret key
    then assign key v creds
    else creds)

unfoldable pub extract_credentials : Text → Dict → Dict
unfolding known_credentials secret_credentials
extract_credentials image env =
    let known = credential_env_keys (detect_service_type image) in
    secret_credentials known env (known_credentials known env [])
