-- ===== src/Docker/Redact.antt =====
-- What `RedactArgs` hides of a command line before it stands in an error message.
use dockvault.Common.{
  ℕ, ◌≡◌, ◌≢◌, inl, inr, refl, ap, Bool, true, false, List, [], ◌∷◌, ◌++◌, All, arith, Text, codes,
  ◌=t◌, =t_iff, cut, ◌==◌, Bool-cases, some, map,
}
use dockvault.Docker.{
  redact_args, redact_from, mask, mask_after, plain, env_value, env_args, exec_args,
}

abbrev ends_in_star : Text → Bool
ends_in_star [] = false
ends_in_star (c ∷ []) = c == b'*'
ends_in_star (c ∷ d ∷ s) = ends_in_star (d ∷ s)

ends_in_star-append : (k : Text) → ends_in_star (k ++ codes "=***") ≡ true
ends_in_star-append [] = refl
ends_in_star-append (c ∷ []) = refl
ends_in_star-append (c ∷ d ∷ k) = ends_in_star-append (d ∷ k)

not_flag : (s t : Text) → ends_in_star s ≡ true → ends_in_star t ≡ false → (s =t t) ≡ false
not_flag s t h k = elim (Bool-cases (s =t t)) [
  | inl e ↦ cc (h, k, ap ends_in_star ((=t_iff s t).0 e))
  | inr e ↦ e
]

-- A masked value is not taken for a flag.
mask_after_star : (s : Text) → ends_in_star s ≡ true → mask_after s ≡ plain
unfolding mask_after
mask_after_star s h =
    rw
      (
        not_flag s (codes "-e") h refl,
        not_flag s (codes "--env") h refl,
        not_flag s (codes "--password") h refl,
      )
      refl

-- A text without the byte.
abbrev pub Lacks : ℕ → Text → Type 0
Lacks b = All (λ c. c ≢ b)

pub cut-append : (b : ℕ) (k v : Text) → Lacks b k → cut (k ++ (b ∷ v)) b ≡ some (k, v)
unfolding cut
cut-append b [] v h = ground arith
cut-append b (c ∷ k) v (hc, hk) = ground (arith, cut-append b k v hk)

dash_e : mask_after (codes "-e") ≡ env_value
unfolding mask_after ◌=t◌
dash_e = refl

mask-env_value : (k v : Text) → Lacks b'=' k → mask env_value (k ++ (b'=' ∷ v)) ≡ k ++ codes "=***"
unfolding mask
mask-env_value k v h = rw (cut-append b'=' k v h, mask) refl

abbrev key_of : Text × Text → Text
key_of (k, v) = k

-- The environment of a command with its values hidden.
abbrev pub hidden : List (Text × Text) → List (Text × Text)
hidden env = map (λ kv. (key_of kv, codes "***")) env

abbrev pub HasPlainKey : Text × Text → Type 0
HasPlainKey (k, v) = Lacks b'=' k

redact_from-env_args :
    (env : List (Text × Text)) (rest : List Text)
    → All HasPlainKey env
    → redact_from plain (env_args env ++ rest) ≡ env_args (hidden env) ++ redact_from plain rest
unfolding env_args redact_from
redact_from-env_args [] rest h = refl
redact_from-env_args ((k, v) ∷ env) rest (hk, h) =
    let plain_text : (m : Text) → mask plain m ≡ m = λ m. unfold mask in refl in
    rw
      (
        plain_text,
        dash_e,
        mask-env_value k v hk,
        mask_after_star (k ++ codes "=***") (ends_in_star-append k),
        redact_from-env_args env rest h,
      )
      refl

hidden-HasPlainKey : (env : List (Text × Text)) → All HasPlainKey env → All HasPlainKey (hidden env)
hidden-HasPlainKey [] h = h
hidden-HasPlainKey ((k, v) ∷ env) (hk, h) = (hk, hidden-HasPlainKey env h)

hidden-hidden : (env : List (Text × Text)) → hidden (hidden env) ≡ hidden env
hidden-hidden [] = refl
hidden-hidden ((k, v) ∷ env) = ap (◌∷◌ (k, codes "***")) (hidden-hidden env)

same_redaction :
    (env : List (Text × Text)) (rest : List Text)
    → All HasPlainKey env
    → redact_from plain (env_args env ++ rest) ≡ redact_from plain (env_args (hidden env) ++ rest)
same_redaction env rest h =
    rw
      (
        redact_from-env_args env rest h,
        redact_from-env_args (hidden env) rest (hidden-HasPlainKey env h),
        hidden-hidden env,
      )
      refl

-- A command line of `docker exec` in which no key of the environment holds `=`: what stands in an
-- error message does not depend on the values, only on the keys, the container and the command.
pub redact_args-exec_args :
    (container : Text) (cmd : List Text) (env : List (Text × Text)) (has_stdin : Bool)
    → All HasPlainKey env
    → redact_args (exec_args container cmd env has_stdin)
      ≡ redact_args (exec_args container cmd (hidden env) has_stdin)
unfolding redact_args exec_args redact_from mask mask_after ◌=t◌
redact_args-exec_args container cmd env true h =
    ap (λ r. codes "exec" ∷ codes "-i" ∷ r) (same_redaction env (container ∷ cmd) h)
redact_args-exec_args container cmd env false h =
    ap (λ r. codes "exec" ∷ r) (same_redaction env (container ∷ cmd) h)
