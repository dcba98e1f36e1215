-- ===== src/Workspace/EnvRoundTrip.antt =====
-- What is written to a job's `.env` is read back.
use dockvault.Common.{
  DistinctKeys, has_key, Dict, assign, ◌≡◌, refl, ℕ, false, [], ◌∷◌, ◌++◌, ◌||◌, Text, codes, null,
  All, ◌=t◌, =t_iff, has_prefix, trim_space, trim, trim_right, trim_left, is_space, split,
  split_head, cut, arith, Bool-cases, inl, inr, append_assoc, append-nil, sym,
}
use dockvault.Docker.Redact.{Lacks, cut-append}
use dockvault.Workspace.Env.{env_line, env_text, take_line, read_lines, parse_env}

-- A line of `.env` that stands for its entry: no line break, no `=` in the key, no space that trimming
-- would take off, and no comment sign in front.
pub record IsClean (kv : Text × Text) : Type 0 where
  pub no_break : Lacks 10 (env_line kv)
  pub plain_key : Lacks b'=' kv.0
  pub trimmed : trim_space (env_line kv) ≡ env_line kv
  pub no_comment : has_prefix (env_line kv) (codes "#") ≡ false

split_head-line :
    (sep : ℕ) (s t : Text)
    → Lacks sep s
    → split_head sep (s ++ (sep ∷ t)) ≡ (s, (split_head sep t).0 ∷ (split_head sep t).1)
unfolding split_head
split_head-line sep [] t h = ground arith
split_head-line sep (c ∷ s) t (hc, h) = rw (split_head-line sep s t h) (ground arith)

split-line : (sep : ℕ) (s t : Text) → Lacks sep s → split (s ++ (sep ∷ t)) sep ≡ s ∷ split t sep
unfolding split
split-line sep s t h = rw (split_head-line sep s t h) refl

assign-new : (k v : Text) (m : Dict) → has_key k m ≡ false → assign k v m ≡ m ++ ((k, v) ∷ [])
unfolding assign
assign-new k v [] h = refl
assign-new k v ((j, u) ∷ m) h = elim (Bool-cases (j =t k)) [
  | inl e ↦ cc (rw e at h)
  | inr e ↦ rw (e, assign-new k v m (rw e at h)) refl
]

null_line : (k v : Text) → null (k ++ (b'=' ∷ v)) ≡ false
null_line [] v = refl
null_line (c ∷ k) v = refl

take_line-clean :
    (env : Dict) (k v : Text)
    → IsClean (k, v)
    → has_key k env ≡ false
    → take_line env (env_line (k, v)) ≡ env ++ ((k, v) ∷ [])
unfolding take_line
take_line-clean env k v h new =
    rw
      (
        h.trimmed,
        null_line k v,
        h.no_comment,
        cut-append b'=' k v h.plain_key,
        assign-new k v env new,
      )
      refl

has_key-append : (k : Text) (m n : Dict) → has_key k (m ++ n) ≡ (has_key k m || has_key k n)
has_key-append k [] n = refl
has_key-append k (kv ∷ m) n = ground (arith, has_key-append k m n)

-- No key of the first map is one of the second.
abbrev Fresh : Dict → Dict → Type 0
Fresh env m = All (λ kv. has_key kv.0 env ≡ false) m

Fresh-snoc :
    (env m : Dict) (k v : Text) → Fresh env m → has_key k m ≡ false → Fresh (env ++ ((k, v) ∷ [])) m
Fresh-snoc env [] k v h new = tt
Fresh-snoc env ((j, u) ∷ m) k v (hj, h) new = (
  ground (arith, has_key-append j env ((k, v) ∷ []), =t_iff j k, =t_iff k j),
  Fresh-snoc env m k v h (ground arith),
)

read_lines-env_text :
    (env m : Dict)
    → All IsClean m
    → DistinctKeys m
    → Fresh env m
    → read_lines env (split (env_text m) 10) ≡ env ++ m
unfolding env_text read_lines
read_lines-env_text env [] c d f =
    unfold split split_head take_line trim_space trim trim_right trim_left is_space has_prefix
      cut in
    sym (append-nil env)
read_lines-env_text env ((k, v) ∷ m) (hc, c) (hd, d) (hf, f) =
    rw
      (
        split-line 10 (env_line (k, v)) (env_text m) hc.no_break,
        read_lines,
        take_line-clean env k v hc hf,
        read_lines-env_text (env ++ ((k, v) ∷ [])) m c d (Fresh-snoc env m k v f hd),
      )
      (append_assoc env ((k, v) ∷ []) m)

-- A map whose keys are distinct and whose entries are clean is read back from the text of its entries,
-- in the order in which they were written.
pub parse_env-env_text : (m : Dict) → All IsClean m → DistinctKeys m → parse_env (env_text m) ≡ m
unfolding parse_env
parse_env-env_text m c d = read_lines-env_text [] m c d (fresh m)
  where
    fresh : (m : Dict) → Fresh [] m
    fresh [] = tt
    fresh (kv ∷ m) = (refl, fresh m)
