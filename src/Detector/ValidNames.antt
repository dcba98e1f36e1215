-- ===== src/Detector/ValidNames.antt =====
-- The names that the detector gives to jobs pass the check of internal/utils/validators.go.
use mathlib.Core.List.{reverse, reverse-cons, reverse-append}
use dockvault.Common.{
  Dict, ◌≡◌, refl, ℕ, Bool, true, false, not, [], ◌∷◌, ◌++◌, ◌&&◌, Text, codes, null, all, arith,
  to_lower, trim, trim_left, trim_right, Bool-cases, inl, inr, ◌∙◌,
}
use dockvault.Effects.{ok}
use dockvault.Utils.{is_alnum, is_name_byte, matches_job_name, validate_job_name}
use dockvault.Detector.ServiceTypes.{ServiceType}
use dockvault.Detector.Naming.{
  is_underscore, collapse, sanitize_component, generate_job_name, host_dir_job_name,
}

module _ (p : ℕ → Bool) where
  all-append : (s t : Text) → all p (s ++ t) ≡ (all p s && all p t)
  all-append [] t = refl
  all-append (c ∷ s) t = ground (arith, all-append s t)

  all-reverse : (s : Text) → all p (reverse s) ≡ all p s
  all-reverse [] = refl
  all-reverse (c ∷ s) =
      rw (reverse-cons c s, all-append (reverse s) (c ∷ []), all-reverse s) (ground arith)

  all-trim_left : (q : ℕ → Bool) (s : Text) → all p s ≡ true → all p (trim_left q s) ≡ true
  unfolding trim_left
  all-trim_left q [] h = refl
  all-trim_left q (c ∷ s) h = ground (arith, all-trim_left q s)

  all-trim : (q : ℕ → Bool) (s : Text) → all p s ≡ true → all p (trim q s) ≡ true
  unfolding trim trim_right
  all-trim q s h =
      all-reverse (trim_left q (reverse (trim_left q s)))
      ∙ all-trim_left q _ (all-reverse (trim_left q s) ∙ all-trim_left q s h)

-- The first byte of a text, if any, fails the test.
abbrev starts_without : (ℕ → Bool) → Text → Bool
starts_without q [] = true
starts_without q (c ∷ s) = not (q c)

module _ (q : ℕ → Bool) where
  trim_left-starts : (s : Text) → starts_without q (trim_left q s) ≡ true
  unfolding trim_left
  trim_left-starts [] = refl
  trim_left-starts (c ∷ s) = elim (Bool-cases (q c)) [
    | inl e ↦ rw e (trim_left-starts s)
    | inr e ↦ rw (e, e) refl
  ]

  trim_left-snoc :
      (s : Text) (c : ℕ) → q c ≡ false → trim_left q (s ++ (c ∷ [])) ≡ trim_left q s ++ (c ∷ [])
  unfolding trim_left
  trim_left-snoc [] c h = rw h refl
  trim_left-snoc (d ∷ s) c h = elim (Bool-cases (q d)) [
    | inl e ↦ rw e (trim_left-snoc s c h)
    | inr e ↦ rw e refl
  ]

  -- Bytes dropped on the right leave the first byte where it is.
  trim_right-starts :
      (s : Text) → starts_without q s ≡ true → starts_without q (trim_right q s) ≡ true
  unfolding trim_right trim_left
  trim_right-starts [] h = refl
  trim_right-starts (c ∷ s) h = elim (Bool-cases (q c)) [
    | inl e ↦ cc (rw e at h)
    | inr e ↦
        rw
          (
            reverse-cons c s,
            trim_left-snoc (reverse s) c e,
            reverse-append (trim_left q (reverse s)) (c ∷ []),
            e,
          )
          refl
  ]

collapse-all : (in_run : Bool) (s : Text) → all is_name_byte (collapse in_run s) ≡ true
unfolding collapse
collapse-all in_run [] = refl
collapse-all in_run (c ∷ s) = ground (arith, collapse-all (not (is_alnum c)) s)

-- A text of name bytes that does not start with an underscore, if it is not empty.
good_name :
    (s : Text)
    → null s ≡ false
    → all is_name_byte s ≡ true
    → starts_without is_underscore s ≡ true
    → matches_job_name s ≡ true
unfolding matches_job_name
good_name [] n h k = cc n
good_name (c ∷ s) n h k = ground arith

valid : (s : Text) → matches_job_name s ≡ true → validate_job_name s ≡ ok tt
unfolding validate_job_name matches_job_name
valid [] h = cc h
valid (c ∷ s) h = rw h refl

pub sanitize_component-valid : (s : Text) → validate_job_name (sanitize_component s) ≡ ok tt
unfolding sanitize_component trim
sanitize_component-valid s =
    let raw : Text = collapse false (to_lower s) in
    let out : Text = trim is_underscore raw in
    elim (Bool-cases (null out)) [
      | inl e ↦ rw e (valid (codes "unnamed") (unfold matches_job_name in refl))
      | inr e ↦ rw e (
          valid out (
            good_name out e
              (all-trim is_name_byte is_underscore raw (collapse-all false (to_lower s)))
              (trim_right-starts is_underscore (trim_left is_underscore raw)
                (trim_left-starts is_underscore raw))))
    ]

-- Every name that the detector generates for a volume, whatever the volume, the service and the
-- credentials are, and every name that it generates for a host directory, is a valid job name.
pub generated_names_valid :
    (volume : Text) (service : ServiceType) (creds : Dict) (path : Text)
    → (validate_job_name (generate_job_name volume service creds) ≡ ok tt)
      × (validate_job_name (host_dir_job_name path) ≡ ok tt)
unfolding generate_job_name host_dir_job_name
generated_names_valid volume service creds path =
    (sanitize_component-valid _, sanitize_component-valid _)
