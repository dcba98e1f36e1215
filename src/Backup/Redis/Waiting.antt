-- ===== src/Backup/Redis/Waiting.antt =====
-- The wait for a background save.
use dockvault.Common.{
  Dict, ℕ, zero, suc, ◌≡◌, refl, false, inl, inr, Text, ◌=t◌, Bool-cases, if◌then◌else◌,
}
use mathlib.Core.Path.{subst}
use mathlib.Core.List.{◌∷◌}
use dockvault.Effects.{
  Result, ok, err, panic, World, M, continue, monad, Answer-cases, attempted, wait, return,
}
use dockvault.Backup.Clients.{DockerClient}
use dockvault.Backup.Redis.{last_save, advanced, wait_for_save}

-- One poll that saw a time other than the one before, and after which nothing else was asked.
abbrev pub SawSave : DockerClient → Text → Dict → Text → World → Type 0
SawSave dc container env before w' =
    (w1 : World) × (after : Text) × (last_save dc container env w1 ≡ (ok after, w'))
    × ((after =t before) ≡ false)

module _ (dc : DockerClient) (container : Text) (env : Dict) (before : Text) where
  -- What one poll does, given that the polls behind it satisfy the claim.
  one_poll :
      (w' : World) (rest : M (Unit {0})) (r : Result Text × World)
      → ((v : World) → rest v ≡ (ok tt, w') → SawSave dc container env before w')
      → ((after : Text) (w1 : World)
          → r ≡ (ok after, w1)
          → (v : World) × (last_save dc container env v ≡ (ok after, w1)))
      → continue (attempted r.0, r.1) (λ after. if advanced before after then return tt else rest)
        ≡ (ok tt, w')
      → SawSave dc container env before w'
  unfolding monad advanced
  one_poll w' rest (ok after, w1) ih poll h =
      let (v, p) = poll after w1 refl in
      elim (Bool-cases (after =t before)) [
        | inl e ↦ ih w1 (rw e at h)
        | inr e ↦ (
          v,
          after,
          subst (λ u. last_save dc container env v ≡ (ok after, u)) (cc (rw e at h)) p,
          e,
        )
      ]
  one_poll w' rest (err e, w1) ih poll h = ih w1 h
  one_poll w' rest (panic t, w1) ih poll h = cc h

  -- The wait ends well only on a poll that saw `LASTSAVE` move, however many polls are left.
  pub wait_for_save-SawSave :
      (n : ℕ) (w w' : World)
      → wait_for_save dc container env before n w ≡ (ok tt, w')
      → SawSave dc container env before w'
  unfolding wait_for_save monad
  wait_for_save-SawSave zero w w' h = cc h
  wait_for_save-SawSave (suc n) w w' h = elim (Answer-cases (w.platform.answer w.log wait)) [
    | inl (e, p) ↦ cc (rw p at h)
    | inr (v, p) ↦
        let w1 : World = record w { log = wait ∷ w.log } in
        one_poll w' (wait_for_save dc container env before n) (last_save dc container env w1)
          (λ v k. wait_for_save-SawSave n v w' k) (λ after w2 q. (w1, q)) (rw p at h)
  ]
