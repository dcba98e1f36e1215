-- ===== src/Effects/Keeps.antt =====
-- Which requests a computation can make.
use dockvault.Common.{◌≡◌, refl, ◌∙◌, List, ◌∷◌, Bool, true, false, if◌then◌else◌, Text}
use dockvault.Effects.{
  Call, Reply, World, Result, ok, err, panic, Error, M, ◌>>=◌, return, throw, attempt, wrap, lift,
  wrap_around, finally, perform, ask, continue, unmarshal, platform, Platform, Content, bytes,
  document,
}

-- The second log is the first with requests that satisfy `P` in front.
pub data Grows (P : Call → Type 0) (old : List Call) : List Call → Type 0 where
  same : Grows P old old
  more : {log : List Call} (c : Call) → P c → Grows P old log → Grows P old (c ∷ log)

pub Grows-trans : {P : Call → Type 0} {a b c : List Call} → Grows P a b → Grows P b c → Grows P a c
Grows-trans g same = g
Grows-trans g (more c p h) = more c p (Grows-trans g h)

pub Grows-mono :
    {P Q : Call → Type 0} {a b : List Call} → ((c : Call) → P c → Q c) → Grows P a b → Grows Q a b
Grows-mono h same = same
Grows-mono h (more c p g) = more c (h c p) (Grows-mono h g)

-- Every request that `m` makes, in any world, satisfies `P`, and the platform stays as it is.
pub record Only {ℓ} {A : Type ℓ} (P : Call → Type 0) (m : M A) : Type ℓ where
  pub grows : (w : World) → Grows P w.log (m w).1.log
  pub stays : (w : World) → (m w).1.platform ≡ w.platform

pub Only-mono {ℓ} :
    {A : Type ℓ} {P Q : Call → Type 0} {m : M A} → ((c : Call) → P c → Q c) → Only P m → Only Q m
Only-mono h o = record { grows = λ w. Grows-mono h (o.grows w); stays = o.stays }

module _ {P : Call → Type 0} where
  continue-Grows {ℓ κ} :
      {A : Type ℓ} {B : Type κ} (w : World) (r : Result A × World) (f : A → M B)
      → Grows P w.log r.1.log
      → ((a : A) → Only P (f a))
      → Grows P w.log (continue r f).1.log
  continue-Grows w (ok a, w') f g h = Grows-trans g ((h a).grows w')
  continue-Grows w (err e, w') f g h = g
  continue-Grows w (panic t, w') f g h = g

  continue-stays {ℓ κ} :
      {A : Type ℓ} {B : Type κ} (w : World) (r : Result A × World) (f : A → M B)
      → r.1.platform ≡ w.platform
      → ((a : A) → Only P (f a))
      → (continue r f).1.platform ≡ w.platform
  continue-stays w (ok a, w') f g h = (h a).stays w' ∙ g
  continue-stays w (err e, w') f g h = g
  continue-stays w (panic t, w') f g h = g

  pub bind-Only {ℓ κ} :
      {A : Type ℓ} {B : Type κ} {m : M A} {f : A → M B}
      → Only P m
      → ((a : A) → Only P (f a))
      → Only P (m >>= f)
  unfolding ◌>>=◌
  bind-Only {m = m} {f = f} h k = record {
    grows = λ w. continue-Grows w (m w) f (h.grows w) k;
    stays = λ w. continue-stays w (m w) f (h.stays w) k;
  }

  pub return-Only {ℓ} : {A : Type ℓ} (a : A) → Only P (return a)
  unfolding return
  return-Only a = record { grows = λ w. same; stays = λ w. refl }

  pub throw-Only {ℓ} : {A : Type ℓ} (e : Error) → Only P (throw {A = A} e)
  unfolding throw
  throw-Only e = record { grows = λ w. same; stays = λ w. refl }

  pub lift-Only {ℓ} : {A : Type ℓ} (r : Result A) → Only P (lift r)
  unfolding lift
  lift-Only r = record { grows = λ w. same; stays = λ w. refl }

  pub attempt-Only {ℓ} : {A : Type ℓ} {m : M A} → Only P m → Only P (attempt m)
  unfolding attempt
  attempt-Only h = record { grows = λ w. h.grows w; stays = λ w. h.stays w }

  pub wrap-Only {ℓ} : {A : Type ℓ} (prefix : Text) {m : M A} → Only P m → Only P (wrap prefix m)
  unfolding wrap
  wrap-Only prefix h = record { grows = λ w. h.grows w; stays = λ w. h.stays w }

  pub wrap_around-Only {ℓ} :
      {A : Type ℓ} (prefix suffix : Text) {m : M A}
      → Only P m
      → Only P (wrap_around prefix suffix m)
  unfolding wrap_around
  wrap_around-Only prefix suffix h = record { grows = λ w. h.grows w; stays = λ w. h.stays w }

  pub finally-Only {ℓ κ} :
      {A : Type ℓ} {B : Type κ} {m : M A} {c : M B} → Only P m → Only P c → Only P (finally m c)
  unfolding finally
  finally-Only {m = m} h k = record {
    grows = λ w. Grows-trans (h.grows w) (k.grows (m w).1);
    stays = λ w. k.stays (m w).1 ∙ h.stays w;
  }

  pub perform-Only : (c : Call) → P c → Only P (perform c)
  unfolding perform
  perform-Only c p = record { grows = λ w. more c p same; stays = λ w. refl }

  pub ask-Only {ℓ} : {A : Type ℓ} (c : Call) (read : Reply c → Result A) → P c → Only P (ask c read)
  unfolding ask
  ask-Only c read p = record { grows = λ w. more c p same; stays = λ w. refl }

  pub unmarshal-Only : (c : Content) → Only P (unmarshal c)
  unfolding unmarshal
  unmarshal-Only (document j) = record { grows = λ w. same; stays = λ w. refl }
  unmarshal-Only (bytes t) = record { grows = λ w. same; stays = λ w. refl }

  pub platform-Only {ℓ} : {A : Type ℓ} (f : Platform → A) → Only P (platform f)
  unfolding platform
  platform-Only f = record { grows = λ w. same; stays = λ w. refl }

  pub if-Only {ℓ} :
      {A : Type ℓ} (b : Bool) {m n : M A} → Only P m → Only P n → Only P (if b then m else n)
  if-Only true h k = h
  if-Only false h k = k

pub ruleset only_rules = (
  bind-Only, return-Only, throw-Only, lift-Only, attempt-Only, wrap-Only, wrap_around-Only,
  finally-Only, perform-Only, ask-Only, if-Only, unmarshal-Only, platform-Only,
)
