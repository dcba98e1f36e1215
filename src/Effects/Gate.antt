-- ===== src/Effects/Gate.antt =====
-- Computations that ask the operator first.
use mathlib.Core.Path.{subst}
use dockvault.Common.{◌⊎◌, inl, Bool, true, false, List, ◌∷◌, inr, ◌≡◌, refl, Text, if◌then◌else◌}
use dockvault.Effects.{
  Error, continue, Call, World, Platform, Result, ok, err, panic, M, ◌>>=◌, attempt, finally,
  read_line,
}
use dockvault.Effects.Keeps.{Grows-mono, more, Grows, Grows-trans, Only}

-- Any request.
abbrev pub Anything : Call → Type 0
Anything c = Unit {0}

-- The requests of a run satisfy `P`, but for those after the operator typed a line that `accepts`.
pub data Gated (P : Call → Type 0) (accepts : Text → Bool) (p : Platform) (old : List Call)
    : List Call → Type 0 where
  closed : {log : List Call} → Grows P old log → Gated P accepts p old log
  opened :
      {log : List Call} (before : List Call) (line : Text)
      → Grows P old before
      → p.answer before read_line ≡ inr line
      → accepts line ≡ true
      → Grows Anything (read_line ∷ before) log
      → Gated P accepts p old log

-- The platform stays the same, and the log is gated, in any world.
pub record Gate {ℓ} {A : Type ℓ} (P : Call → Type 0) (accepts : Text → Bool) (m : M A)
    : Type ℓ where
  pub gated : (w : World) → Gated P accepts w.platform w.log (m w).1.log

Anything-Grows :
    {P : Call → Type 0} {old log : List Call} → Grows P old log → Grows Anything old log
Anything-Grows g = Grows-mono (λ c p. tt) g

module _ {P : Call → Type 0} {accepts : Text → Bool} where
  pub Only-Gate {ℓ} : {A : Type ℓ} {m : M A} → Only P m → Gate P accepts m
  Only-Gate h = record { gated = λ w. closed (h.grows w) }

  -- What comes before a gated log, and after it.
  before-Gated :
      {p : Platform} {old mid log : List Call}
      → Grows P old mid
      → Gated P accepts p mid log
      → Gated P accepts p old log
  before-Gated g (closed h) = closed (Grows-trans g h)
  before-Gated g (opened before line h e a k) = opened before line (Grows-trans g h) e a k

  Gated-after :
      {p : Platform} {old mid log : List Call}
      → Gated P accepts p old mid
      → Grows P mid log
      → Gated P accepts p old log
  Gated-after (closed h) g = closed (Grows-trans h g)
  Gated-after (opened before line h e a k) g =
      opened before line h e a (Grows-trans k (Anything-Grows g))

  continue-Gated {ℓ κ} :
      {A : Type ℓ} {B : Type κ} (w : World) (r : Result A × World) (f : A → M B)
      → Grows P w.log r.1.log
      → r.1.platform ≡ w.platform
      → ((a : A) → Gate P accepts (f a))
      → Gated P accepts w.platform w.log (continue r f).1.log
  continue-Gated w (ok a, w') f g e h =
      before-Gated g (subst (λ p. Gated P accepts p w'.log (f a w').1.log) e ((h a).gated w'))
  continue-Gated w (err e, w') f g e' h = closed g
  continue-Gated w (panic t, w') f g e' h = closed g

  pub bind-Gate {ℓ κ} :
      {A : Type ℓ} {B : Type κ} {m : M A} {f : A → M B}
      → Only P m
      → ((a : A) → Gate P accepts (f a))
      → Gate P accepts (m >>= f)
  unfolding ◌>>=◌
  bind-Gate {m = m} {f = f} h k = record {
    gated = λ w. continue-Gated w (m w) f (h.grows w) (h.stays w) k;
  }

  pub finally-Gate {ℓ κ} :
      {A : Type ℓ} {B : Type κ} {m : M A} {c : M B}
      → Gate P accepts m
      → Only P c
      → Gate P accepts (finally m c)
  unfolding finally
  finally-Gate {m = m} h k = record { gated = λ w. Gated-after (h.gated w) (k.grows (m w).1) }

  pub if-Gate {ℓ} :
      {A : Type ℓ} (b : Bool) {m n : M A}
      → Gate P accepts m
      → Gate P accepts n
      → Gate P accepts (if b then m else n)
  if-Gate true h k = h
  if-Gate false h k = k

-- A question that reads one line, and answers whether the line is accepted.
pub record Asks (P : Call → Type 0) (accepts : Text → Bool) (m : M Bool) : Type 0 where
  pub before : World → List Call
  pub grows : (w : World) → Grows P w.log (before w)
  pub answers :
      (w : World)
      → ((e : Error) × (m w ≡ (err e, record w { log = read_line ∷ before w })))
        ⊎ ((line : Text) × (w.platform.answer (before w) read_line ≡ inr line)
            × (m w ≡ (ok (accepts line), record w { log = read_line ∷ before w })))

module _ {P : Call → Type 0} {accepts : Text → Bool} {m : M Bool} (asks : Asks P accepts m)
    (read : P read_line) where
  asked : (w : World) → Grows P w.log (read_line ∷ asks.before w)
  asked w = more read_line read (asks.grows w)

  answered {ℓ} :
      {A : Type ℓ} (w : World) (line : Text) (f : Bool → M A)
      → w.platform.answer (asks.before w) read_line ≡ inr line
      → Only Anything (f true)
      → Only P (f false)
      → (b : Bool) → accepts line ≡ b
      → Gated P accepts w.platform w.log (f b (record w { log = read_line ∷ asks.before w })).1.log
  answered w line f e agreed refused true h =
      opened (asks.before w) line (asks.grows w) e h (agreed.grows _)
  answered w line f e agreed refused false h = closed (Grows-trans (asked w) (refused.grows _))

  -- What is done for a line that is accepted may be anything.
  pub ask-Gate {ℓ} :
      {A : Type ℓ} (f : Bool → M A)
      → Only Anything (f true)
      → Only P (f false)
      → Gate P accepts (m >>= f)
  unfolding ◌>>=◌
  ask-Gate f agreed refused = record {
    gated = λ w. elim (asks.answers w) [
      | inl (e, h) ↦ rw h (closed (asked w))
      | inr (line, e, h) ↦ rw h (answered w line f e agreed refused (accepts line) refl)
    ];
  }

  pub attempt-Gate {ℓ} :
      {A : Type ℓ} (f : Error ⊎ Bool → M A)
      → ((e : Error) → Only P (f (inl e)))
      → Only Anything (f (inr true))
      → Only P (f (inr false))
      → Gate P accepts (attempt m >>= f)
  unfolding ◌>>=◌ attempt
  attempt-Gate f unread agreed refused = record {
    gated = λ w. elim (asks.answers w) [
      | inl (e, h) ↦ rw h (closed (Grows-trans (asked w) ((unread e).grows _)))
      | inr (line, e, h) ↦
          rw h (answered w line (λ b. f (inr b)) e agreed refused (accepts line) refl)
    ];
  }
