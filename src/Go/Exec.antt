-- ===== src/Go/Exec.antt =====
-- Calls that read and change the world `W` outside the program: other nodes, files, counters. The
-- world comes back beside an error and a panic too.
use covenant_signer.Prelude.{◌≡◌, refl}
use covenant_signer.Go.Outcome.{
  GoError, Reply, or_fail, or_err, map_error, Outcome, ok, err, panicked,
}

abbrev pub Exec {ℓ κ} : Type ℓ → Type κ → Type (ℓ ⊔ κ)
Exec W A = W → Outcome A × W

module _ {ℓ κ} {W : Type ℓ} {A : Type κ} where
  -- A step that leaves the world alone.
  abbrev pub lift : Outcome A → Exec W A
  lift r w = (r, w)

module _ {ℓ κ μ} {W : Type ℓ} {A : Type κ} {B : Type μ} where
  abbrev pub continue : Outcome A → (A → Exec W B) → Exec W B
  continue (ok a) f w = f a w
  continue (err e) f w = (err e, w)
  continue (panicked m) f w = (panicked m, w)

  infixl 5 ◌>>=◌
  abbrev pub ◌>>=◌ : Exec W A → (A → Exec W B) → Exec W B
  ◌>>=◌ m f w = let (r, w') = m w in continue r f w'

  -- A chain that returns a value did so in each of its steps.
  pub continue-eq-ok :
      (r : Outcome A) (f : A → Exec W B) (w : W) {b : B} {w' : W}
      → continue r f w ≡ (ok b, w')
      → (a : A) × (r ≡ ok a) × (f a w ≡ (ok b, w'))
  continue-eq-ok (ok a) f w h = (a, refl, h)
  continue-eq-ok (err e) f w h = cc
  continue-eq-ok (panicked m) f w h = cc

module _ {ℓ κ μ} {W : Type ℓ} {A : Type κ} {B : Type μ} where
  infixl 5 ◌>>◌
  abbrev pub ◌>>◌ : Exec W A → Exec W B → Exec W B
  m >> k = m >>= λ _. k

-- The chain ends as its step did, with an error or a panic.
abbrev pub Fails : {A B : Type 0} → Outcome A → Outcome B → Type 0
Fails (ok a) r = ⊥
Fails (err e) r = r ≡ err e
Fails (panicked t) r = r ≡ panicked t

continue_rule {ℓ κ} :
    {W : Type ℓ} {A B : Type 0} (P : Outcome B × W → Type κ) (r : Outcome A) (f : A → Exec W B)
    (w : W)
    → ((r' : Outcome B) → Fails r r' → P (r', w))
    → ((a : A) → r ≡ ok a → P (f a w))
    → P (continue r f w)
continue_rule P (ok a) f w on_fail on_ok = on_ok a refl
continue_rule P (err e) f w on_fail on_ok = on_fail (err e) refl
continue_rule P (panicked t) f w on_fail on_ok = on_fail (panicked t) refl

-- To show `P` of a chain's result, show it for a first step that fails, and for each value that the
-- first step returns.
pub bind_rule {ℓ κ} :
    {W : Type ℓ} {A B : Type 0} (P : Outcome B × W → Type κ) (m : Exec W A) (f : A → Exec W B)
    (w : W)
    → ((r : Outcome B) → Fails (m w).0 r → P (r, (m w).1))
    → ((a : A) → (m w).0 ≡ ok a → P (f a (m w).1))
    → P ((m >>= f) w)
bind_rule P m f w on_fail on_ok = continue_rule P (m w).0 f (m w).1 on_fail on_ok

pub Fails-ne-ok : {A B : Type 0} (r : Outcome A) (b : B) → Fails r (ok b) → ⊥
Fails-ne-ok (ok a) b h = h
Fails-ne-ok (err e) b h = cc
Fails-ne-ok (panicked t) b h = cc

-- A call of another package that reads or changes the world.
abbrev pub Call : Type 0 → Type 0 → Type 0
Call W A = W → Reply A × W

module _ {W : Type 0} {A : Type 0} where
  -- `if err != nil { return nil, f(err) }` after such a call
  abbrev pub call_or : (GoError → GoError) → Call W A → Exec W A
  call_or f m w = let (r, w') = m w in (or_fail f r, w')

  -- `if err != nil { return nil, err }`
  abbrev pub call : Call W A → Exec W A
  call m w = let (r, w') = m w in (or_err r, w')

  -- The same after a call within the program.
  abbrev pub exec_or : (GoError → GoError) → Exec W A → Exec W A
  exec_or f m w = let (r, w') = m w in (map_error f r, w')
