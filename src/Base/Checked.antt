-- ===== src/Base/Checked.antt =====
-- `if err != nil { return nil, err }` between steps that call no server: do blocks of `Result`.
use mathlib.Core.Path.{◌≡◌, refl}
use mathlib.Core.Bool.{true}
use openshift_karpenter_oper.Base.Effects.{Result, ok, err, is_ok}

module _ {ℓ κ} {A : Type ℓ} {B : Type κ} where
  infixl 5 ◌>>=◌
  abbrev pub ◌>>=◌ : Result A → (A → Result B) → Result B
  ok a >>= f = f a
  err e >>= f = err e

  -- Steps that all end well: what the first gave, and the rest.
  pub bind-eq-ok :
      (r : Result A) (f : A → Result B) {b : B}
      → (r >>= f) ≡ ok b
      → (a : A) × (r ≡ ok a) × (f a ≡ ok b)
  bind-eq-ok (ok a) f h = (a, refl, h)
  bind-eq-ok (err e) f h = cc

  -- The same, with the rest of a proof that follows.
  pub bind-elim {μ} :
      {P : Type μ} (r : Result A) (f : A → Result B) {b : B}
      → (r >>= f) ≡ ok b
      → ((a : A) → r ≡ ok a → f a ≡ ok b → P)
      → P
  bind-elim (ok a) f h k = k a refl h
  bind-elim (err e) f h k = absurd (cc)

  pub bind-is_ok :
      (r : Result A) (f : A → Result B)
      → is_ok r ≡ true
      → ((a : A) → is_ok (f a) ≡ true)
      → is_ok (r >>= f) ≡ true
  bind-is_ok (ok a) f h k = k a
  bind-is_ok (err e) f h k = absurd (cc)
