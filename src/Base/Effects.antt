-- ===== src/Base/Effects.antt =====
-- Errors as values, and code that calls a server. A call may change the world and its answer is any
-- that the world gives, so what others do between two calls is included. A run leaves the list of
-- its calls with their answers.
use Prim.Native.String.{String}
use native.Mathlib.Omega.{arith}
use openshift_karpenter_oper.Base.Lists.{any, any-append, All, All-append}
use mathlib.Core.Path.{◌≡◌, refl}
use mathlib.Core.Logic.{◌⊎◌, inl, inr}
use mathlib.Core.Bool.{Bool, true, false}
use mathlib.Core.List.{List, [], ◌∷◌, ◌++◌, append_assoc}

-- The answers of the API server that the operator tells apart.
pub data ApiError : Type 0 where
  not_found no_match : ApiError
  other : String → ApiError

-- `wrap` is `fmt.Errorf("...: %w", err)`, the two constants are the sentinels of `pkg/hypershift`.
pub data Err : Type 0 where
  api : ApiError → Err
  hosted_control_plane_not_found user_data_secret_not_found : Err
  message : String → Err
  wrap : String → Err → Err

-- `apierrors.IsNotFound`, which looks through wrapped errors.
abbrev pub is_not_found : Err → Bool
is_not_found (api not_found) = true
is_not_found (wrap _ e) = is_not_found e
is_not_found _ = false

-- `meta.IsNoMatchError`
abbrev pub is_no_match : Err → Bool
is_no_match (api no_match) = true
is_no_match (wrap _ e) = is_no_match e
is_no_match _ = false

-- `errors.Is(err, ErrHostedControlPlaneNotFound)`
abbrev pub is_hcp_not_found : Err → Bool
is_hcp_not_found hosted_control_plane_not_found = true
is_hcp_not_found (wrap _ e) = is_hcp_not_found e
is_hcp_not_found _ = false

-- `errors.Is(err, ErrUserDataSecretNotFound)`
abbrev pub is_user_data_not_found : Err → Bool
is_user_data_not_found user_data_secret_not_found = true
is_user_data_not_found (wrap _ e) = is_user_data_not_found e
is_user_data_not_found _ = false

pub data Result {ℓ} (A : Type ℓ) : Type ℓ where
  ok : A → Result A
  err : Err → Result A

abbrev pub is_ok {ℓ} : {A : Type ℓ} → Result A → Bool
is_ok (ok _) = true
is_ok (err _) = false

abbrev pub wrapped {ℓ} : {A : Type ℓ} → String → Result A → Result A
wrapped text (ok a) = ok a
wrapped text (err e) = err (wrap text e)

pub ok-injective {ℓ} : {A : Type ℓ} (a b : A) → ◌≡◌ {A = Result A} (ok a) (ok b) → a ≡ b
ok-injective a b h = cc

pub wrapped-eq-ok {ℓ} :
    {A : Type ℓ} (text : String) (r : Result A) {a : A} → wrapped text r ≡ ok a → r ≡ ok a
wrapped-eq-ok text (ok a) h = h
wrapped-eq-ok text (err e) h = cc

-- Runs over a world `W` that leave calls of type `E`.
abbrev pub M : Type 0 → Type 0 → Type 0 → Type 0
M W E A = W → Result A × W × List E

module _ {W E : Type 0} where
  abbrev pub pure : {A : Type 0} → A → M W E A
  pure a w = (ok a, w, [])

  abbrev pub fail : {A : Type 0} → Err → M W E A
  fail e w = (err e, w, [])

  abbrev pub lift : {A : Type 0} → Result A → M W E A
  lift r w = (r, w, [])

  -- One call, and its record.
  abbrev pub call : {A : Type 0} → (W → Result A × W) → (Result A → E) → M W E A
  call op record_of w = let r = op w in (r.0, r.1, record_of r.0 ∷ [])

  abbrev pub and_then :
      {A B : Type 0} → Result A × W × List E → (A → M W E B) → Result B × W × List E
  and_then (ok a, w, t) f = let s = f a w in (s.0, s.1, t ++ s.2)
  and_then (err e, w, t) f = (err e, w, t)

  infixl 5 ◌>>=◌ ◌>>◌
  abbrev pub ◌>>=◌ : {A B : Type 0} → M W E A → (A → M W E B) → M W E B
  ◌>>=◌ m f w = and_then (m w) f

  abbrev pub ◌>>◌ : {A B : Type 0} → M W E A → M W E B → M W E B
  m >> k = m >>= λ _. k

  -- `err` as a value, where the code inspects it.
  abbrev pub attempt : {A : Type 0} → M W E A → M W E (Result A)
  attempt m w = let r = m w in (ok r.0, r.1, r.2)

  -- `return fmt.Errorf("text: %w", err)` on an error.
  abbrev pub context : {A : Type 0} → String → M W E A → M W E A
  context text m w = let r = m w in (wrapped text r.0, r.1, r.2)

  -- A run that ends well, taken apart: what its first part gave, and the calls of both.
  pub and_then-eq-ok :
      {A B : Type 0} (r : Result A × W × List E) (f : A → M W E B) {b : B}
      → (and_then r f).0 ≡ ok b
      → (a : A) × (r.0 ≡ ok a) × ((f a r.1).0 ≡ ok b) × ((and_then r f).2 ≡ r.2 ++ (f a r.1).2)
  and_then-eq-ok (ok a, w, t) f h = (a, refl, h, refl)
  and_then-eq-ok (err e, w, t) f h = cc

  -- What a run does, by its first part.
  pub and_then-ok :
      {A B : Type 0} (r : Result A × W × List E) (f : A → M W E B) {a : A}
      → r.0 ≡ ok a
      → and_then r f ≡ (let s = f a r.1 in (s.0, s.1, r.2 ++ s.2))
  and_then-ok r f h = rw (h, and_then)

  pub and_then-err :
      {A B : Type 0} (r : Result A × W × List E) (f : A → M W E B) {e : Err}
      → r.0 ≡ err e
      → and_then r f ≡ (err e, r.1, r.2)
  and_then-err r f h = rw (h, and_then)

  -- Calls in front of a run stand in front of what follows it.
  and_then-shift :
      {A B : Type 0} (t : List E) (s : Result A × W × List E) (f : A → M W E B)
      → and_then (s.0, s.1, t ++ s.2) f ≡ (let q = and_then s f in (q.0, q.1, t ++ q.2))
  and_then-shift t (ok a, w, u) f = simp append_assoc
  and_then-shift t (err e, w, u) f = refl

  pub and_then_assoc :
      {A B C : Type 0} (r : Result A × W × List E) (f : A → M W E B) (g : B → M W E C)
      → and_then (and_then r f) g ≡ and_then r (λ a w. and_then (f a w) g)
  and_then_assoc (ok a, w, t) f g = and_then-shift t (f a w) g
  and_then_assoc (err e, w, t) f g = refl

  -- No call of a run fits `p`, if none of its parts does.
  pub never_and_then :
      {A B : Type 0} (p : E → Bool) (r : Result A × W × List E) (f : A → M W E B)
      → any p r.2 ≡ false
      → ((a : A) (w : W) → any p (f a w).2 ≡ false)
      → any p (and_then r f).2 ≡ false
  never_and_then p (ok a, w, t) f h k = ground (arith, any-append p t (f a w).2, k a w)
  never_and_then p (err e, w, t) f h k = h

  -- What holds of all calls of each part of a run holds of all its calls.
  pub All-and_then {κ} :
      {A B : Type 0} (P : E → Type κ) (r : Result A × W × List E) (f : A → M W E B)
      → All P r.2
      → ((a : A) (w : W) → All P (f a w).2)
      → All P (and_then r f).2
  All-and_then P (ok a, w, t) f h k = All-append P t (f a w).2 h (k a w)
  All-and_then P (err e, w, t) f h k = h

-- To split on an answer and keep the equation.
pub Result-cases {ℓ} :
    {A : Type ℓ} (r : Result A) → ((a : A) × (r ≡ ok a)) ⊎ ((e : Err) × (r ≡ err e))
Result-cases (ok a) = inl (a, refl)
Result-cases (err e) = inr (e, refl)
