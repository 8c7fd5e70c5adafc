-- ===== src/Operand/Rollout.antt =====
-- pkg/controllers/karpenter: what a rollout of the operand is. It is a list of objects, applied in order
-- until one is refused; the controllers' runs are compared with it.
pub mod Steps
use mathlib.Core.Path.{fun_ext}
use mathlib.Core.Option.{some-injective, some-ne-none, none-ne-some}
use mathlib.Core.List.{append-nil, append_assoc}
use openshift_karpenter_oper.Base.{
  ℕ, String, ◌≡◌, refl, sym, ap, ◌∙◌, Option, none, some, List, [], ◌∷◌, ◌++◌, map, M, Result, ok,
  err, message, pure, fail, lift, call, context, attempt, and_then, and_then-ok, and_then-err,
  and_then_assoc, Err, ◌>>=◌, ◌>>◌, Result-cases, inl, inr, arith, All, All-and_then, wrapped,
}
use openshift_karpenter_oper.Kube.{Requeue}
use openshift_karpenter_oper.Operand.{Object}
use openshift_karpenter_oper.Operand.Apply.{Event, got, applied, Deps, apply_object}

-- What a reconcile is to apply, in order, and what it is to return: `none` for an error.
pub record Plan : Type 0 where
  pub objects : List Object
  pub result : Option Requeue

-- What a run returns, whatever its error says.
abbrev pub outcome : {A : Type 0} → Result A → Option A
outcome (ok a) = some a
outcome (err _) = none

outcome-wrapped : {A : Type 0} (text : String) (r : Result A) → outcome (wrapped text r) ≡ outcome r
outcome-wrapped text (ok a) = refl
outcome-wrapped text (err e) = refl

module _ {Owner : Type 0} (deps : Deps Owner) where
  open deps use {World}

  -- The objects in order, up to the first that the server refuses.
  unfoldable pub apply_all : List Object → M World (Event Owner) (Unit {0})
  apply_all [] = pure tt
  apply_all (o ∷ os) = do apply_object deps o; apply_all os

  abbrev pub end_with : {A : Type 0} → Option A → M World (Event Owner) A
  end_with none = fail (message "stopped")
  end_with (some a) = pure a

  -- A rollout: the objects, and what it returns when all are applied, or `none` if it then fails.
  unfoldable pub rollout : {A : Type 0} → List Object → Option A → M World (Event Owner) A
  rollout os out = do apply_all os; end_with out

  -- Two runs make the same calls with the same answers, leave the same world and return the same.
  pub record Agree {A : Type 0} (r s : Result A × World × List (Event Owner)) : Type 0 where
    pub outcomes : outcome r.0 ≡ outcome s.0
    pub worlds : r.1 ≡ s.1
    pub calls : r.2 ≡ s.2

  -- The abstract controller: read the owner, then roll out what is due.
  unfoldable pub planned : (Result Owner → Plan) → M World (Event Owner) Requeue
  planned plan = do
    owner ← attempt (call deps.get got)
    rollout (plan owner).objects (plan owner).result

  -- From every world the code runs as the rollout.
  pub record Does {A : Type 0} (m : M World (Event Owner) A) (os : List Object) (out : Option A)
      : Type 0 where
    pub agrees : (w : World) → Agree (m w) (rollout os out w)

  apply_all-append :
      (xs ys : List Object) (w : World)
      → apply_all (xs ++ ys) w ≡ and_then (apply_all xs w) (λ _. apply_all ys)
  unfolding apply_all
  apply_all-append [] ys w = refl
  apply_all-append (x ∷ xs) ys w =
      let again : apply_all (xs ++ ys) ≡ (λ v. and_then (apply_all xs v) (λ _. apply_all ys)) =
        fun_ext (apply_all-append xs ys) in
      rw again
        (sym (and_then_assoc (apply_object deps x w) (λ _. apply_all xs) (λ _. apply_all ys)))

  abbrev pub Follows : M World (Event Owner) Requeue → Plan → Type 0
  Follows m p = Does m p.objects p.result

  -- A controller whose every answer is followed by the rollout that is due runs as the abstract one.
  pub Agree-planned :
      (plan : Result Owner → Plan) (next : Result Owner → M World (Event Owner) Requeue) (w : World)
      → ((owner : Result Owner) → Follows (next owner) (plan owner))
      → Agree (((attempt (call deps.get got)) >>= next) w) (planned plan w)
  unfolding planned
  Agree-planned plan next w h =
      let a = (h (deps.get w).0).agrees (deps.get w).1 in
      record {
        outcomes = a.outcomes;
        worlds = a.worlds;
        calls = ap (λ t. got (deps.get w).0 ∷ t) a.calls;
      }

  rollout-append :
      {A : Type 0} (xs ys : List Object) (out : Option A) (w : World)
      → rollout (xs ++ ys) out w ≡ and_then (apply_all xs w) (λ _. rollout ys out)
  unfolding rollout
  rollout-append xs ys out w =
      rw (apply_all-append xs ys w)
        (and_then_assoc (apply_all xs w) (λ _. apply_all ys) (λ _. end_with out))

  pub Does-pure : {A : Type 0} (a : A) → Does (pure a) [] (some a)
  unfolding rollout apply_all
  Does-pure a = record { agrees = λ w. record { outcomes = refl; worlds = refl; calls = refl } }

  pub Does-fail : {A : Type 0} (e : Err) → Does {A = A} (fail e) [] none
  unfolding rollout apply_all
  Does-fail e = record { agrees = λ w. record { outcomes = refl; worlds = refl; calls = refl } }

  pub Does-apply : (o : Object) → Does (apply_object deps o) (o ∷ []) (some tt)
  unfolding rollout apply_all apply_object
  Does-apply o = record {
    agrees = λ w. elim (Result-cases (deps.apply o w).0) [
      | inl (_, good) ↦ rw good (record { outcomes = refl; worlds = refl; calls = refl })
      | inr (_, bad) ↦ rw bad (record { outcomes = refl; worlds = refl; calls = refl })
    ];
  }

  pub Does-context :
      {A : Type 0} (text : String) {m : M World (Event Owner) A} {os : List Object} {out : Option A}
      → Does m os out
      → Does (context text m) os out
  Does-context text {m} h = record {
    agrees = λ w.
        let a = h.agrees w in
        record {
          outcomes = outcome-wrapped text (m w).0 ∙ a.outcomes;
          worlds = a.worlds;
          calls = a.calls;
        };
  }

  Agree-then :
      {A B : Type 0} (r : Result A × World × List (Event Owner))
      (s : Result (Unit {0}) × World × List (Event Owner)) (f : A → M World (Event Owner) B)
      (g : M World (Event Owner) B) {a : A}
      → Agree r (and_then s (λ _. pure a))
      → ((v : World) → Agree (f a v) (g v))
      → Agree (and_then r f) (and_then s (λ _. g))
  Agree-then (ok b, v, t) (ok _, v', t') f g {a} h k =
      let same : b ≡ a = some-injective b a h.outcomes in
      let there : v ≡ v' = h.worlds in
      let log : t ≡ t' = h.calls ∙ append-nil t' in
      let next = k v' in
      record {
        outcomes = rw (same, there) next.outcomes;
        worlds = rw (same, there) next.worlds;
        calls = rw (same, there, log) (ap (λ u. t' ++ u) next.calls);
      }
  Agree-then (ok b, v, t) (err e, v', t') f g h k = absurd (some-ne-none b h.outcomes)
  Agree-then (err e, v, t) (ok _, v', t') f g {a} h k = absurd (none-ne-some a h.outcomes)
  Agree-then (err e, v, t) (err e', v', t') f g h k = record {
    outcomes = refl;
    worlds = h.worlds;
    calls = h.calls;
  }

  Agree-stop :
      {A B : Type 0} (r : Result A × World × List (Event Owner))
      (s : Result (Unit {0}) × World × List (Event Owner)) (f : A → M World (Event Owner) B)
      → Agree r (and_then s (λ _. fail (message "stopped")))
      → Agree (and_then r f) (and_then s (λ _. fail (message "stopped")))
  Agree-stop (ok b, v, t) (ok _, v', t') f h = absurd (some-ne-none b h.outcomes)
  Agree-stop (ok b, v, t) (err e, v', t') f h = absurd (some-ne-none b h.outcomes)
  Agree-stop (err e, v, t) (ok _, v', t') f h = record {
    outcomes = refl;
    worlds = h.worlds;
    calls = h.calls;
  }
  Agree-stop (err e, v, t) (err e', v', t') f h = record {
    outcomes = refl;
    worlds = h.worlds;
    calls = h.calls;
  }

  -- One rollout after another.
  pub Does-then :
      {A B : Type 0} {m : M World (Event Owner) A} (f : A → M World (Event Owner) B)
      {xs ys : List Object} {a : A} {out : Option B}
      → Does m xs (some a)
      → Does (f a) ys out
      → Does (m >>= f) (xs ++ ys) out
  unfolding rollout
  Does-then {m} f {xs} {ys} {a} {out} h k = record {
    agrees = λ w.
        rw (rollout-append xs ys out w)
          (Agree-then (m w) (apply_all xs w) f (rollout ys out) (h.agrees w) k.agrees);
  }

  -- A rollout that fails is all that happens.
  pub Does-stop :
      {A B : Type 0} {m : M World (Event Owner) A} (f : A → M World (Event Owner) B)
      {xs : List Object}
      → Does m xs none
      → Does (m >>= f) xs none
  unfolding rollout
  Does-stop {m} f {xs} h = record { agrees = λ w. Agree-stop (m w) (apply_all xs w) f (h.agrees w) }

  -- An event of a reconcile: the read of its own object, or an object that fits what was read.
  abbrev pub Fits : (Object → Type 0) → Result Owner → Event Owner → Type 0
  Fits P owner (got answer) = answer ≡ owner
  Fits P owner (applied o _) = P o

  apply_all-All :
      (P : Object → Type 0) (owner : Result Owner) (os : List Object) (w : World)
      → All P os
      → All (Fits P owner) (apply_all os w).2
  unfolding apply_all apply_object
  apply_all-All P owner [] w h = tt
  apply_all-All P owner (o ∷ os) w h = elim (Result-cases (deps.apply o w).0) [
    | inl (_, good) ↦ rw good (h.0, apply_all-All P owner os (deps.apply o w).1 h.1)
    | inr (_, bad) ↦ rw bad (h.0, tt)
  ]

  end_with-All :
      {A : Type 0} (P : Event Owner → Type 0) (out : Option A) (w : World)
      → All P (end_with out w).2
  end_with-All P none w = tt
  end_with-All P (some a) w = tt

  -- What holds of all that is due holds of all that is applied.
  pub planned-All :
      (P : Object → Type 0) (plan : Result Owner → Plan) (w : World)
      → All P (plan (deps.get w).0).objects
      → All (Fits P (deps.get w).0) (planned plan w).2
  unfolding planned rollout
  planned-All P plan w h =
      let owner = (deps.get w).0 in
      let p = plan owner in
      let v = (deps.get w).1 in
      (
        refl,
        All-and_then (Fits P owner) (apply_all p.objects v) (λ _. end_with p.result)
            (apply_all-All P owner p.objects v h) (λ _ u. end_with-All (Fits P owner) p.result u),
      )
