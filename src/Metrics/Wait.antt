-- ===== src/Metrics/Wait.antt =====
-- pkg/controllers/metrics.go: the wait for the image ends.
use openshift_karpenter_oper.Base.{
  ℕ, zero, suc, ◌+◌, ◌*◌, ◌≤◌, ◌<◌, ◌≡◌, refl, ◌≢◌, String, Option, none, some, Result, ok, err,
  Err, ◌⊎◌, inl, inr, arith, Result-cases, Bool-cases, Option-cases, is_not_found, and_then,
  string_eq, ◌!=◌,
}
use openshift_karpenter_oper.Metrics.{
  Deps, reported_image, operator_image, wait, after_wait, after_image, wait_loop,
  wait_for_operator_image,
}

-- What the clock and the select keep to: a read takes no negative time; the timer ends a wait only after
-- half a second, and not if the deadline had passed when the wait began.
pub record Keeps (deps : Deps) : Type 0 where
  pub read : (w : deps.World) → deps.now w ≤ deps.now (deps.get_pod deps.pod_name w).1
  pub timer :
      (deadline : ℕ) (w : deps.World)
      → (deps.pause deadline w).0 ≡ none
      → (deps.now w < deadline) × (deps.now w + 500 ≤ deps.now (deps.pause deadline w).1)

-- A result: an image that is not empty, or an error.
abbrev pub Ended : Result (Option String) → Type 0
Ended r = ((image : String) × (r ≡ ok (some image)) × (image ≢ "")) ⊎ ((e : Err) × (r ≡ err e))

module _ (deps : Deps) (keeps : Keeps deps) where
  -- A wait ends the loop, or half a second later the next round begins.
  wait-Ended :
      (deadline rounds : ℕ) (v : deps.World)
      → ((u : deps.World)
          → deps.now v < deadline
          → deps.now v + 500 ≤ deps.now u
          → Ended (wait_loop deps rounds deadline u).0)
      → Ended
          (and_then
            (wait deps (deps.pause deadline) v)
            (after_wait deps (wait_loop deps rounds deadline))).0
  unfolding after_wait
  wait-Ended deadline rounds v next = elim (Option-cases (deps.pause deadline v).0) [
    | inl timer ↦
        let (early, later) = keeps.timer deadline v timer in
        rw timer (next (deps.pause deadline v).1 early later)
    | inr (e, over) ↦ rw over (inr (_, refl))
  ]

  -- A round of the loop.
  round-Ended :
      (rounds deadline : ℕ) (w : deps.World)
      → ((u : deps.World)
          → deps.now (deps.get_pod deps.pod_name w).1 < deadline
          → deps.now (deps.get_pod deps.pod_name w).1 + 500 ≤ deps.now u
          → Ended (wait_loop deps rounds deadline u).0)
      → Ended (wait_loop deps (suc rounds) deadline w).0
  unfolding wait_loop after_image operator_image
  round-Ended rounds deadline w next =
      let again = wait-Ended deadline rounds (deps.get_pod deps.pod_name w).1 next in
      elim (Result-cases (deps.get_pod deps.pod_name w).0) [
        | inl (statuses, got) ↦ elim (Bool-cases (reported_image statuses != "")) [
          | inl here ↦ rw (got, here) (inl (reported_image statuses, refl, λ e. ground arith))
          | inr unset ↦ rw (got, unset) again
        ]
        | inr (e, bad) ↦ elim (Bool-cases (is_not_found e)) [
          | inl gone ↦ rw (bad, gone) again
          | inr failed ↦ rw (bad, failed) (inr (_, refl))
        ]
      ]

  -- With half a second for each round until the deadline the loop ends.
  wait_loop-Ended :
      (rounds deadline : ℕ) (w : deps.World)
      → deadline ≤ deps.now w + 500 * rounds
      → Ended (wait_loop deps (suc rounds) deadline w).0
  wait_loop-Ended zero deadline w enough =
      round-Ended zero deadline w λ u early later. absurd (omega (arith, keeps.read w))
  wait_loop-Ended (suc rounds) deadline w enough =
      round-Ended (suc rounds) deadline w
        λ u early later. wait_loop-Ended rounds deadline u (omega (arith, keeps.read w))

  -- The wait for the operator's image always ends, within 31 rounds: it gives an image that is not empty,
  -- or an error. Of the clock it is assumed that it does not go
  -- back during a read, and that the timer of half a second ends a wait only after that time and only if the
  -- deadline of fifteen seconds had not passed when the wait began.
  pub wait_for_operator_image-Ended : (w : deps.World) → Ended (wait_for_operator_image deps w).0
  unfolding wait_for_operator_image
  wait_for_operator_image-Ended w = wait_loop-Ended 30 (deps.now w + 15000) w (omega arith)
