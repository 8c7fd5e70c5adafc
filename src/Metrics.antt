-- ===== src/Metrics.antt =====
-- pkg/controllers/metrics.go: the metric that names the image of the running operator.
pub mod Wait
use openshift_karpenter_oper.Base.{
  ℕ, zero, suc, ◌+◌, String, ◌<>◌, Bool, true, false, ◌&&◌, Option, none, some, List, [], ◌∷◌, M,
  Result, ok, err, is_ok, Err, wrap, message, pure, fail, call, attempt, context, ◌>>=◌, ◌>>◌,
  is_not_found, if◌then◌else◌, ◌==◌, ◌!=◌, string_eq,
}

abbrev pub operator_container_name : String
operator_container_name = "karpenter-operator"

-- `corev1.ContainerStatus`, the fields that are read.
pub record ContainerStatus : Type 0 where
  pub name : String
  pub image : String

-- The calls, with their answers. A wait ends with the error of the context, or with the timer.
pub data Event : Type 0 where
  got_pod : Result (List ContainerStatus) → Event
  waited : Option Err → Event
  registered : String → Result (Unit {0}) → Event

-- The reader of the API server, the registry, and the clock in milliseconds. `pause` is the select of
-- `waitForOperatorImage` on a context with the given deadline and a timer of half a second, `canceled` and
-- `back_off` are those of the library's backoff on the operator's context.
pub record Deps : Type 1 where
  pub World : Type 0
  pub now : World → ℕ
  pub pod_name : String
  pub get_pod : String → World → Result (List ContainerStatus) × World
  pub pause : ℕ → World → Option Err × World
  pub register : String → World → Result (Unit {0}) × World
  pub canceled : World → Bool
  pub back_off : World → Option Err × World

-- The loop of `operatorImage`.
unfoldable pub reported_image : List ContainerStatus → String
reported_image [] = ""
reported_image (status ∷ more) =
    let rest = reported_image more in
    if status.name == operator_container_name && status.image != "" then status.image else rest

module _ (deps : Deps) where
  open deps use {World}

  -- `operatorImage`
  unfoldable pub operator_image : M World Event String
  operator_image = do
    statuses ← context "get operator pod" (call (deps.get_pod deps.pod_name) got_pod)
    pure (reported_image statuses)

  abbrev pub wait : (World → Option Err × World) → M World Event (Option Err)
  wait select w = let r = select w in (ok r.0, r.1, waited r.0 ∷ [])

  unfoldable pub after_wait :
      M World Event (Option String) → Option Err → M World Event (Option String)
  after_wait again (some e) = fail (wrap "operator pod container status unavailable" e)
  after_wait again none = again

  -- The rest of a round of the loop, with the rounds that follow.
  unfoldable pub after_image :
      ℕ → M World Event (Option String) → Result String → M World Event (Option String)
  unfolding after_wait
  after_image deadline again (err e) =
      if is_not_found e
      then (do ended ← wait (deps.pause deadline); after_wait again ended)
      else fail e
  after_image deadline again (ok image) =
      if image != ""
      then pure (some image)
      else (do ended ← wait (deps.pause deadline); after_wait again ended)

  -- The loop of `waitForOperatorImage` for a number of rounds: `none` if they do not suffice.
  unfoldable pub wait_loop : ℕ → ℕ → M World Event (Option String)
  unfolding after_image
  wait_loop zero deadline = pure none
  wait_loop (suc rounds) deadline = do
    image ← attempt operator_image
    after_image deadline (wait_loop rounds deadline) image

  -- The timeout of fifteen seconds, and rounds enough for it.
  abbrev pub image_timeout : ℕ
  image_timeout = 15000

  abbrev pub image_rounds : ℕ
  image_rounds = 31

  -- `waitForOperatorImage`
  unfoldable pub wait_for_operator_image : M World Event (Option String)
  wait_for_operator_image w = wait_loop image_rounds (deps.now w + image_timeout) w

  unfoldable pub register_image : Option String → M World Event (Unit {0})
  register_image none = fail (message "no round is left")
  register_image (some image) = call (deps.register image) (registered image)

  -- `setupOperatorInfoMetric`
  unfoldable pub setup_operator_info_metric : M World Event (Unit {0})
  unfolding register_image
  setup_operator_info_metric =
      if deps.pod_name == ""
      then fail (message "POD_NAME is not set")
      else do image ← context "read operator image" wait_for_operator_image; register_image image

  -- The steps of the backoff, with whether one of them has registered the metric.
  unfoldable pub retry : ℕ → M World Event Bool
  retry zero w = pure false w
  retry (suc zero) w =
      (if deps.canceled w
          then pure false
          else do done ← attempt setup_operator_info_metric; pure (is_ok done))
        w
  retry (suc (suc steps)) w =
      (if deps.canceled w then pure false else do
        done ← attempt setup_operator_info_metric
        elim done [
          | ok _ ↦ pure true
          | err _ ↦ do
            ended ← wait deps.back_off
            elim ended [ some _ ↦ pure false | none ↦ retry (suc steps) ]
        ])
        w

  -- `setupOperatorInfoMetricWithRetry`
  unfoldable pub setup_operator_info_metric_with_retry : M World Event Bool
  setup_operator_info_metric_with_retry = retry 5
