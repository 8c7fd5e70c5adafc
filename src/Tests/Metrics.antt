-- ===== src/Tests/Metrics.antt =====
-- A run of pkg/controllers/metrics.go where the kubelet reports the image after two seconds.
use openshift_karpenter_oper.Base.{
  ℕ, ◌+◌, ◌≡◌, refl, none, some, [], ◌∷◌, ok, message, true, arith, string_eq, if◌then◌else◌, ltb,
}
use openshift_karpenter_oper.Metrics.{
  Deps, wait_for_operator_image, wait_loop, after_image, after_wait, operator_image, reported_image,
  retry, setup_operator_info_metric, setup_operator_info_metric_with_retry, register_image,
}
use openshift_karpenter_oper.Metrics.Wait.{Keeps, Ended, wait_for_operator_image-Ended}

abbrev slow : Deps
slow = record {
  World = ℕ;
  now = λ w. w;
  pod_name = "karpenter-operator-0";
  get_pod = λ name w. (
    ok (
        if ltb w 2000
        then []
        else record { name = "karpenter-operator"; image = "operator:1" } ∷ []),
    w,
  );
  pause = λ deadline w.
      if ltb w deadline then (none, w + 500) else (some (message "deadline exceeded"), w);
  register = λ image w. (ok tt, w);
  canceled = λ w. ltb 60000 w;
  back_off = λ w. (none, w + 1000);
}

slow-Keeps : Keeps slow
slow-Keeps = record { read = λ w. omega arith; timer = λ deadline w h. ground arith }

wait_for_operator_image-Ended_example : Ended (wait_for_operator_image slow 0).0
wait_for_operator_image-Ended_example = wait_for_operator_image-Ended slow slow-Keeps 0

registers : (setup_operator_info_metric_with_retry slow 0).0 ≡ ok true
unfolding setup_operator_info_metric_with_retry retry setup_operator_info_metric register_image
    wait_for_operator_image wait_loop after_image after_wait operator_image reported_image string_eq
registers = refl
