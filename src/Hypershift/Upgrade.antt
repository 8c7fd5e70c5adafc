-- ===== src/Hypershift/Upgrade.antt =====
-- pkg/hypershift/controlplaneversion.go: when a NodeClass waits for the control plane.
use openshift_karpenter_oper.Base.{
  String, ◌≡◌, refl, ◌≢◌, ◌↔◌, true, some, List, [], ◌∷◌, ◌++◌, arith, Option-cases, inl, inr, All,
  string_eq,
}
use openshift_karpenter_oper.Kube.{HostedControlPlane, UpdateHistory}
use openshift_karpenter_oper.Hypershift.{
  last_completed, is_control_plane_upgrading, waits_for_control_plane_upgrade,
}

-- The newest completed update of a history, which is ordered newest first.
pub record NewestCompleted (history : List UpdateHistory) : Type 0 where
  pub newer : List UpdateHistory
  pub entry : UpdateHistory
  pub older : List UpdateHistory
  pub ordered : history ≡ newer ++ entry ∷ older
  pub pending : All (λ (e : UpdateHistory). e.state ≢ "Completed") newer
  pub completed : entry.state ≡ "Completed"

newest :
    (history : List UpdateHistory) {entry : UpdateHistory}
    → last_completed history ≡ some entry
    → (n : NewestCompleted history) × (n.entry ≡ entry)
unfolding last_completed
newest [] h = cc
newest (e ∷ es) {entry} h = elim (string_eq.dec e.state "Completed") [
  | yes done ↦ (
    record { newer = []; entry = e; older = es; ordered = refl; pending = tt; completed = done },
    ground arith,
  )
  | no open_ ↦
      let (n, same) = newest es {entry = entry} (ground arith) in
      (
        record {
          newer = e ∷ n.newer;
          entry = n.entry;
          older = n.older;
          ordered = rw (← n.ordered);
          pending = (open_, n.pending);
          completed = n.completed;
        },
        same,
      )
]

found :
    (newer : List UpdateHistory) (entry : UpdateHistory) (older : List UpdateHistory)
    → All (λ (e : UpdateHistory). e.state ≢ "Completed") newer
    → entry.state ≡ "Completed"
    → last_completed (newer ++ entry ∷ older) ≡ some entry
unfolding last_completed
found [] entry older p c = ground arith
found (e ∷ newer) entry older p c = ground (arith, found newer entry older p.1 c)

-- A NodeClass waits for the control plane exactly when it names no version, an image is desired, and
-- the newest completed update has another image. With no completed update it does not wait.
pub waits_iff :
    (hcp : HostedControlPlane) (version : String)
    → (waits_for_control_plane_upgrade hcp version ≡ true) ↔ (
        (version ≡ "")
        × (hcp.control_plane_version.desired_image ≢ "")
        × (n : NewestCompleted hcp.control_plane_version.history) × (n.entry.image
            ≢ hcp.control_plane_version.desired_image))
unfolding waits_for_control_plane_upgrade is_control_plane_upgrading
waits_iff hcp version = (
  λ w. elim (Option-cases (last_completed hcp.control_plane_version.history)) [
    | inl never ↦ absurd (ground arith)
    | inr (e, last) ↦
        let (n, same) = newest _ {entry = e} last in (ground arith, ground arith, n, ground arith)
  ],
  λ (unpinned, desired, n, differs).
      let last = found n.newer n.entry n.older n.pending n.completed in
      let last' : last_completed hcp.control_plane_version.history ≡ some n.entry =
        rw n.ordered last in
      ground arith,
)
