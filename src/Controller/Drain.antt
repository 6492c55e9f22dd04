-- ===== src/Controller/Drain.antt =====
-- `parseDrainOpts` of internal/controller/release_controller.go: which nodes an upgrade drains.
pub mod Table
use elemental_lifecycle_mana.Prelude.{
  ℕ, suc, Bool, true, false, List, [], ◌∷◌, ◌&&◌, ltb, leb, nat_eq, if◌then◌else◌,
}
use elemental_lifecycle_mana.Api.{Release}
use elemental_lifecycle_mana.Errors.{M, pure, ◌>>=◌, context}
use elemental_lifecycle_mana.Cluster.{Node, Client}
use elemental_lifecycle_mana.Config.{DrainOpts}
use elemental_lifecycle_mana.Reconcilers.Nodes.{is_control_plane}

-- The loop over the nodes, with both counters.
unfoldable pub count_nodes : ℕ → ℕ → List Node → ℕ × ℕ
unfolding is_control_plane
count_nodes control_planes workers [] = (control_planes, workers)
count_nodes control_planes workers (n ∷ ns) =
    let rest = count_nodes (suc control_planes) workers ns in
    let rest' = count_nodes control_planes (suc workers) ns in
    if is_control_plane n then rest else rest'

-- The switch on the counters.
unfoldable pub drain_opts_for : ℕ × ℕ → DrainOpts
drain_opts_for (control_planes, workers) =
    if ltb 1 control_planes && leb workers 1
    then record { control_plane = true; worker = false }
    else if nat_eq control_planes 1 && ltb 1 workers
    then record { control_plane = false; worker = true }
    else if leb control_planes 1 && leb workers 1
    then record { control_plane = false; worker = false }
    else record { control_plane = true; worker = true }

module _ {W : Type 0} (client : Client W) where
  unfoldable pub parse_drain_opts : Release → M W DrainOpts
  unfolding count_nodes drain_opts_for
  parse_drain_opts release =
      if release.spec.disable_drain
      then pure (record { control_plane = false; worker = false })
      else context "listing nodes" client.list_nodes >>= λ nodes.
          pure (drain_opts_for (count_nodes 0 0 nodes))
