-- ===== src/Controller/Drain/Table.antt =====
-- `parseDrainOpts` as a function of the numbers of nodes.
use elemental_lifecycle_mana.Prelude.{
  ℕ, ◌+◌, suc, false, List, [], ◌∷◌, ◌≡◌, ap, ◌∙◌, ◌&&◌, ◌||◌, not, ltb, nat_eq, count_if, arith,
}
use elemental_lifecycle_mana.Api.{Release}
use elemental_lifecycle_mana.Errors.{ok}
use elemental_lifecycle_mana.Cluster.{Node, Client}
use elemental_lifecycle_mana.Config.{DrainOpts}
use elemental_lifecycle_mana.Reconcilers.Nodes.{is_control_plane}
use elemental_lifecycle_mana.Controller.Drain.{count_nodes, drain_opts_for, parse_drain_opts}

abbrev pub control_planes_of : List Node → ℕ
control_planes_of nodes = count_if is_control_plane nodes

abbrev pub workers_of : List Node → ℕ
workers_of nodes = count_if (λ n. not (is_control_plane n)) nodes

count_nodes-counts :
    (a b : ℕ) (nodes : List Node)
    → count_nodes a b nodes ≡ (a + control_planes_of nodes, b + workers_of nodes)
unfolding count_nodes
count_nodes-counts a b [] = ground arith
count_nodes-counts a b (n ∷ ns) =
    ground (arith, count_nodes-counts (suc a) b ns, count_nodes-counts a (suc b) ns)

abbrev pub expected_drain : ℕ → ℕ → DrainOpts
expected_drain control_planes workers = record {
  control_plane = ltb 1 control_planes || nat_eq control_planes 0 && ltb 1 workers;
  worker = ltb 1 workers;
}

drain_opts_for-expected : (a b : ℕ) → drain_opts_for (a, b) ≡ expected_drain a b
unfolding drain_opts_for
drain_opts_for-expected a b = ground arith

counted : (nodes : List Node) → count_nodes 0 0 nodes ≡ (control_planes_of nodes, workers_of nodes)
counted nodes = ground (arith, count_nodes-counts 0 0 nodes)

drain_counted :
    (nodes : List Node)
    → drain_opts_for (count_nodes 0 0 nodes)
      ≡ expected_drain (control_planes_of nodes) (workers_of nodes)
drain_counted nodes =
    ap drain_opts_for (counted nodes)
    ∙ drain_opts_for-expected (control_planes_of nodes) (workers_of nodes)

module _ {W : Type 0} (client : Client W) where
  -- When draining is not disabled and the nodes can be listed, workers are drained exactly if there
  -- are at least two, and control planes exactly if there are at least two of them, or none of them
  -- beside at least two workers.
  pub parse_drain_opts-expected :
      (release : Release) (nodes : List Node) (w v : W)
      → release.spec.disable_drain ≡ false
      → client.list_nodes w ≡ (ok nodes, v)
      → parse_drain_opts client release w
        ≡ (ok (expected_drain (control_planes_of nodes) (workers_of nodes)), v)
  unfolding parse_drain_opts
  parse_drain_opts-expected release nodes w v on listed =
      rw on (rw listed (ap (λ o. (ok o, v)) (drain_counted nodes)))
