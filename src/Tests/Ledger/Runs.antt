-- ===== src/Tests/Ledger/Runs.antt =====
-- The whole spec "It scales from/to zero" and its cleanup, on a cluster that knows what the suite
-- owns.
use cluster_api_actuator_pkg.Base.{
  ◌≡◌, refl, inl, inr, Bool, true, false, if◌then◌else◌, some, List, [], ◌∷◌, ◌=s◌, itoa,
}
use cluster_api_actuator_pkg.Base.Dict.{Dict, lookup, insert, erase}
use cluster_api_actuator_pkg.Base.Int.{int32}
use cluster_api_actuator_pkg.Monad.{returned}
use cluster_api_actuator_pkg.Framework.Cluster.{
  get_infrastructure, get_cluster_autoscaler, random_string,
}
use cluster_api_actuator_pkg.Framework.Machines.{
  add_selectors, get_machines, filter_running_machines,
}
use cluster_api_actuator_pkg.Framework.Nodes.{conditions_ready, is_node_ready, get_node_for_machine}
use cluster_api_actuator_pkg.Framework.MachineSets.{
  get_machine_set, get_worker_machine_sets, worker_machine_sets, build_machine_set_params,
  create_machine_set, machine_set_of_params,
}
use cluster_api_actuator_pkg.Framework.MachineSetWaits.{
  nodes_failure, machine_set_failure, wait_for_machine_set,
}
use cluster_api_actuator_pkg.Autoscaler.Resources.{
  new_work_load, cluster_autoscaler_resource, machine_autoscaler_resource,
}
use cluster_api_actuator_pkg.Autoscaler.Waits.{
  AnyObject, after_each, delete_object, has_replicas, wait_for_replicas, autoscaler_is_gone,
  wait_for_autoscaler_delete,
}
use cluster_api_actuator_pkg.Autoscaler.Registry.{Cleanup, delete_registered}
use cluster_api_actuator_pkg.Autoscaler.FromZero.{
  scales_from_zero_on, scale_out_and_in, create_autoscalers, create_workload, scales_from_zero,
}
use cluster_api_actuator_pkg.Autoscaler.Ownership.{Covered}
use cluster_api_actuator_pkg.Autoscaler.Ownership.Emptied.{
  Among, Visits, OwnsNothing, scales_from_zero-Covered, scales_from_zero-cleaned,
}
use cluster_api_actuator_pkg.Tests.Ledger.{books, books_ledger}

-- What the spec leaves.
abbrev left : Cleanup books
left = (scales_from_zero books "1Gi" ([], [])).1

abbrev values : Dict AnyObject → List AnyObject
values [] = []
values ((name, x) ∷ m) = x ∷ values m

values-Visits : (m : Dict AnyObject) → Visits (values m) m
unfolding lookup
values-Visits [] name x h = absurd (cc)
values-Visits ((n, y) ∷ m) name x h = found (n =s name) h (values-Visits m name x)
  where
    found :
        (b : Bool)
        → (if b then some y else lookup name m) ≡ some x
        → (lookup name m ≡ some x → Among x (values m))
        → Among x (y ∷ values m)
    found true e rest = inl (cc)
    found false e rest = inr (rest e)

-- The machine set and its autoscaler are left for `AfterEach`.
runs :
    (scales_from_zero books "1Gi" ([], []) ≡ (returned tt, left))
    × (after_each books (values left.1) left.0 ≡ (returned tt, []))
unfolding after_each scales_from_zero scales_from_zero_on get_infrastructure
    build_machine_set_params get_worker_machine_sets worker_machine_sets random_string
    create_machine_set machine_set_of_params wait_for_machine_set machine_set_failure nodes_failure
    get_node_for_machine is_node_ready conditions_ready get_machine_set get_machines add_selectors
    filter_running_machines create_autoscalers cluster_autoscaler_resource
    machine_autoscaler_resource create_workload new_work_load scale_out_and_in delete_registered
    delete_object has_replicas wait_for_replicas autoscaler_is_gone wait_for_autoscaler_delete
    get_cluster_autoscaler lookup insert erase int32 itoa
runs = (refl, refl)

scales_from_zero-Covered_example : Covered books_ledger left
unfolding books_ledger
scales_from_zero-Covered_example = scales_from_zero-Covered books_ledger "1Gi" [] (λ x h. h) runs.0

scales_from_zero-cleaned_example : OwnsNothing books_ledger []
unfolding books_ledger
scales_from_zero-cleaned_example =
    scales_from_zero-cleaned books_ledger "1Gi" (values left.1) [] (λ x h. h) runs.0
      (values-Visits left.1) runs.1
