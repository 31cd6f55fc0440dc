-- ===== src/Framework/MachineSetWaits/Returns.antt =====
-- The waits of pkg/framework/machinesets.go end once what they wait for is there.
use cluster_api_actuator_pkg.Base.{
  ◌≡◌, refl, ap, Bool, true, Option, none, List, [], ◌∷◌, String, length, ==_iff, All, filter,
  arith,
}
use cluster_api_actuator_pkg.Base.Int.{pos, =z_iff}
use cluster_api_actuator_pkg.Api.{Error, ok, Machine, MachineSet}
use cluster_api_actuator_pkg.Monad.{M, returned, pure, ◌>>=◌}
use cluster_api_actuator_pkg.Env.{Env}
use cluster_api_actuator_pkg.Env.Documented.{IsDocumented, eventually-first}
use cluster_api_actuator_pkg.Framework.Names.{wait_long, retry_medium}
use cluster_api_actuator_pkg.Framework.Machines.{is_running, filter_running_machines}
use cluster_api_actuator_pkg.Framework.MachineSets.{get_machine_set}
use cluster_api_actuator_pkg.Framework.MachineSetWaits.{
  wanted_replicas, is_nil, nodes_failure, machine_set_failure, wait_for_machine_set,
}
use cluster_api_actuator_pkg.Framework.MachineSetWaits.Laws.{NodesAreUp, IsUp}

filter-All {ℓ} :
    {A : Type ℓ} (p : A → Bool) (xs : List A) → All (λ x. p x ≡ true) xs → filter p xs ≡ xs
filter-All p [] h = refl
filter-All p (x ∷ xs) h = ground (arith, filter-All p xs h.1)

module _ (env : Env) where
  open env use {World}

  NodesAreUp-none :
      (ms : List Machine) (w : World) {w' : World}
      → NodesAreUp env ms w w'
      → nodes_failure env ms w ≡ (returned none, w')
  unfolding nodes_failure
  NodesAreUp-none [] w h = ap (λ v. (returned none, v)) h
  NodesAreUp-none (m ∷ ms) w h = ground (arith, h.2, h.3, NodesAreUp-none ms h.1 h.4)

  IsUp-none :
      (ms : MachineSet) (w : World) {w' : World}
      → IsUp env ms w w'
      → machine_set_failure env ms w ≡ (returned none, w')
  unfolding machine_set_failure filter_running_machines
  IsUp-none ms w up =
      let kept = filter-All is_running up.machines up.running in
      ground (
        arith,
        up.listed,
        up.counted,
        kept,
        ap length kept,
        (=z_iff (pos (length up.machines)) (wanted_replicas ms)).1 up.counted,
        (==_iff (length (filter is_running up.machines)) (length up.machines)).1 (ap length kept),
        NodesAreUp-none up.machines up.between up.nodes,
      )

  abbrev look : MachineSet → Unit {0} → M World (Option Error × Unit {0})
  look ms s = machine_set_failure env ms >>= λ e. pure (e, s)

  looked :
      (ms : MachineSet) (w : World) {w' : World}
      → machine_set_failure env ms w ≡ (returned none, w')
      → look ms tt w ≡ (returned (none, tt), w')
  looked ms w h = ground arith

module _ (env : Env) (doc : IsDocumented env) where
  open env use {World}

  -- If the machine set of this name is found, and the first look after that finds it complete, then
  -- `WaitForMachineSet` returns, in the world that this look has left.
  pub wait_for_machine_set-returns :
      (name : String) (w : World) (ms : MachineSet) (w₁ w' : World)
      → get_machine_set env name w ≡ (returned (ok ms), w₁)
      → IsUp env ms w₁ w'
      → wait_for_machine_set env name w ≡ (returned tt, w')
  unfolding wait_for_machine_set
  wait_for_machine_set-returns name w ms w₁ w' read up = ground (
    arith,
    read,
    eventually-first env doc (Unit {0}) (Option Error) wait_long retry_medium (look env ms) is_nil
        tt w₁ none {s' = tt} {w' = w'} (looked env ms w₁ (IsUp-none env ms w₁ up)) refl,
  )
