-- ===== src/Framework/Machines/Laws.antt =====
-- What the helpers of pkg/framework/machines.go do on their error paths, and what they have seen
-- when they succeed.
use cluster_api_actuator_pkg.Base.{
  ◌≡◌, inl, inr, Bool, true, false, none, some, List, [], ◌∷◌, String, ◌=s◌, =s_iff, Bool-cases,
  Option-cases, arith,
}
use cluster_api_actuator_pkg.Base.Dict.{lookup}
use cluster_api_actuator_pkg.Api.{Error, ok, err, Node, Machine, Kind}
use cluster_api_actuator_pkg.Monad.{
  returned, pure, ◌>>=◌, >>=-returned, Result-cases, Run-cases, Call-cases, Value-cases,
}
use cluster_api_actuator_pkg.Env.{Env}
use cluster_api_actuator_pkg.Env.Documented.{
  IsDocumented, poll-success, poll-error, eventually-success,
}
use cluster_api_actuator_pkg.Framework.Names.{
  machine_api_namespace, machine_annotation_key, wait_long, retry_medium,
}
use cluster_api_actuator_pkg.Framework.Machines.{
  get_machine, get_machine_from_node, try_delete_machine, delete_machine, machines_are_deleted,
  wait_for_machine_delete,
}

module _ (env : Env) where
  open env use {World}

  -- A machine that `GetMachineFromNode` returns was read under the name that the node's annotation
  -- gives, and the annotation names the namespace of the machine API.
  pub get_machine_from_node-annotated :
      (node : Node) (w : World) {m : Machine} {w' : World}
      → get_machine_from_node env node w ≡ (returned (ok m), w')
      → (key : String) × (name : String) × (lookup machine_annotation_key node.meta.annotations
          ≡ some key)
        × (env.split_meta_namespace_key key ≡ ok (machine_api_namespace, name))
        × (get_machine env name w ≡ (returned (ok m), w'))
  unfolding get_machine_from_node
  get_machine_from_node-annotated node w h =
      elim (Option-cases (lookup machine_annotation_key node.meta.annotations)) [
        | inl unannotated ↦ absurd (ground arith)
        | inr (key, k) ↦ elim (Value-cases (env.split_meta_namespace_key key)) [
          | inl ((namespace, name), q) ↦ elim (Bool-cases (namespace =s machine_api_namespace)) [
            | inl here ↦ elim (Result-cases (get_machine env name w)) [
              | inl (m, v, g) ↦ (
                key,
                name,
                k,
                rw (← (=s_iff namespace machine_api_namespace).0 here) q,
                ground arith,
              )
              | inr (inl (e, v, g)) ↦ absurd (ground arith)
              | inr (inr (s, v, g)) ↦ absurd (ground arith)
            ]
            | inr elsewhere ↦ absurd (ground arith)
          ]
          | inr (e, q) ↦ absurd (ground arith)
        ]
      ]

  -- From `w` to `w'` each machine in turn is read, and each read fails as "not found".
  abbrev pub AllNotFound : List Machine → World → World → Type 0
  AllNotFound [] w w' = w ≡ w'
  AllNotFound (m ∷ ms) w w' =
      (e : Error) × (v : World) × (env.get Kind.a_machine
          (record { namespace = m.meta.namespace; name = m.meta.name }) w
        ≡ (err e, v))
      × (env.is_not_found (some e) ≡ true)
      × AllNotFound ms v w'

  -- The run of `DeleteMachine` from `w` to `w'`, whose last call of the API deleted the machine.
  abbrev pub IsDeletedMachine : Machine → World → World → Type 0
  IsDeletedMachine m w w' =
      (delete_machine env m w ≡ (returned none, w'))
      × ((v : World) × (env.delete Kind.a_machine m false v ≡ (none, w')))

  -- The run of `WaitForMachineDelete` from `w` to `w'`, whose last round found all machines gone.
  abbrev pub IsAwaitedGone : List Machine → World → World → Type 0
  IsAwaitedGone ms w w' =
      (wait_for_machine_delete env ms w ≡ (returned tt, w')) × ((v : World) × AllNotFound ms v w')

  try_delete_machine-error :
      (m : Machine) (w : World) {e : Error} {w' : World}
      → env.delete Kind.a_machine m false w ≡ (some e, w')
      → try_delete_machine env m tt w ≡ (returned (err e, tt), w')
  unfolding try_delete_machine
  try_delete_machine-error m w h = ground arith

module _ (env : Env) (doc : IsDocumented env) where
  open env use {World}

  -- `DeleteMachine` does not retry: if the first delete call fails, its error is returned at once,
  -- in the world that this call left.
  pub delete_machine-first_error :
      (m : Machine) (w : World) {e : Error} {w' : World}
      → env.delete Kind.a_machine m false w ≡ (some e, w')
      → delete_machine env m w ≡ (returned (some e), w')
  unfolding delete_machine
  delete_machine-first_error m w {e} {w'} h = ground (
    arith,
    poll-error env doc (Unit {0}) 1 60 (try_delete_machine env m) tt w {e = e} {s' = tt} {w' = w'}
        (try_delete_machine-error env m w h),
  )

  try_delete_machine-true :
      (m : Machine) (w : World) {w' : World}
      → try_delete_machine env m tt w ≡ (returned (ok true, tt), w')
      → env.delete Kind.a_machine m false w ≡ (none, w')
  unfolding try_delete_machine
  try_delete_machine-true m w h = ground arith

  -- When `DeleteMachine` returns without an error, its last call of the API deleted the machine.
  pub delete_machine-none :
      (m : Machine) (w : World) {w' : World}
      → delete_machine env m w ≡ (returned none, w')
      → (w₀ : World) × (env.delete Kind.a_machine m false w₀ ≡ (none, w'))
  unfolding delete_machine
  delete_machine-none m w {w'} h =
      elim (Run-cases (env.poll_immediate (Unit {0}) 1 60 (try_delete_machine env m) tt w)) [
        | inl ((none, u), v, q) ↦
            let (s, w₀, run) =
              poll-success env doc (Unit {0}) 1 60 (try_delete_machine env m) tt w {s' = tt}
                {w' = v} q in
            (w₀, ground (arith, try_delete_machine-true m w₀ run))
        | inl ((some e, u), v, q) ↦ absurd (ground arith)
        | inr (s, v, q) ↦ absurd (ground arith)
      ]

  machines_are_deleted-AllNotFound :
      (ms : List Machine) (w : World) {w' : World}
      → machines_are_deleted env ms w ≡ (returned true, w')
      → AllNotFound env ms w w'
  unfolding machines_are_deleted
  machines_are_deleted-AllNotFound [] w h = cc
  machines_are_deleted-AllNotFound (m ∷ ms) w h =
      elim (Call-cases
        (env.get Kind.a_machine (record { namespace = m.meta.namespace; name = m.meta.name }) w)) [
          | inl (found, v, q) ↦ absurd (ground (arith, doc.not_found_none))
          | inr (e, v, q) ↦ elim (Bool-cases (env.is_not_found (some e))) [
            | inl gone ↦ (e, v, q, gone, machines_are_deleted-AllNotFound ms v (ground arith))
            | inr other ↦ absurd (ground arith)
          ]
        ]

  -- When `WaitForMachineDelete` returns, its last round read every given machine, and each read
  -- failed with a "not found" error.
  pub wait_for_machine_delete-AllNotFound :
      (ms : List Machine) (w : World) {w' : World}
      → wait_for_machine_delete env ms w ≡ (returned tt, w')
      → (w₁ : World) × AllNotFound env ms w₁ w'
  unfolding wait_for_machine_delete
  wait_for_machine_delete-AllNotFound ms w h =
      let (s, w₁, a, run, met) =
        eventually-success env doc (Unit {0}) Bool wait_long retry_medium
          (λ s. machines_are_deleted env ms >>= λ b. pure (b, s)) (λ b. b) tt w h in
      let (b, u, deleted, same) =
        >>=-returned (λ b. pure (b, s)) (machines_are_deleted env ms) w₁ run in
      (w₁, machines_are_deleted-AllNotFound ms w₁ (ground arith))
