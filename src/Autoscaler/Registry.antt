-- ===== src/Autoscaler/Registry.antt =====
-- pkg/autoscaler/autoscaler.go: the map `cleanupObjects`, in which the specs register what they
-- create, and which `AfterEach` reads however a spec has ended. The state of a spec is the world
-- and this map.
use cluster_api_actuator_pkg.Base.{none, some, List, [], String}
use cluster_api_actuator_pkg.Base.Dict.{Dict, lookup, insert, erase}
use cluster_api_actuator_pkg.Monad.{M, pure, stop, assertion, ◌>>=◌, ◌>>◌, expect_no_error}
use cluster_api_actuator_pkg.Env.{Env}
use cluster_api_actuator_pkg.Autoscaler.Waits.{AnyObject, delete_object, after_each}

module _ (env : Env) where
  open env use {World}

  abbrev pub Cleanup : Type 0
  Cleanup = World × Dict AnyObject

  -- A run that leaves the map alone.
  abbrev pub lift : {A : Type 0} → M World A → M Cleanup A
  lift m (w, objects) = let (o, w') = m w in (o, (w', objects))

  -- `cleanupObjects[name] = obj`
  abbrev pub register : String → AnyObject → M Cleanup (Unit {0})
  register name o (w, objects) = pure tt (w, insert name o objects)

  -- `cleanupObjects[name]`, of which the specs expect that it is there: the client's `Delete` of a
  -- nil object returns an error, which fails the `Expect`.
  abbrev pub registered : String → M Cleanup AnyObject
  registered name (w, objects) = elim (lookup name objects) [
    | none ↦ stop assertion (w, objects)
    | some o ↦ pure o (w, objects)
  ]

  -- `delete(cleanupObjects, name)`
  abbrev pub forget : String → M Cleanup (Unit {0})
  forget name (w, objects) = pure tt (w, erase name objects)

  -- `Expect(deleteObject(name, cleanupObjects[name])).Should(Succeed())`, and the map's `delete`.
  unfoldable pub delete_registered : String → M Cleanup (Unit {0})
  unfolding lookup erase delete_object
  delete_registered name = do
    o ← registered name
    lift (delete_object env o >>= expect_no_error)
    forget name

  -- `deleteObject` on an object at hand, and the map's `delete`.
  unfoldable pub delete_known : String → AnyObject → M Cleanup (Unit {0})
  unfolding erase delete_object
  delete_known name o = do lift (delete_object env o >>= expect_no_error); forget name

  -- A spec and then `AfterEach`, which visits the map in the order that the runtime chooses. The
  -- outcome is that of the cleanup if it stops, else that of the spec.
  unfoldable pub with_cleanup :
      (Dict AnyObject → List AnyObject) → M Cleanup (Unit {0}) → M World (Unit {0})
  with_cleanup order spec w =
      let (o, (v, objects)) = spec (w, []) in (after_each env (order objects) >> λ v'. (o, v')) v
