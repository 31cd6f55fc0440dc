-- ===== src/Env.antt =====
-- What the packages call: the API client, the clock, the polling of `wait` and `gomega`, and a few
-- helpers of the vendored modules. All of it is a parameter.
pub mod Polling
pub mod Documented
use cluster_api_actuator_pkg.Base.{ℕ, Bool, Option, List, String}
use cluster_api_actuator_pkg.Api.{
  Error, Result, ObjectMeta, LabelSelector, Condition, Scale, Kind, Object, ObjectKey, ListOption,
}
use cluster_api_actuator_pkg.Monad.{M}

pub record Env : Type 1 where
  pub World : Type 0
  -- `time.Now()`, in seconds.
  pub now : World → ℕ
  -- The same time as `metav1.Now()` keeps it, in nanoseconds.
  pub unix_nano : World → ℕ
  -- `uuid.NewUUID()`
  pub new_uuid : World → String × World
  -- The client's calls. `create` and `update` return the object as the server has filled it in,
  -- which the Go call writes through its pointer.
  pub get : (k : Kind) → ObjectKey → World → Result (Object k) × World
  pub list : (k : Kind) → List ListOption → World → Result (List (Object k)) × World
  pub create : (k : Kind) → Object k → World → Result (Object k) × World
  pub update : (k : Kind) → Object k → World → Result (Object k) × World
  -- `delete k o foreground`: whether the propagation policy `Foreground` is asked for.
  pub delete : (k : Kind) → Object k → Bool → World → Option Error × World
  -- `c.Status().Patch(ctx, changed, client.MergeFrom(base))`
  pub patch_status : (k : Kind) → Object k → Object k → World → Option Error × World
  -- The scale client's construction, and its calls on the scale subresource of a machine set.
  pub scale_client : World → Option Error × World
  pub get_scale : ObjectKey → World → Result Scale × World
  pub update_scale : String → Scale → World → Option Error × World
  -- `wait.PollImmediate(interval, timeout, cond)`, in seconds, with the variables that the
  -- condition captures.
  pub poll_immediate :
      (S : Type 0) → ℕ → ℕ → (S → M World (Result Bool × S)) → S → M World (Option Error × S)
  -- `Eventually(f, timeout, interval).Should(matcher)`
  pub eventually : (S A : Type 0) → ℕ → ℕ → (S → M World (A × S)) → (A → Bool) → S → M World S
  -- How `%d` prints a pointer.
  pub pointer_text : String
  -- `metav1.LabelSelectorAsSelector`: whether the selector is malformed.
  pub selector_error : LabelSelector → Option Error
  pub is_controlled_by : ObjectMeta → ObjectMeta → Bool
  -- `apierrors.IsNotFound`
  pub is_not_found : Option Error → Bool
  -- `cache.SplitMetaNamespaceKey`: the namespace and the name.
  pub split_meta_namespace_key : String → Result (String × String)
  -- `v1helpers.IsStatusConditionTrue` and `IsStatusConditionFalse`.
  pub is_status_condition_true : List Condition → String → Bool
  pub is_status_condition_false : List Condition → String → Bool
