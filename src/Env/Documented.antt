-- ===== src/Env/Documented.antt =====
-- The documented behaviour of the calls that are parameters, as hypotheses, and what follows for
-- the waiting functions of the packages.
use cluster_api_actuator_pkg.Base.{ℕ, ◌≡◌, ◌∙◌, sym, Bool, true, false, none, some}
use cluster_api_actuator_pkg.Api.{Error, Result, ok, err}
use cluster_api_actuator_pkg.Monad.{M, returned}
use cluster_api_actuator_pkg.Env.{Env}
use cluster_api_actuator_pkg.Env.Polling.{
  attempts, attempts_success, attempts_first, attempts_error, eventual, eventual_success,
  eventual_first, eventual_kept,
}

-- Polling makes one attempt at once, and then some number of further attempts with pauses between
-- them, in which the world may change at will. That no error is no "not found" error.
pub record IsDocumented (env : Env) : Type 1 where
  pub polls :
      (S : Type 0) (interval timeout : ℕ) (cond : S → M (env.World) (Result Bool × S)) (s : S)
      (w : env.World)
      → (pause : env.World → env.World) × (timed_out : Error) × (n : ℕ) × (env.poll_immediate S
            interval timeout cond s w
          ≡ attempts pause timed_out cond n s w)
  pub eventually_polls :
      (S A : Type 0) (interval timeout : ℕ) (f : S → M (env.World) (A × S)) (matcher : A → Bool)
      (s : S) (w : env.World)
      → (pause : env.World → env.World) × (n : ℕ) × (env.eventually S A interval timeout f matcher s
            w
          ≡ eventual pause f matcher n s w)
  pub not_found_none : env.is_not_found none ≡ false

module _ (env : Env) (doc : IsDocumented env) where
  open env use {World}

  -- A call of `wait.PollImmediate` without an error ended with an attempt that returned `true`.
  pub poll-success :
      (S : Type 0) (i t : ℕ) (cond : S → M World (Result Bool × S)) (s : S) (w : World) {s' : S}
      {w' : World}
      → env.poll_immediate S i t cond s w ≡ (returned (none, s'), w')
      → (s₀ : S) × (w₀ : World) × (cond s₀ w₀ ≡ (returned (ok true, s'), w'))
  poll-success S i t cond s w h =
      let (pause, late, n, e) = doc.polls S i t cond s w in
      attempts_success pause late cond n s w (sym e ∙ h)

  pub poll-first :
      (S : Type 0) (i t : ℕ) (cond : S → M World (Result Bool × S)) (s : S) (w : World) {s' : S}
      {w' : World}
      → cond s w ≡ (returned (ok true, s'), w')
      → env.poll_immediate S i t cond s w ≡ (returned (none, s'), w')
  poll-first S i t cond s w h =
      let (pause, late, n, e) = doc.polls S i t cond s w in
      e ∙ attempts_first pause late cond n s w h

  pub poll-error :
      (S : Type 0) (i t : ℕ) (cond : S → M World (Result Bool × S)) (s : S) (w : World) {e : Error}
      {s' : S} {w' : World}
      → cond s w ≡ (returned (err e, s'), w')
      → env.poll_immediate S i t cond s w ≡ (returned (some e, s'), w')
  poll-error S i t cond s w h =
      let (pause, late, n, e) = doc.polls S i t cond s w in
      e ∙ attempts_error pause late cond n s w h

  pub eventually-success :
      (S A : Type 0) (i t : ℕ) (f : S → M World (A × S)) (matcher : A → Bool) (s : S) (w : World)
      {s' : S} {w' : World}
      → env.eventually S A i t f matcher s w ≡ (returned s', w')
      → (s₀ : S) × (w₀ : World) × (a : A) × (f s₀ w₀ ≡ (returned (a, s'), w')) × (matcher a ≡ true)
  eventually-success S A i t f matcher s w h =
      let (pause, n, e) = doc.eventually_polls S A i t f matcher s w in
      eventual_success pause f matcher n s w (sym e ∙ h)

  pub eventually-first :
      (S A : Type 0) (i t : ℕ) (f : S → M World (A × S)) (matcher : A → Bool) (s : S) (w : World)
      (a : A) {s' : S} {w' : World}
      → f s w ≡ (returned (a, s'), w')
      → matcher a ≡ true
      → env.eventually S A i t f matcher s w ≡ (returned s', w')
  eventually-first S A i t f matcher s w a h m =
      let (pause, n, e) = doc.eventually_polls S A i t f matcher s w in
      e ∙ eventual_first pause f matcher n s w a h m

  pub eventually-kept :
      (S A : Type 0) (i t : ℕ) (f : S → M World (A × S)) (matcher : A → Bool) (P : S → Type 0)
      → ((s : S) (w : World) (a : A) (s' : S) (w' : World)
          → P s
          → f s w ≡ (returned (a, s'), w')
          → matcher a ≡ false
          → P s')
      → (s : S) (w : World) {s' : S} {w' : World} → P s
      → env.eventually S A i t f matcher s w ≡ (returned s', w')
      → (s₀ : S) × (w₀ : World) × (a : A) × P s₀
        × (f s₀ w₀ ≡ (returned (a, s'), w'))
        × (matcher a ≡ true)
  eventually-kept S A i t f matcher P keep s w p h =
      let (pause, n, e) = doc.eventually_polls S A i t f matcher s w in
      eventual_kept pause f matcher P keep n s w p (sym e ∙ h)
