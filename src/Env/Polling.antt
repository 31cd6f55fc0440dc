-- ===== src/Env/Polling.antt =====
-- What `wait.PollImmediate` and `Eventually` are documented to do: they run the condition at once,
-- and again after each interval, until it is met, it fails, or the time is up. How many attempts
-- the time allows is not known.
use cluster_api_actuator_pkg.Base.{
  ℕ, zero, suc, ◌≡◌, Bool, true, false, Option, none, some, ◌⊎◌, inl, inr, Bool-cases, arith,
}
use cluster_api_actuator_pkg.Api.{Error, Result, ok, err}
use cluster_api_actuator_pkg.Monad.{M, returned, assertion, pure, stop, ◌>>=◌, >>=-returned}

module _ {W S : Type 0} (pause : W → W) (timed_out : Error) (cond : S → M W (Result Bool × S)) where
  -- What follows an attempt: `again` is run if the condition is not met yet.
  abbrev after_attempt : (S → M W (Option Error × S)) → Result Bool × S → M W (Option Error × S)
  after_attempt again (ok true, s) = pure (none, s)
  after_attempt again (ok false, s) = again s
  after_attempt again (err e, s) = pure (some e, s)

  -- At most `n` further attempts after the first.
  unfoldable pub attempts : ℕ → S → M W (Option Error × S)
  attempts zero s = cond s >>= after_attempt (λ s'. pure (some timed_out, s'))
  attempts (suc n) s = cond s >>= after_attempt (λ s' w. attempts n s' (pause w))

  -- An attempt that left no error either met the condition or was followed by another.
  after_attempt-none :
      (again : S → M W (Option Error × S)) (r : Result Bool × S) (v : W) {s' : S} {w' : W}
      → after_attempt again r v ≡ (returned (none, s'), w')
      → ((r ≡ (ok true, s')) × (v ≡ w')) ⊎ (again r.1 v ≡ (returned (none, s'), w'))
  after_attempt-none again (ok true, s) v h = inl (cc, cc)
  after_attempt-none again (ok false, s) v h = inr h
  after_attempt-none again (err e, s) v h = cc

  -- Polling that ended without an error ended with an attempt that met the condition.
  pub attempts_success :
      (n : ℕ) (s : S) (w : W) {s' : S} {w' : W}
      → attempts n s w ≡ (returned (none, s'), w')
      → (s₀ : S) × (w₀ : W) × (cond s₀ w₀ ≡ (returned (ok true, s'), w'))
  unfolding attempts
  attempts_success zero s w h =
      let (r, v, e, g) =
        >>=-returned (after_attempt (λ s'. pure (some timed_out, s'))) (cond s) w h in
      elim (after_attempt-none _ r v g) [ inl (p, q) ↦ (s, w, cc) | inr g' ↦ cc ]
  attempts_success (suc n) s w h =
      let (r, v, e, g) =
        >>=-returned (after_attempt (λ s' w. attempts n s' (pause w))) (cond s) w h in
      elim (after_attempt-none _ r v g) [
        | inl (p, q) ↦ (s, w, cc)
        | inr g' ↦ attempts_success n r.1 (pause v) g'
      ]

  -- The first attempt decides, unless it says that the condition is not met yet.
  pub attempts_first :
      (n : ℕ) (s : S) (w : W) {s' : S} {w' : W}
      → cond s w ≡ (returned (ok true, s'), w')
      → attempts n s w ≡ (returned (none, s'), w')
  unfolding attempts
  attempts_first zero s w h = ground arith
  attempts_first (suc n) s w h = ground arith

  pub attempts_error :
      (n : ℕ) (s : S) (w : W) {e : Error} {s' : S} {w' : W}
      → cond s w ≡ (returned (err e, s'), w')
      → attempts n s w ≡ (returned (some e, s'), w')
  unfolding attempts
  attempts_error zero s w h = ground arith
  attempts_error (suc n) s w h = ground arith

module _ {W S A : Type 0} (pause : W → W) (f : S → M W (A × S)) (matcher : A → Bool) where
  -- The matcher holds of the value, or `again` is run.
  abbrev after_match : (S → M W S) → A × S → M W S
  after_match again (a, s) w = elim (matcher a) [ true ↦ pure s w | false ↦ again s w ]

  after_match_returned :
      (again : S → M W S) (r : A × S) (v : W) {s' : S} {w' : W}
      → after_match again r v ≡ (returned s', w')
      → ((r.1 ≡ s') × (v ≡ w') × (matcher r.0 ≡ true))
        ⊎ ((matcher r.0 ≡ false) × (again r.1 v ≡ (returned s', w')))
  after_match_returned again r v h = elim (Bool-cases (matcher r.0)) [
    | inl good ↦ inl (ground arith, ground arith, good)
    | inr bad ↦ inr (bad, ground arith)
  ]

  unfoldable pub eventual : ℕ → S → M W S
  eventual zero s = f s >>= after_match (λ s'. stop assertion)
  eventual (suc n) s = f s >>= after_match (λ s' w. eventual n s' (pause w))

  -- An `Eventually` that let the spec go on saw a value that its matcher accepts, in a state that
  -- has every property which each look keeps whose value the matcher does not accept.
  pub eventual_kept :
      (P : S → Type 0)
      → ((s : S) (w : W) (a : A) (s' : S) (w' : W)
          → P s
          → f s w ≡ (returned (a, s'), w')
          → matcher a ≡ false
          → P s')
      → (n : ℕ) (s : S) (w : W) {s' : S} {w' : W} → P s
      → eventual n s w ≡ (returned s', w')
      → (s₀ : S) × (w₀ : W) × (a : A) × P s₀
        × (f s₀ w₀ ≡ (returned (a, s'), w'))
        × (matcher a ≡ true)
  unfolding eventual
  eventual_kept P keep zero s w p h =
      let (r, v, e, g) = >>=-returned (after_match (λ s'. stop assertion)) (f s) w h in
      elim (after_match_returned (λ s'. stop assertion) r v g) [
        | inl (q, x, m) ↦ (s, w, r.0, p, (cc), m)
        | inr (bad, g') ↦ cc
      ]
  eventual_kept P keep (suc n) s w p h =
      let (r, v, e, g) = >>=-returned (after_match (λ s' w. eventual n s' (pause w))) (f s) w h in
      elim (after_match_returned (λ s' w. eventual n s' (pause w)) r v g) [
        | inl (q, x, m) ↦ (s, w, r.0, p, (cc), m)
        | inr (bad, g') ↦ eventual_kept P keep n r.1 (pause v) (keep s w r.0 r.1 v p e bad) g'
      ]

  pub eventual_success :
      (n : ℕ) (s : S) (w : W) {s' : S} {w' : W}
      → eventual n s w ≡ (returned s', w')
      → (s₀ : S) × (w₀ : W) × (a : A) × (f s₀ w₀ ≡ (returned (a, s'), w')) × (matcher a ≡ true)
  eventual_success n s w h =
      let (s₀, w₀, a, _, run, m) =
        eventual_kept (λ _. Unit {0}) (λ s w a s' w' p e bad. tt) n s w tt h in
      (s₀, w₀, a, run, m)

  -- A first attempt with a value that the matcher accepts ends the waiting.
  pub eventual_first :
      (n : ℕ) (s : S) (w : W) (a : A) {s' : S} {w' : W}
      → f s w ≡ (returned (a, s'), w')
      → matcher a ≡ true
      → eventual n s w ≡ (returned s', w')
  unfolding eventual
  eventual_first zero s w a h m = ground arith
  eventual_first (suc n) s w a h m = ground arith
