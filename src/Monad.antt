-- ===== src/Monad.antt =====
-- Go code that talks to a cluster: it changes an unknown world, and may end the running spec.
use cluster_api_actuator_pkg.Base.{
  ◌≡◌, refl, ◌⊎◌, inl, inr, Bool, true, false, Option, none, some, List, [], ◌∷◌,
}
use cluster_api_actuator_pkg.Api.{Error, Result, ok, err}

-- How a spec ends before its last line: a failed `Expect`, a call of `Skip`, or a run-time panic.
pub data Stop : Type 0 where
  assertion skip panic : Stop

pub data Outcome (A : Type 0) : Type 0 where
  returned : A → Outcome A
  stopped : Stop → Outcome A

abbrev pub M : Type 0 → Type 0 → Type 0
M W A = W → Outcome A × W

abbrev pub pure : {W A : Type 0} → A → M W A
pure a w = (returned a, w)

abbrev pub stop : {W A : Type 0} → Stop → M W A
stop s w = (stopped s, w)

-- A call of the outside, which always returns.
abbrev pub call : {W A : Type 0} → (W → A × W) → M W A
call f w = let (a, w') = f w in (returned a, w')

infixl 5 ◌>>=◌ ◌>>◌
abbrev pub ◌>>=◌ : {W A B : Type 0} → M W A → (A → M W B) → M W B
◌>>=◌ m f w = let (o, w') = m w in elim o [ returned a ↦ f a w' | stopped s ↦ (stopped s, w') ]

abbrev pub ◌>>◌ : {W B : Type 0} → M W (Unit {0}) → M W B → M W B
m >> k = m >>= λ _. k

-- `Expect(b).To(BeTrue())` and its like.
abbrev pub expect : {W : Type 0} → Bool → M W (Unit {0})
expect true = pure tt
expect false = stop assertion

-- `Expect(err).NotTo(HaveOccurred())`
abbrev pub expect_no_error : {W : Type 0} → Option Error → M W (Unit {0})
expect_no_error none = pure tt
expect_no_error (some _) = stop assertion

-- The value of a call whose error is expected not to have occurred.
abbrev pub expect_ok : {W A : Type 0} → M W (Result A) → M W A
expect_ok m = m >>= λ r. elim r [ ok a ↦ pure a | err _ ↦ stop assertion ]

-- `if err != nil { return nil, … }`: goes on with the value, or returns the error, changed by `f`.
abbrev pub or_return :
    {W A B : Type 0} → M W (Result A) → (Error → Error) → (A → M W (Result B)) → M W (Result B)
or_return m f k = m >>= λ r. elim r [ ok a ↦ k a | err e ↦ pure (err (f e)) ]

-- `xs[0]`, which panics on an empty slice.
abbrev pub first : {W A : Type 0} → List A → M W A
first [] = stop panic
first (x ∷ xs) = pure x

-- Every value that the run returns has the property `F`.
pub record Returns {W A : Type 0} (F : A → Type 0) (m : M W A) : Type 0 where
  pub at : (w : W) (a : A) (w' : W) → m w ≡ (returned a, w') → F a

module _ {W A B : Type 0} (f : A → M W B) {b : B} {w' : W} where
  split_run :
      (r : Outcome A × W)
      → elim r.0 [ returned a ↦ f a r.1 | stopped s ↦ (stopped s, r.1) ] ≡ (returned b, w')
      → (a : A) × (v : W) × (r ≡ (returned a, v)) × (f a v ≡ (returned b, w'))
  split_run (returned a, v) h = (a, v, refl, h)
  split_run (stopped s, v) h = cc

  -- A run that returned went through both parts of a sequence.
  pub >>=-returned :
      (m : M W A) (w : W)
      → (m >>= f) w ≡ (returned b, w')
      → (a : A) × (v : W) × (m w ≡ (returned a, v)) × (f a v ≡ (returned b, w'))
  >>=-returned m w h = split_run (m w) h

abbrev carry : {W A S : Type 0} → S → A → M W (A × S)
carry s a = pure (a, s)

carried_run :
    {W A S : Type 0} (r : Outcome A × W) (s : S) {t : S} {a : A} {w' : W}
    → ((λ (_ : W). r) >>= carry s) r.1 ≡ (returned (a, t), w')
    → r ≡ (returned a, w')
carried_run (returned b, v) s h = cc
carried_run (stopped x, v) s h = cc

-- A run that only carries a value `s` on gives what the run without it gives.
pub >>=-carried :
    {W A S : Type 0} (m : M W A) (w : W) (s : S) {t : S} {a : A} {w' : W}
    → (m >>= carry s) w ≡ (returned (a, t), w')
    → m w ≡ (returned a, w')
>>=-carried m w s h = carried_run (m w) s h

-- How a run that yields a Go pair of a value and an error can end.
pub Result-cases :
    {W A : Type 0} (o : Outcome (Result A) × W)
    → ((a : A) × (v : W) × (o ≡ (returned (ok a), v)))
      ⊎ (((e : Error) × (v : W) × (o ≡ (returned (err e), v)))
          ⊎ ((s : Stop) × (v : W) × (o ≡ (stopped s, v))))
Result-cases (returned (ok a), v) = inl (a, v, refl)
Result-cases (returned (err e), v) = inr (inl (e, v, refl))
Result-cases (stopped s, v) = inr (inr (s, v, refl))

-- How an API call can end.
pub Call-cases :
    {W A : Type 0} (r : Result A × W)
    → ((a : A) × (v : W) × (r ≡ (ok a, v))) ⊎ ((e : Error) × (v : W) × (r ≡ (err e, v)))
Call-cases (ok a, v) = inl (a, v, refl)
Call-cases (err e, v) = inr (e, v, refl)

pub Value-cases : {A : Type 0} (r : Result A) → ((a : A) × (r ≡ ok a)) ⊎ ((e : Error) × (r ≡ err e))
Value-cases (ok a) = inl (a, refl)
Value-cases (err e) = inr (e, refl)

pub Run-cases :
    {W A : Type 0} (o : Outcome A × W)
    → ((a : A) × (v : W) × (o ≡ (returned a, v))) ⊎ ((s : Stop) × (v : W) × (o ≡ (stopped s, v)))
Run-cases (returned a, v) = inl (a, v, refl)
Run-cases (stopped s, v) = inr (s, v, refl)

-- How a call that yields a Go `error` can end.
pub Error-cases :
    {W : Type 0} (r : Option Error × W)
    → ((v : W) × (r ≡ (none, v))) ⊎ ((e : Error) × (v : W) × (r ≡ (some e, v)))
Error-cases (none, v) = inl (v, refl)
Error-cases (some e, v) = inr (e, v, refl)

-- `defer`: `after` runs however `m` has ended, and its own failure comes first.
abbrev pub with_defer : {W A : Type 0} → M W A → M W (Unit {0}) → M W A
with_defer m after w =
    let (o, v) = m w in
    let (p, w') = after v in elim p [ returned _ ↦ (o, w') | stopped s ↦ (stopped s, w') ]
