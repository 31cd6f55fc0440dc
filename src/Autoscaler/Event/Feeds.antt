-- ===== src/Autoscaler/Event/Feeds.antt =====
-- A handler of the watcher that feeds a counter on the heap, beside others that leave that counter
-- alone (pkg/autoscaler/event.go).
use cluster_api_actuator_pkg.Base.{
  ℕ, zero, suc, ◌≡◌, refl, ◌≢◌, inl, inr, Bool, ◌&&◌, ◌||◌, some, List, [], ◌∷◌, ◌++◌, length,
  get_elem?, get_elem?-set, get_elem?-lt, All, All-append, ◌==◌, Option-cases, if◌then◌else◌, arith,
}
use cluster_api_actuator_pkg.Autoscaler.Event.{
  CounterType, Event, MatchEventFunc, EventHandlerFunc, EventHandler, Heap, offer, offer_all,
  enable_at, bump, count_handler,
}
use cluster_api_actuator_pkg.Autoscaler.Event.Run.{Action, register, add_counter}

-- Running `f` leaves the counter at `a` as it is.
abbrev pub Keeps : ℕ → (Heap → Heap) → Type 0
Keeps a f =
    (heap : Heap) (v : ℕ)
    → get_elem? heap.counters a ≡ some v
    → get_elem? (f heap).counters a ≡ some v

-- A handler that never writes to the counter at `a`.
pub record IsFair (a : ℕ) (m : MatchEventFunc) (h : EventHandlerFunc) : Type 0 where
  pub matcher_keeps : (e : Event) → Keeps a (λ heap. (m e heap).1)
  pub handler_keeps : (e : Event) → Keeps a (h e)

-- A matcher that accepts what `p` accepts, and never writes to the counter at `a`.
pub record Accepts (a : ℕ) (p : Event → Bool) (m : MatchEventFunc) : Type 0 where
  pub accepts : (e : Event) (heap : Heap) → (m e heap).0 ≡ p e
  pub keeps : (e : Event) → Keeps a (λ heap. (m e heap).1)

abbrev pub IsFairHandler : ℕ → EventHandler → Type 0
IsFairHandler a h = IsFair a h.matcher h.handler

-- What a step must respect: a handler that it registers is fair to the counter at `a`.
abbrev pub IsPolite : ℕ → Action → Type 0
IsPolite a (register m h) = IsFair a m h
IsPolite a (add_counter m _ _) = (e : Event) → Keeps a (λ heap. (m e heap).1)
IsPolite a _ = Unit

pub count_handler-Keeps :
    (t : CounterType) (a b : ℕ) (e : Event) → b ≢ a → Keeps a (count_handler t b e)
unfolding count_handler
count_handler-Keeps t a b e ne heap v h = elim (Option-cases (get_elem? heap.counters b)) [
  | inl absent ↦ ground arith
  | inr (w, found) ↦
      ground (arith, get_elem?-lt heap.counters b found, get_elem?-set heap.counters b a (bump t w))
]

count_handler-counts :
    (t : CounterType) (a : ℕ) (e : Event) (heap : Heap) (v : ℕ)
    → get_elem? heap.counters a ≡ some v
    → get_elem? (count_handler t a e heap).counters a ≡ some (bump t v)
unfolding count_handler
count_handler-counts t a e heap v h =
    ground (arith, get_elem?-lt heap.counters a h, get_elem?-set heap.counters a a (bump t v))

module _ (a : ℕ) where
  offer-fair : (e : Event) (h : EventHandler) → IsFairHandler a h → Keeps a (offer e h)
  unfolding offer
  offer-fair e h f heap v g =
      ground (arith, f.matcher_keeps e heap v g, f.handler_keeps e (h.matcher e heap).1 v)

  pub offer_all-fair :
      (e : Event) (hs : List EventHandler) → All (IsFairHandler a) hs → Keeps a (offer_all e hs)
  unfolding offer_all
  offer_all-fair e [] f heap v g = g
  offer_all-fair e (h ∷ hs) f heap v g =
      offer_all-fair e hs f.1 (offer e h heap) v (offer-fair e h f.0 heap v g)

module _ (a : ℕ) (t : CounterType) (p : Event → Bool) where
  -- The handler at position `i` feeds the counter at `a`, is on or off, and is the only one.
  abbrev pub Feeds : ℕ → Bool → List EventHandler → Type 0
  Feeds i on [] = ⊥
  Feeds zero on (h ∷ hs) =
      Accepts a p h.matcher
      × (h.handler ≡ count_handler t a)
      × (h.enabled ≡ on)
      × All (IsFairHandler a) hs
  Feeds (suc i) on (h ∷ hs) = IsFairHandler a h × Feeds i on hs

  offer-counts :
      (e : Event) (h : EventHandler) (heap : Heap) (v : ℕ)
      → Accepts a p h.matcher
      → h.handler ≡ count_handler t a
      → get_elem? heap.counters a ≡ some v
      → get_elem? (offer e h heap).counters a ≡ some (if h.enabled && p e then bump t v else v)
  unfolding offer
  offer-counts e h heap v m c g = ground (
    arith,
    m.accepts e heap,
    m.keeps e heap v g,
    count_handler-counts t a e (h.matcher e heap).1 v,
  )

  pub offer_all-counts :
      (e : Event) (i : ℕ) (on : Bool) (hs : List EventHandler) (heap : Heap) (v : ℕ)
      → Feeds i on hs
      → get_elem? heap.counters a ≡ some v
      → get_elem? (offer_all e hs heap).counters a ≡ some (if on && p e then bump t v else v)
  unfolding offer_all
  offer_all-counts e i on [] heap v f g = absurd f
  offer_all-counts e zero on (h ∷ hs) heap v f g =
      offer_all-fair a e hs f.3 (offer e h heap) _ (rw (← f.2) (offer-counts e h heap v f.0 f.1 g))
  offer_all-counts e (suc i) on (h ∷ hs) heap v f g =
      offer_all-counts e i on hs (offer e h heap) v f.1 (offer-fair a e h f.0 heap v g)

  pub fair-enable_at :
      (j : ℕ) (hs : List EventHandler)
      → All (IsFairHandler a) hs
      → All (IsFairHandler a) (enable_at j hs)
  unfolding enable_at
  fair-enable_at j [] f = tt
  fair-enable_at zero (h ∷ hs) f = f
  fair-enable_at (suc j) (h ∷ hs) f =
      ground (arith, Option-cases (get_elem? hs j), fair-enable_at j hs f.1)

  pub Feeds-enable_at :
      (i j : ℕ) (on : Bool) (hs : List EventHandler)
      → Feeds i on hs
      → Feeds i (on || j == i) (enable_at j hs)
  unfolding enable_at
  Feeds-enable_at i j on [] f = absurd f
  Feeds-enable_at zero zero on (h ∷ hs) f = ground arith
  Feeds-enable_at zero (suc j) on (h ∷ hs) f =
      ground (arith, Option-cases (get_elem? hs j), fair-enable_at j hs f.3)
  Feeds-enable_at (suc i) zero on (h ∷ hs) f = ground arith
  Feeds-enable_at (suc i) (suc j) on (h ∷ hs) f =
      ground (arith, Option-cases (get_elem? hs j), Feeds-enable_at i j on hs f.1)

  pub Feeds-append :
      (i : ℕ) (on : Bool) (hs : List EventHandler) (h : EventHandler)
      → IsFairHandler a h
      → Feeds i on hs
      → Feeds i on (hs ++ (h ∷ []))
  Feeds-append i on [] h g f = absurd f
  Feeds-append zero on (x ∷ hs) h g f = (f.0, f.1, f.2, All-append _ hs (h ∷ []) f.3 (g, tt))
  Feeds-append (suc i) on (x ∷ hs) h g f = (f.0, Feeds-append i on hs h g f.1)

  pub Feeds-last :
      (hs : List EventHandler) (h : EventHandler)
      → All (IsFairHandler a) hs
      → Accepts a p h.matcher
      → h.handler ≡ count_handler t a
      → Feeds (length hs) h.enabled (hs ++ (h ∷ []))
  Feeds-last [] h f m c = (m, c, refl, tt)
  Feeds-last (x ∷ hs) h f m c = (f.0, Feeds-last hs h f.1 m c)
