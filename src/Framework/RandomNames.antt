-- ===== src/Framework/RandomNames.antt =====
-- pkg/framework/framework.go: the names that `RandomString` gives, as texts.
use Prim.Native.Char.{Char, code, len_utf8}
use Prim.Native.Nat.{compare as compare_ℕ, Ordering}
use Prim.Native.String.slice
use Prim.Native.String.len
use Prim.Native.String.{slice, len, fits}
use text.Mathlib.TextPositions.{len-append, starts_with-append}
use text.Mathlib.TextLemmas.{nil-append, cons-append}
use native.Mathlib.Omega.{compare-lt, compare-eq}
use cluster_api_actuator_pkg.Base.{
  ℕ, ◌-◌, ◌≤◌, ◌<◌, has_prefix, ◌≡◌, ◌≢◌, refl, inl, inr, ap, ◌∙◌, true, false, Option, none, some,
  String, ◌<>◌, ◌==◌, if◌then◌else◌, Option-cases, arith,
}

-- The number of bytes after the text's last dash, if it has one.
unfoldable after_dash : String → Option ℕ
after_dash String.[] = none
after_dash (String.◌∷◌ c s) = elim (after_dash s) [
  | some n ↦ some n
  | none ↦ if code c == 45 then some (len s) else none
]

-- A text, a dash, and at most six bytes.
abbrev pub IsRandom : String → Type 0
IsRandom name = (s : String) × (t : String) × (name ≡ s <> ("-" <> t)) × (len t ≤ 6)

after_dash-le : (s : String) (n : ℕ) → after_dash s ≡ some n → n ≤ len s
unfolding after_dash
after_dash-le String.[] n h = absurd (cc)
after_dash-le (String.◌∷◌ c s) n h = elim (Option-cases (after_dash s)) [
  | inl plain ↦ ground (arith, len.cons c s)
  | inr (m, found) ↦ ground (arith, len.cons c s, after_dash-le s m found)
]

after_dash-cons_some :
    (c : Char) (s : String) (n : ℕ) → after_dash s ≡ some n → after_dash (String.◌∷◌ c s) ≡ some n
unfolding after_dash
after_dash-cons_some c s n h = ground arith

after_dash-dash : (s : String) → after_dash s ≡ none → after_dash (String.◌∷◌ "-" s) ≡ some (len s)
unfolding after_dash
after_dash-dash s h = ground arith

dash-append : (t : String) → "-" <> t ≡ String.◌∷◌ "-" t
dash-append t = cons-append "-" "" t ∙ ap (String.◌∷◌ "-") (nil-append t)

after_dash-append : (s t : String) → (n : ℕ) × (after_dash (s <> ("-" <> t)) ≡ some n) × (n ≤ len t)
unfolding after_dash
after_dash-append String.[] t = elim (Option-cases (after_dash t)) [
  | inl plain ↦ (
    len t,
    ap after_dash (nil-append ("-" <> t) ∙ dash-append t) ∙ after_dash-dash t plain,
    omega arith,
  )
  | inr (m, found) ↦ (
    m,
    ap after_dash (nil-append ("-" <> t) ∙ dash-append t) ∙ after_dash-cons_some "-" t m found,
    after_dash-le t m found,
  )
]
after_dash-append (String.◌∷◌ c s) t =
    let (n, last, few) = after_dash-append s t in
    (
      n,
      ap after_dash (cons-append c s ("-" <> t)) ∙ after_dash-cons_some c (s <> ("-" <> t)) n last,
      few,
    )

-- A character that fits leaves the rest of the room to the text after it.
fitted :
    (c : Char) (rest : String) (k : ℕ)
    → len rest ≤ k - len_utf8 c
    → (o : Ordering) → compare_ℕ (len_utf8 c) k ≡ o
    → {s : String} → s ≡ fits (compare_ℕ (len_utf8 c) k) c rest
    → len s ≤ k
fitted c rest k short Ordering.lt e {s} same =
    let all : s ≡ String.◌∷◌ c rest = same ∙ ap (λ o. fits o c rest) e in
    rw all (ground (arith, compare-lt _ _ e, len.cons c rest))
fitted c rest k short Ordering.eq e {s} same =
    let all : s ≡ String.◌∷◌ c rest = same ∙ ap (λ o. fits o c rest) e in
    rw all (ground (arith, compare-eq _ _ e, len.cons c rest))
fitted c rest k short Ordering.gt e {s} same =
    let all : s ≡ "" = same ∙ ap (λ o. fits o c rest) e in rw all (ground (arith, len.nil))

pub slice-le : (s : String) (k : ℕ) → len (slice s 0 k) ≤ k
slice-le String.[] k =
    let empty : slice "" 0 k ≡ "" = slice.nil 0 k in
    let none_left : len "" ≡ 0 = len.nil in rw empty (ground (arith, none_left))
slice-le (String.◌∷◌ c s) k =
    fitted c (slice s 0 (k - len_utf8 c)) k (slice-le s (k - len_utf8 c)) (compare_ℕ (len_utf8 c) k)
      refl (slice.cons-zero c s k)

pub IsRandom-workload : (name : String) → IsRandom name → name ≢ "e2e-autoscaler-workload"
unfolding after_dash
IsRandom-workload name (s, t, made, short) same =
    let (n, last, few) = after_dash-append s t in
    let eight : after_dash name ≡ some 8 = ap after_dash same in
    let found : after_dash name ≡ some n = ap after_dash made ∙ last in absurd (ground arith)

pub IsRandom-default : (name : String) → IsRandom name → name ≢ "default"
unfolding after_dash
IsRandom-default name (s, t, made, short) same =
    let (n, last, few) = after_dash-append s t in
    let undashed : after_dash name ≡ none = ap after_dash same in
    let found : after_dash name ≡ some n = ap after_dash made ∙ last in absurd (cc)

-- A name made from a prefix is not a text without that prefix.
pub prefix-other :
    (prefix rest other : String) → has_prefix other prefix ≡ false → prefix <> rest ≢ other
prefix-other prefix rest other lacks same =
    let starts : has_prefix (prefix <> rest) prefix ≡ true = starts_with-append prefix rest in
    absurd (cc)

-- A longer text is another one.
pub longer-other : (s t u : String) → 0 < len s → (s <> t) <> u ≢ t
longer-other s t u some_more same =
    let all : len ((s <> t) <> u) ≡ len t = ap len same in
    absurd (ground (arith, len-append (s <> t) u, len-append s t))

pub dash-non_empty : (s t : String) → s <> ("-" <> t) ≢ ""
dash-non_empty s t same =
    let all : len (s <> ("-" <> t)) ≡ len "" = ap len same in
    absurd (ground (arith, len-append s ("-" <> t), len-append "-" t))
