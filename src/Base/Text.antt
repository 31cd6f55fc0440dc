-- ===== src/Base/Text.antt =====
-- Text, as the functions of Go's packages `strings`, `fmt` and `path` see it.
use Prim.Native.Nat.{ℕ, zero, suc, ◌/◌, ◌%◌}
use Prim.Native.String.{String, ◌++◌ as ◌<>◌}
use mathlib.Core.Path.{◌≡◌}
use mathlib.Core.Logic.{◌↔◌}
use mathlib.Core.Bool.{Bool, true, false}
use mathlib.Core.Option.{none, some}
use text.Mathlib.Text
use text.Mathlib.Text.{starts_with, find?}
use text.Mathlib.TextEquality.{eq_iff}
use cluster_api_actuator_pkg.Base.Tests.{ltb, if◌then◌else◌}

infix 50 ◌=s◌
-- `==` on strings.
abbrev pub ◌=s◌ : String → String → Bool
s =s t = Text.◌==◌ s t

pub =s_iff : (s t : String) → ((s =s t) ≡ true) ↔ (s ≡ t)
=s_iff s t = eq_iff s t

-- `strings.HasPrefix(s, prefix)`
abbrev pub has_prefix : String → String → Bool
has_prefix s prefix = starts_with s prefix

-- `strings.Contains(s, substr)`
abbrev pub contains : String → String → Bool
contains s substr = elim (find? s substr) [ none ↦ false | some _ ↦ true ]

abbrev digit : ℕ → String
digit zero = "0"
digit (suc zero) = "1"
digit (suc (suc zero)) = "2"
digit (suc (suc (suc zero))) = "3"
digit (suc (suc (suc (suc zero)))) = "4"
digit (suc (suc (suc (suc (suc zero))))) = "5"
digit (suc (suc (suc (suc (suc (suc zero)))))) = "6"
digit (suc (suc (suc (suc (suc (suc (suc zero))))))) = "7"
digit (suc (suc (suc (suc (suc (suc (suc (suc zero)))))))) = "8"
digit _ = "9"

itoa_fuel : ℕ → ℕ → String
itoa_fuel zero n = ""
itoa_fuel (suc f) n =
    let more = itoa_fuel f (n / 10) in if ltb n 10 then digit n else more <> digit (n % 10)

-- `fmt.Sprintf("%d", n)`. A number has fewer digits than its value plus one.
unfoldable pub itoa : ℕ → String
unfolding itoa_fuel
itoa n = itoa_fuel (suc n) n

-- `fmt.Sprintf("%q", s)`, for a text with nothing to escape, such as the name of an API object.
abbrev pub quoted : String → String
quoted s = "\"" <> s <> "\""
