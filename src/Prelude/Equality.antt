-- ===== src/Prelude/Equality.antt =====
-- One `==` for numbers and texts, by instances.
use Prim.Native.Nat.{ℕ}
use Prim.Native.String.{String}
use mathlib.Core.Path.{◌≡◌}
use mathlib.Core.Logic.{◌↔◌}
use mathlib.Core.Bool.{Bool, true, false, ◌||◌}
use mathlib.Core.List.{List, [], ◌∷◌}
use text.Mathlib.Text.{◌==◌ as str_beq}
use text.Mathlib.TextEquality.{eq_iff as str_eq_iff}
use desktop_worker.Prelude.Tests.{nat_beq, nat_beq_iff}

-- A type whose values the program compares, with the law of the comparison.
pub record Eq {ℓ} (T : Type ℓ) : Type ℓ where
  pub test : T → T → Bool
  pub law : (x y : T) → (test x y ≡ true) ↔ (x ≡ y)

infix 50 ◌==◌
abbrev pub ◌==◌ {ℓ} : {T : Type ℓ} ⦃eq : Eq T⦄ → T → T → Bool
◌==◌ ⦃eq⦄ x y = eq.test x y

instance abbrev pub string_eq : Eq String
string_eq = record { test = str_beq; law = str_eq_iff }

instance abbrev pub nat_eq : Eq ℕ
nat_eq = record { test = nat_beq; law = nat_beq_iff }

-- The law of `==` on texts, which `ground` takes at each pair that is compared.
pub eq_iff : (s t : String) → ((s == t) ≡ true) ↔ (s ≡ t)
eq_iff s t = str_eq_iff s t

-- `s in names`
abbrev pub contains : List String → String → Bool
contains [] s = false
contains (x ∷ xs) s = s == x || contains xs s
