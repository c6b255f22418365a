-- ===== src/Base/Equality.antt =====
-- `==` of the types whose equality the source tests.
use Prim.Native.Nat.{ℕ}
use mathlib.Core.Path.{refl, ap₂}
use mathlib.Core.Logic.{ite, dite}
use mathlib.Core.Bool.{Bool, true, false}
use mathlib.Core.List.{List, [], ◌∷◌}
use native.Mathlib.Decide.{ℕ_discrete}

pub record Eq {ℓ} (A : Type ℓ) : Type ℓ where
  pub dec : Discrete A

infix 50 ◌==◌
abbrev pub ◌==◌ {ℓ} : {A : Type ℓ} ⦃e : Eq A⦄ → A → A → Bool
◌==◌ ⦃e⦄ a b = ite (e.dec a b) true false

module _ {ℓ} {A : Type ℓ} (d : Discrete A) where
  list_dec : Discrete (List A)
  list_dec [] [] = yes refl
  list_dec [] (y ∷ ys) = no (λ e. cc)
  list_dec (x ∷ xs) [] = no (λ e. cc)
  list_dec (x ∷ xs) (y ∷ ys) =
      let rest = list_dec xs ys in
      dite (d x y) (λ p. dite rest (λ q. yes (ap₂ ◌∷◌ p q)) (λ n. no (λ e. n (cc))))
        (λ n. no (λ e. n (cc)))

-- Shut in proofs, where a split on `a == b` yields the equation or its negation.
instance unfoldable pub name_eq : Eq (List ℕ)
unfolding list_dec ℕ_discrete
name_eq = record { dec = list_dec ℕ_discrete }

instance unfoldable pub path_eq : Eq (List (List ℕ))
unfolding list_dec ℕ_discrete
path_eq = record { dec = list_dec (list_dec ℕ_discrete) }
