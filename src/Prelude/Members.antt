-- ===== src/Prelude/Members.antt =====
-- Membership in a list, as a predicate that computes.
use mathlib.Core.Path.{◌≡◌, refl, sym}
use mathlib.Core.Path.{subst}
use mathlib.Core.Logic.{◌⊎◌, inl, inr}
use mathlib.Core.Bool.{Bool, true}
use mathlib.Core.List.{List, [], ◌∷◌, ◌++◌}
use native.Mathlib.Omega.{arith}
use rust_ethereum_indexer.Prelude.Lists.{keep_if, All}

module _ {A : Type 0} where
  abbrev pub In : A → List A → Type 0
  In x [] = ⊥
  In x (y ∷ ys) = (x ≡ y) ⊎ In x ys

  pub All-In : (P : A → Type 0) (xs : List A) (x : A) → All P xs → In x xs → P x
  All-In P [] x all at = absurd at
  All-In P (y ∷ ys) x all (inl e) = subst P (sym e) all.0
  All-In P (y ∷ ys) x all (inr later) = All-In P ys x all.1 later

  pub In-keep_if : (test : A → Bool) (xs : List A) (x : A) → In x (keep_if test xs) → In x xs
  unfolding keep_if
  In-keep_if test [] x at = at
  In-keep_if test (y ∷ ys) x at = ground (arith, In-keep_if test ys x)

  pub keep_if-In :
      (test : A → Bool) (xs : List A) (x : A) → In x xs → test x ≡ true → In x (keep_if test xs)
  unfolding keep_if
  keep_if-In test [] x at passes = at
  keep_if-In test (y ∷ ys) x at passes = ground (arith, keep_if-In test ys x)

  -- One more at the end, as `push` does.
  pub In-pushed : (xs : List A) (y x : A) → In x (xs ++ y ∷ []) → In x xs ⊎ (x ≡ y)
  In-pushed [] y x (inl e) = inr e
  In-pushed [] y x (inr nowhere) = absurd nowhere
  In-pushed (z ∷ zs) y x (inl e) = inl (inl e)
  In-pushed (z ∷ zs) y x (inr later) = ground (arith, In-pushed zs y x later)

  pub pushed_old : (xs : List A) (y x : A) → In x xs → In x (xs ++ y ∷ [])
  pushed_old [] y x at = absurd at
  pushed_old (z ∷ zs) y x (inl e) = inl e
  pushed_old (z ∷ zs) y x (inr later) = inr (pushed_old zs y x later)

  pub pushed_new : (xs : List A) (y : A) → In y (xs ++ y ∷ [])
  pushed_new [] y = inl refl
  pushed_new (z ∷ zs) y = inr (pushed_new zs y)
