-- ===== src/Prelude/Sort/Order.antt =====
-- What sorting by a total order gives: the same elements, each before all that are not smaller.
use mathlib.Core.List.{Perm}
use mathlib.Core.List.Perm
use nexo.Prelude.{◌≡◌, Bool, true, ◌||◌, List, [], ◌∷◌, arith, Bool-cases, inl, inr}
use nexo.Prelude.Sort.{insert_by, insert_by-All, sort_by}
use nexo.Prelude.Sort.Pages.{Chain, All-weaken}

module _ {ℓ} {A : Type ℓ} where
  insert_by-Perm : (le : A → A → Bool) (x : A) (xs : List A) → Perm (insert_by le x xs) (x ∷ xs)
  unfolding insert_by
  insert_by-Perm le x [] = Perm.refl _
  insert_by-Perm le x (y ∷ ys) = elim (Bool-cases (le x y)) [
    | inl e ↦ rw e (Perm.refl _)
    | inr e ↦ rw e (Perm.trans (Perm.cons y (insert_by-Perm le x ys)) (Perm.swap x y ys))
  ]

  pub sort_by-Perm : (le : A → A → Bool) (xs : List A) → Perm (sort_by le xs) xs
  unfolding sort_by
  sort_by-Perm le [] = Perm.refl _
  sort_by-Perm le (x ∷ xs) =
      Perm.trans (insert_by-Perm le x (sort_by le xs)) (Perm.cons x (sort_by-Perm le xs))

  module _ (le : A → A → Bool) (total : (x y : A) → (le x y || le y x) ≡ true)
      (trans : (x y z : A) → le x y ≡ true → le y z ≡ true → le x z ≡ true) where
    insert_by-Ordered : (x : A) (xs : List A) → Chain le xs → Chain le (insert_by le x xs)
    unfolding insert_by
    insert_by-Ordered x [] c = (tt, tt)
    insert_by-Ordered x (y ∷ ys) c = elim (Bool-cases (le x y)) [
      | inl e ↦
          rw e (
            (e, All-weaken (λ z. le y z ≡ true) (λ z. le x z ≡ true) ys (λ z. trans x y z e) c.0),
            c,
          )
      | inr e ↦
          let f : le y x ≡ true = ground (arith, e, total x y) in
          rw e ((insert_by-All (λ z. le y z ≡ true) le x ys f c.0, insert_by-Ordered x ys c.1))
    ]

    pub sort_by-Ordered : (xs : List A) → Chain le (sort_by le xs)
    unfolding sort_by
    sort_by-Ordered [] = tt
    sort_by-Ordered (x ∷ xs) = insert_by-Ordered x (sort_by le xs) (sort_by-Ordered xs)
