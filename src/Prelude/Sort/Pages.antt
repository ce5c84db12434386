-- ===== src/Prelude/Sort/Pages.antt =====
-- A list that is sorted by a strict order, filtered, and read page by page: each page begins after the
-- last element of the one before.
use nexo.Prelude.{
  ℕ, zero, suc, ◌≡◌, refl, Bool, true, false, ◌||◌, not, List, [], ◌∷◌, arith, if◌then◌else◌, take,
  drop, keep, All, Bool-cases, inl, inr,
}
use nexo.Prelude.Sort.{insert_by, insert_by-All, sort_by, sort_by-All}

module _ {ℓ} {A : Type ℓ} where
  -- Each element stands before all that follow.
  abbrev pub Chain : (A → A → Bool) → List A → Type 0
  Chain after [] = Unit
  Chain after (x ∷ xs) = All (λ y. after x y ≡ true) xs × Chain after xs

  -- Any two elements are ordered, one way or the other.
  abbrev pub Apart : (A → A → Bool) → List A → Type 0
  Apart after [] = Unit
  Apart after (x ∷ xs) = All (λ y. (after x y || after y x) ≡ true) xs × Apart after xs

  -- The last element, or `d` where there is none.
  abbrev pub last_or : A → List A → A
  last_or d [] = d
  last_or d (x ∷ xs) = last_or x xs

  pub All-weaken {κ μ} :
      (P : A → Type κ) (Q : A → Type μ) (xs : List A) → ((x : A) → P x → Q x) → All P xs → All Q xs
  All-weaken P Q [] f h = tt
  All-weaken P Q (x ∷ xs) f h = (f x h.0, All-weaken P Q xs f h.1)

  pub keep_every : (p : A → Bool) (xs : List A) → All (λ y. p y ≡ true) xs → keep p xs ≡ xs
  unfolding keep
  keep_every p [] h = refl
  keep_every p (x ∷ xs) h = ground (arith, keep_every p xs h.1)

  pub All-last_or {κ} :
      (P : A → Type κ) (d : A) (k : ℕ) (xs : List A) → P d → All P xs → P (last_or d (take k xs))
  All-last_or P d zero xs p h = p
  All-last_or P d (suc k) [] p h = p
  All-last_or P d (suc k) (x ∷ xs) p h = All-last_or P x k xs h.0 h.1

  pub All-keep_of {κ} : (P : A → Type κ) (p : A → Bool) (xs : List A) → All P xs → All P (keep p xs)
  unfolding keep
  All-keep_of P p [] h = tt
  All-keep_of P p (x ∷ xs) h = ground (arith, All-keep_of P p xs h.1)

  pub keep-keep :
      (p q : A → Bool) (xs : List A)
      → ((z : A) → p z ≡ true → q z ≡ true)
      → keep p (keep q xs) ≡ keep p xs
  unfolding keep
  keep-keep p q [] h = refl
  keep-keep p q (x ∷ xs) h = ground (arith, h x, keep-keep p q xs h)

  pub Chain-keep :
      (after : A → A → Bool) (p : A → Bool) (xs : List A) → Chain after xs → Chain after (keep p xs)
  unfolding keep
  Chain-keep after p [] c = tt
  Chain-keep after p (x ∷ xs) c =
      ground (arith, All-keep_of (λ y. after x y ≡ true) p xs c.0, Chain-keep after p xs c.1)

  -- `after x y`: y comes after x.
  module _ (after : A → A → Bool)
      (trans : (x y z : A) → after x y ≡ true → after y z ≡ true → after x z ≡ true)
      (asym : (x y : A) → after x y ≡ true → after y x ≡ false) where
    abbrev le : A → A → Bool
    le x y = not (after y x)

    irrefl : (x : A) → after x x ≡ false
    irrefl x = ground (arith, asym x x)

    All-after :
        (x y : A) (ys : List A)
        → after x y ≡ true
        → All (λ z. after y z ≡ true) ys
        → All (λ z. after x z ≡ true) ys
    All-after x y ys h =
        All-weaken (λ z. after y z ≡ true) (λ z. after x z ≡ true) ys (λ z. trans x y z h)

    insert_by-Chain :
        (x : A) (xs : List A)
        → All (λ y. (after x y || after y x) ≡ true) xs
        → Chain after xs
        → Chain after (insert_by le x xs)
    unfolding insert_by
    insert_by-Chain x [] a c = (tt, tt)
    insert_by-Chain x (y ∷ ys) a c = elim (Bool-cases (after y x)) [
      | inl h ↦
          rw h ((insert_by-All (λ z. after y z ≡ true) le x ys h c.0, insert_by-Chain x ys a.1 c.1))
      | inr h ↦ rw h (let f : after x y ≡ true = ground arith in ((f, All-after x y ys f c.0), c))
    ]

    pub sort_by-Chain : (xs : List A) → Apart after xs → Chain after (sort_by le xs)
    unfolding sort_by
    sort_by-Chain [] a = tt
    sort_by-Chain (x ∷ xs) a =
        insert_by-Chain x (sort_by le xs)
          (sort_by-All (λ y. (after x y || after y x) ≡ true) le xs a.0) (sort_by-Chain xs a.1)

    insert_by-first :
        (x : A) (zs : List A) → All (λ z. after x z ≡ true) zs → insert_by le x zs ≡ x ∷ zs
    unfolding insert_by
    insert_by-first x [] h = refl
    insert_by-first x (z ∷ zs) h = ground (arith, asym x z h.0)

    keep-insert_by :
        (p : A → Bool) (x : A) (xs : List A)
        → All (λ y. (after x y || after y x) ≡ true) xs
        → Chain after xs
        → keep p (insert_by le x xs) ≡ (if p x then insert_by le x (keep p xs) else keep p xs)
    unfolding insert_by keep
    keep-insert_by p x [] a c = ground arith
    keep-insert_by p x (y ∷ ys) a c = elim (Bool-cases (after y x)) [
      | inl h ↦ ground (arith, h, keep-insert_by p x ys a.1 c.1)
      | inr h ↦
          let f : after x y ≡ true = ground arith in
          let first : insert_by le x (keep p ys) ≡ x ∷ keep p ys =
            insert_by-first x (keep p ys)
              (All-keep_of (λ z. after x z ≡ true) p ys (All-after x y ys f c.0)) in
          ground (arith, h, first)
    ]

    -- Filtering commutes with sorting.
    pub keep-sort_by :
        (p : A → Bool) (xs : List A)
        → Apart after xs
        → keep p (sort_by le xs) ≡ sort_by le (keep p xs)
    unfolding sort_by keep
    keep-sort_by p [] a = refl
    keep-sort_by p (x ∷ xs) a =
        let apart = sort_by-All (λ y. (after x y || after y x) ≡ true) le xs a.0 in
        ground (
          arith,
          keep-insert_by p x (sort_by le xs) apart (sort_by-Chain xs a.1),
          keep-sort_by p xs a.1,
        )

    -- What comes after the last element of a page is what the page left.
    pub keep-last_or :
        (k : ℕ) (x : A) (xs : List A)
        → Chain after (x ∷ xs)
        → keep (after (last_or x (take k xs))) (x ∷ xs) ≡ drop k xs
    unfolding keep
    keep-last_or zero x xs c = rw (irrefl x) (keep_every (after x) xs c.0)
    keep-last_or (suc k) x [] c = rw (irrefl x) refl
    keep-last_or (suc k) x (y ∷ ys) c =
        let l = last_or y (take k ys) in
        let f : after x l ≡ true = All-last_or (λ z. after x z ≡ true) y k ys c.0.0 c.0.1 in
        rw (asym x l f) (keep-last_or k y ys c.1)
