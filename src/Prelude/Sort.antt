-- ===== src/Prelude/Sort.antt =====
-- Python's `sorted` and `list.sort`: a stable sort, for a test `le` of the keys.
use mathlib.Core.List.{Perm, Permᴰ}
use mathlib.Core.List.Perm
use Prim.Native.Nat.{Ordering}
use Prim.Native.String.{String, compare}
use border.Prelude.{
  Bool, true, false, ◌≡◌, refl, sym, ap, ◌∙◌, subst, arith, List, [], ◌∷◌, All, if◌then◌else◌,
  Bool-cases, inl, inr, ◌⊎◌,
}

-- Texts are compared by code points.
abbrev pub text_le : String → String → Bool
text_le s t = elim (compare s t) [ Ordering.gt ↦ false | _ ↦ true ]

module _ {ℓ} {A : Type ℓ} (le : A → A → Bool) where
  -- An element goes before those that are equal to it, which stood behind it.
  unfoldable pub insert : A → List A → List A
  insert x [] = x ∷ []
  insert x (y ∷ ys) = if le x y then x ∷ y ∷ ys else y ∷ insert x ys

  unfoldable pub sorted : List A → List A
  unfolding insert
  sorted [] = []
  sorted (x ∷ xs) = insert x (sorted xs)

  abbrev pub IsSorted : List A → Type 0
  IsSorted [] = Unit
  IsSorted (x ∷ xs) = All (λ y. le x y ≡ true) xs × IsSorted xs

  pub insert-perm : (x : A) (xs : List A) → Perm (insert x xs) (x ∷ xs)
  unfolding insert
  insert-perm x [] = Perm.refl _
  insert-perm x (y ∷ ys) = elim (Bool-cases (le x y)) [
    | inl e ↦ rw e (Perm.refl _)
    | inr e ↦ rw e (Perm.trans (Perm.cons y (insert-perm x ys)) (Perm.swap x y ys))
  ]

  pub sorted-perm : (xs : List A) → Perm (sorted xs) xs
  unfolding sorted
  sorted-perm [] = Perm.refl _
  sorted-perm (x ∷ xs) = Perm.trans (insert-perm x (sorted xs)) (Perm.cons x (sorted-perm xs))

  module _ {κ} (P : A → Type κ) where
    pub insert-All : (x : A) (xs : List A) → P x → All P xs → All P (insert x xs)
    unfolding insert
    insert-All x [] px h = (px, tt)
    insert-All x (y ∷ ys) px h = elim (Bool-cases (le x y)) [
      | inl e ↦ rw e (px, h)
      | inr e ↦ rw e (h.0, insert-All x ys px h.1)
    ]

    pub sorted-All : (xs : List A) → All P xs → All P (sorted xs)
    unfolding sorted
    sorted-All [] h = tt
    sorted-All (x ∷ xs) h = insert-All x (sorted xs) h.0 (sorted-All xs h.1)

    All-insert : (x : A) (xs : List A) → All P (insert x xs) → P x × All P xs
    unfolding insert
    All-insert x [] h = h
    All-insert x (y ∷ ys) h = elim (Bool-cases (le x y)) [
      | inl e ↦ rw e at h
      | inr e ↦
          let h' : All P (y ∷ insert x ys) = rw e at h in
          let rest = All-insert x ys h'.1 in (rest.0, (h'.0, rest.1))
    ]

    -- What holds of all of the sorted list holds of all of the list.
    pub All-sorted : (xs : List A) → All P (sorted xs) → All P xs
    unfolding sorted
    All-sorted [] h = tt
    All-sorted (x ∷ xs) h = let rest = All-insert x (sorted xs) h in (rest.0, All-sorted xs rest.1)

  module _ (total : (x y : A) → (le x y ≡ true) ⊎ (le y x ≡ true))
      (trans : (x y z : A) → le x y ≡ true → le y z ≡ true → le x z ≡ true) where
    All-le_trans :
        (x y : A) (ys : List A)
        → le x y ≡ true
        → All (λ z. le y z ≡ true) ys
        → All (λ z. le x z ≡ true) ys
    All-le_trans x y [] h a = tt
    All-le_trans x y (z ∷ zs) h a = (trans x y z h a.0, All-le_trans x y zs h a.1)

    flipped : (x y : A) → le x y ≡ false → le y x ≡ true
    flipped x y e = elim (total x y) [ inl h ↦ cc | inr h ↦ h ]

    insert-IsSorted : (x : A) (xs : List A) → IsSorted xs → IsSorted (insert x xs)
    unfolding insert
    insert-IsSorted x [] h = (tt, tt)
    insert-IsSorted x (y ∷ ys) h = elim (Bool-cases (le x y)) [
      | inl e ↦ rw e ((e, All-le_trans x y ys e h.0), h)
      | inr e ↦
          rw e (insert-All (λ z. le y z ≡ true) x ys (flipped x y e) h.0, insert-IsSorted x ys h.1)
    ]

    pub sorted-IsSorted : (xs : List A) → IsSorted (sorted xs)
    unfolding sorted
    sorted-IsSorted [] = tt
    sorted-IsSorted (x ∷ xs) = insert-IsSorted x (sorted xs) (sorted-IsSorted xs)

  insert_first : (x : A) (xs : List A) → All (λ y. le x y ≡ true) xs → insert x xs ≡ x ∷ xs
  unfolding insert
  insert_first x [] h = refl
  insert_first x (y ∷ ys) h = rw (h.0) refl

  -- What is sorted stays as it is.
  pub sorted-same : (xs : List A) → IsSorted xs → sorted xs ≡ xs
  unfolding sorted
  sorted-same [] h = refl
  sorted-same (x ∷ xs) h = rw (sorted-same xs h.1) (insert_first x xs h.0)

-- Where only equal members are equal keys, the order before the sort makes no difference.
module _ {ℓ κ} {A : Type ℓ} (le : A → A → Bool) (P : A → Type κ)
    (total : (x y : A) → (le x y ≡ true) ⊎ (le y x ≡ true))
    (trans : (x y z : A) → le x y ≡ true → le y z ≡ true → le x z ≡ true)
    (same : (x y : A) → P x → P y → le x y ≡ true → le y x ≡ true → x ≡ y) where
  insert_comm :
      (x y : A) (l : List A) → P x → P y → insert le x (insert le y l) ≡ insert le y (insert le x l)
  unfolding insert
  insert_comm x y [] px py = ground (arith, total x y, same x y px py)
  insert_comm x y (z ∷ l) px py =
      ground (arith, total x y, same x y px py, trans x y z, trans y x z, insert_comm x y l px py)

  Permᴰ-All : {xs ys : List A} → Permᴰ xs ys → All P xs → All P ys
  Permᴰ-All Permᴰ.nil h = h
  Permᴰ-All (Permᴰ.cons e p) h = (subst P (e) h.0, Permᴰ-All p h.1)
  Permᴰ-All (Permᴰ.swap e e') h = (subst P (e') h.1.0, (subst P (e) h.0, h.1.1))
  Permᴰ-All (Permᴰ.trans p q) h = Permᴰ-All q (Permᴰ-All p h)

  pub sorted_perm : {xs ys : List A} → Permᴰ xs ys → All P xs → sorted le xs ≡ sorted le ys
  unfolding sorted
  sorted_perm Permᴰ.nil h = refl
  sorted_perm (Permᴰ.cons {b = b} e p) h = rw (e) (ap (insert le b) (sorted_perm p h.1))
  sorted_perm (Permᴰ.swap {a} {b} {l = l} e e') h =
      rw (sym e, sym e') (insert_comm a b (sorted le l) h.0 h.1.0)
  sorted_perm (Permᴰ.trans p q) h = sorted_perm p h ∙ sorted_perm q (Permᴰ-All p h)
