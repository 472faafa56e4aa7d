-- ===== src/Prelude/Sort.antt =====
-- Package sort of Go by its contract: a stable sort by a strict weak order, as insertion sort.
use mathlib.Core.Path.{◌≡◌}
use mathlib.Core.Bool.{Bool, true, false}
use mathlib.Core.List.{List, [], ◌∷◌, Perm}
use mathlib.Core.List.Perm
use simpledeploy.Prelude.Tests.{if◌then◌else◌, Bool-cases}
use simpledeploy.Prelude.Lists.{All}
use mathlib.Core.Logic.{inl, inr}

pub record StrictWeak {ℓ} {A : Type ℓ} (lt : A → A → Bool) : Type ℓ where
  pub asym : (x y : A) → lt x y ≡ true → lt y x ≡ false
  -- "not below" is transitive
  pub neg_trans : (x y z : A) → lt x y ≡ false → lt y z ≡ false → lt x z ≡ false

module _ {ℓ} {A : Type ℓ} (lt : A → A → Bool) where
  unfoldable pub insert_sorted : A → List A → List A
  insert_sorted x [] = x ∷ []
  insert_sorted x (y ∷ ys) = if lt y x then y ∷ insert_sorted x ys else x ∷ y ∷ ys

  unfoldable pub sort_stable : List A → List A
  sort_stable [] = []
  sort_stable (x ∷ xs) = insert_sorted x (sort_stable xs)

  -- Nothing stands behind an element that is below it.
  abbrev pub IsSorted : List A → Type ℓ
  IsSorted [] = Unit
  IsSorted (x ∷ xs) = All (λ y. lt y x ≡ false) xs × IsSorted xs

module _ {ℓ κ} {A : Type ℓ} (lt : A → A → Bool) (P : A → Type κ) where
  insert_sorted-All : (x : A) (ys : List A) → P x → All P ys → All P (insert_sorted lt x ys)
  unfolding insert_sorted
  insert_sorted-All x [] px h = (px, tt)
  insert_sorted-All x (y ∷ ys) px (py, h) = elim (Bool-cases (lt y x)) [
    | inl e ↦ rw e (py, insert_sorted-All x ys px h)
    | inr e ↦ rw e (px, (py, h))
  ]

  pub sort_stable-All : (xs : List A) → All P xs → All P (sort_stable lt xs)
  unfolding sort_stable
  sort_stable-All [] h = tt
  sort_stable-All (x ∷ xs) (px, h) =
      insert_sorted-All x (sort_stable lt xs) px (sort_stable-All xs h)

module _ {ℓ κ} {A : Type ℓ} (lt : A → A → Bool) (P : A → Type κ) where
  All-insert_sorted : (x : A) (ys : List A) → All P (insert_sorted lt x ys) → P x × All P ys
  unfolding insert_sorted
  All-insert_sorted x [] h = h
  All-insert_sorted x (y ∷ ys) h = elim (Bool-cases (lt y x)) [
    | inl e ↦
        let (py, rest) = pair y ys (rw e at h) in
        let (px, hs) = All-insert_sorted x ys rest in (px, (py, hs))
    | inr e ↦ rw e at h
  ]
    where
      pair :
          (z : A) (zs : List A)
          → All P (z ∷ insert_sorted lt x zs)
          → P z × All P (insert_sorted lt x zs)
      pair z zs g = g

  -- What holds of all of a sorted list held of all before.
  pub All-sort_stable : (xs : List A) → All P (sort_stable lt xs) → All P xs
  unfolding sort_stable
  All-sort_stable [] h = tt
  All-sort_stable (x ∷ xs) h =
      let (px, hs) = All-insert_sorted x (sort_stable lt xs) h in (px, All-sort_stable xs hs)

module _ {ℓ} {A : Type ℓ} (lt : A → A → Bool) where
  insert_sorted-perm : (x : A) (ys : List A) → Perm (insert_sorted lt x ys) (x ∷ ys)
  unfolding insert_sorted
  insert_sorted-perm x [] = Perm.refl (x ∷ [])
  insert_sorted-perm x (y ∷ ys) = elim (Bool-cases (lt y x)) [
    | inl e ↦ rw e (Perm.trans (Perm.cons y (insert_sorted-perm x ys)) (Perm.swap x y ys))
    | inr e ↦ rw e (Perm.refl (x ∷ y ∷ ys))
  ]

  pub sort_stable-perm : (xs : List A) → Perm (sort_stable lt xs) xs
  unfolding sort_stable
  sort_stable-perm [] = Perm.refl []
  sort_stable-perm (x ∷ xs) =
      Perm.trans (insert_sorted-perm x (sort_stable lt xs)) (Perm.cons x (sort_stable-perm xs))

  module _ (w : StrictWeak lt) where
    below-All :
        (x y : A) (ys : List A)
        → lt y x ≡ false
        → All (λ z. lt z y ≡ false) ys
        → All (λ z. lt z x ≡ false) ys
    below-All x y [] h hs = tt
    below-All x y (z ∷ zs) h (hz, hs) = (w.neg_trans z y x hz h, below-All x y zs h hs)

    insert_sorted-IsSorted :
        (x : A) (ys : List A) → IsSorted lt ys → IsSorted lt (insert_sorted lt x ys)
    unfolding insert_sorted
    insert_sorted-IsSorted x [] h = (tt, tt)
    insert_sorted-IsSorted x (y ∷ ys) (hy, h) = elim (Bool-cases (lt y x)) [
      | inl e ↦ rw e (
        insert_sorted-All lt (λ z. lt z y ≡ false) x ys (w.asym y x e) hy,
        insert_sorted-IsSorted x ys h,
      )
      | inr e ↦ rw e ((e, below-All x y ys e hy), (hy, h))
    ]

    pub sort_stable-IsSorted : (xs : List A) → IsSorted lt (sort_stable lt xs)
    unfolding sort_stable
    sort_stable-IsSorted [] = tt
    sort_stable-IsSorted (x ∷ xs) =
        insert_sorted-IsSorted x (sort_stable lt xs) (sort_stable-IsSorted xs)
