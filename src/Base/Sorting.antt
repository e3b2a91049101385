-- ===== src/Base/Sorting.antt =====
-- Stable sorting by insertion, as `sort` and `sort_by_key` order a vector.
use Prim.Native.Nat.{ℕ, ◌≤◌}
use mathlib.Core.Logic.{◌↔◌, inl, inr}
use mathlib.Core.Bool.{Bool}
use mathlib.Core.List.{List, [], ◌∷◌, Perm}
use mathlib.Core.List.Perm
use native.Mathlib.Omega.{arith}
use k8s_power_management.Base.Tests.{leb, Bool-cases, if◌then◌else◌}
use k8s_power_management.Base.Lists.{All, All-map, AllPairs, In}

module _ {A : Type 0} (le : A → A → Bool) where
  insert_by : A → List A → List A
  insert_by x [] = x ∷ []
  insert_by x (y ∷ ys) = let rest = y ∷ insert_by x ys in if le x y then x ∷ y ∷ ys else rest

  -- Of two items that compare alike, the first stays first.
  unfoldable pub sort_by : List A → List A
  unfolding insert_by
  sort_by [] = []
  sort_by (x ∷ xs) = insert_by x (sort_by xs)

  insert_by-perm : (x : A) (ys : List A) → Perm (insert_by x ys) (x ∷ ys)
  unfolding insert_by
  insert_by-perm x [] = Perm.refl _
  insert_by-perm x (y ∷ ys) = elim (Bool-cases (le x y)) [
    | inl before ↦ rw before (Perm.refl _)
    | inr after ↦ rw after (Perm.trans (Perm.cons y (insert_by-perm x ys)) (Perm.swap x y ys))
  ]

  -- Sorting keeps the items and how often each occurs.
  pub sort_by-perm : (xs : List A) → Perm (sort_by xs) xs
  unfolding sort_by
  sort_by-perm [] = Perm.refl _
  sort_by-perm (x ∷ xs) = Perm.trans (insert_by-perm x (sort_by xs)) (Perm.cons x (sort_by-perm xs))

  insert_by-All : (P : A → Type 0) (x : A) (ys : List A) → P x → All P ys → All P (insert_by x ys)
  unfolding insert_by
  insert_by-All P x [] p h = (p, tt)
  insert_by-All P x (y ∷ ys) p h = elim (Bool-cases (le x y)) [
    | inl before ↦ rw before (p, h)
    | inr after ↦ rw after (h.0, insert_by-All P x ys p h.1)
  ]

  pub sort_by-All : (P : A → Type 0) (xs : List A) → All P xs → All P (sort_by xs)
  unfolding sort_by
  sort_by-All P [] h = tt
  sort_by-All P (x ∷ xs) h = insert_by-All P x (sort_by xs) h.0 (sort_by-All P xs h.1)

  insert_by-AllPairs :
      (R : A → A → Type 0)
      → ((a b : A) → R a b → R b a)
      → (x : A) (ys : List A) → All (R x) ys
      → AllPairs R ys
      → AllPairs R (insert_by x ys)
  unfolding insert_by
  insert_by-AllPairs R flip x [] h d = (tt, tt)
  insert_by-AllPairs R flip x (y ∷ ys) h d = elim (Bool-cases (le x y)) [
    | inl before ↦ rw before (h, d)
    | inr after ↦
        rw after
          (insert_by-All (R y) x ys (flip x y h.0) d.0, insert_by-AllPairs R flip x ys h.1 d.1)
  ]

  -- A symmetric relation that holds of all pairs still does when the items are sorted.
  pub sort_by-AllPairs :
      (R : A → A → Type 0)
      → ((a b : A) → R a b → R b a)
      → (xs : List A) → AllPairs R xs
      → AllPairs R (sort_by xs)
  unfolding sort_by
  sort_by-AllPairs R flip [] d = tt
  sort_by-AllPairs R flip (x ∷ xs) d =
      insert_by-AllPairs R flip x (sort_by xs) (sort_by-All (R x) xs d.0)
        (sort_by-AllPairs R flip xs d.1)

  insert_by-In : (a x : A) (ys : List A) → In a (insert_by x ys) ↔ In a (x ∷ ys)
  unfolding insert_by
  insert_by-In a x [] = (λ m. m, λ m. m)
  insert_by-In a x (y ∷ ys) = elim (Bool-cases (le x y)) [
    | inl before ↦ rw before (λ m. m, λ m. m)
    | inr after ↦ rw after (
      elim [
        | inl e ↦ inr (inl e)
        | inr m ↦ elim ((insert_by-In a x ys).0 m) [ inl e ↦ inl e | inr n ↦ inr (inr n) ]
      ],
      elim [
        | inl e ↦ inr ((insert_by-In a x ys).1 (inl e))
        | inr m ↦ elim m [ inl e ↦ inl e | inr n ↦ inr ((insert_by-In a x ys).1 (inr n)) ]
      ],
    )
  ]

  -- Sorting keeps the items.
  pub sort_by-In : (a : A) (xs : List A) → In a (sort_by xs) ↔ In a xs
  unfolding sort_by
  sort_by-In a [] = (λ m. m, λ m. m)
  sort_by-In a (x ∷ xs) = (
    λ m. elim ((insert_by-In a x (sort_by xs)).0 m) [
      | inl e ↦ inl e
      | inr n ↦ inr ((sort_by-In a xs).0 n)
    ],
    elim [
      | inl e ↦ (insert_by-In a x (sort_by xs)).1 (inl e)
      | inr m ↦ (insert_by-In a x (sort_by xs)).1 (inr ((sort_by-In a xs).1 m))
    ],
  )

module _ {A : Type 0} (key : A → ℕ) where
  -- Each key is at most the keys behind it.
  abbrev pub IsAscending : List A → Type 0
  IsAscending [] = Unit
  IsAscending (x ∷ xs) = All (λ y. key x ≤ key y) xs × IsAscending xs

  abbrev pub key_le : A → A → Bool
  key_le a b = leb (key a) (key b)

  insert_by-IsAscending :
      (x : A) (ys : List A) → IsAscending ys → IsAscending (insert_by key_le x ys)
  unfolding insert_by
  insert_by-IsAscending x [] h = (tt, tt)
  insert_by-IsAscending x (y ∷ ys) (low, h) = elim (Bool-cases (key_le x y)) [
    | inl before ↦ rw before (((ground arith, All-map _ _ (λ z p. ground arith) ys low), (low, h)))
    | inr after ↦
        rw after (insert_by-All key_le _ x ys (ground arith) low, insert_by-IsAscending x ys h)
  ]

  pub sort_by-IsAscending : (xs : List A) → IsAscending (sort_by key_le xs)
  unfolding sort_by
  sort_by-IsAscending [] = tt
  sort_by-IsAscending (x ∷ xs) =
      insert_by-IsAscending x (sort_by key_le xs) (sort_by-IsAscending xs)
