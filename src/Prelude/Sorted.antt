-- ===== src/Prelude/Sorted.antt =====
-- ORDER BY sorts, and what LIMIT and a second WHERE make of it.
use Prim.Native.Nat.{ℕ, zero, suc, ◌+◌}
use mathlib.Core.Path.{◌≡◌, refl, ap}
use mathlib.Core.Logic.{inl, inr}
use mathlib.Core.Bool.{Bool, true, false}
use mathlib.Core.List.{List, [], ◌∷◌, ◌++◌, map}
use native.Mathlib.Omega.{arith}
use native.Mathlib.Numerals.{add-one}
use agentmesh_mcp.Prelude.Tests.{Bool-cases, ltb}
use agentmesh_mcp.Prelude.Query.{
  All, All-insert_by, All-take, All-imp, Row, here, there, insert_by, order_by, select, update,
  length, take,
}

module _ {ℓ} {A : Type ℓ} where
  -- Every row is before those that follow it.
  abbrev pub IsSorted : (A → A → Bool) → List A → Type ℓ
  IsSorted le [] = Unit
  IsSorted le (x ∷ xs) = All (λ y. le x y ≡ true) xs × IsSorted le xs

module _ {ℓ} {A : Type ℓ} (le : A → A → Bool)
    (le_trans : (x y z : A) → le x y ≡ true → le y z ≡ true → le x z ≡ true)
    (le_total : (x y : A) → le x y ≡ false → le y x ≡ true) where
  insert_by-IsSorted : (x : A) (xs : List A) → IsSorted le xs → IsSorted le (insert_by le x xs)
  unfolding insert_by
  insert_by-IsSorted x [] s = (tt, tt)
  insert_by-IsSorted x (y ∷ ys) (h, s) = elim (Bool-cases (le x y)) [
    | inl e ↦ rw e ((e, All-imp _ _ ys (λ z k. le_trans x y z e k) h), (h, s))
    | inr e ↦
        rw e
          (All-insert_by (λ z. le y z ≡ true) le x ys (le_total x y e) h, insert_by-IsSorted x ys s)
  ]

  pub order_by-IsSorted : (xs : List A) → IsSorted le (order_by le xs)
  unfolding order_by
  order_by-IsSorted [] = tt
  order_by-IsSorted (x ∷ xs) = insert_by-IsSorted x (order_by le xs) (order_by-IsSorted xs)

  pub take-IsSorted : (n : ℕ) (xs : List A) → IsSorted le xs → IsSorted le (take n xs)
  take-IsSorted zero xs s = tt
  take-IsSorted (suc n) [] s = tt
  take-IsSorted (suc n) (x ∷ xs) (h, s) =
      (All-take (λ y. le x y ≡ true) n xs h, take-IsSorted n xs s)

module _ {ℓ} {A : Type ℓ} where
  take-take_next : (n : ℕ) (xs : List A) → take n (take (suc n) xs) ≡ take n xs
  take-take_next zero xs = refl
  take-take_next (suc n) [] = refl
  take-take_next (suc n) (x ∷ xs) = ap (λ l. x ∷ l) (take-take_next n xs)

  length-take_next : (n : ℕ) (xs : List A) → ltb n (length (take (suc n) xs)) ≡ ltb n (length xs)
  length-take_next zero [] = refl
  length-take_next zero (x ∷ xs) = ground arith
  length-take_next (suc n) [] = refl
  length-take_next (suc n) (x ∷ xs) = ground (arith, length-take_next n xs)

  -- LIMIT n + 1 and then n: the page, and whether there is more.
  pub take-take_suc : (n : ℕ) (xs : List A) → take n (take (n + 1) xs) ≡ take n xs
  take-take_suc n xs = rw (add-one n) (take-take_next n xs)

  pub length-take_suc : (n : ℕ) (xs : List A) → ltb n (length (take (n + 1) xs)) ≡ ltb n (length xs)
  length-take_suc n xs = rw (add-one n) (length-take_next n xs)

  pub take-all : (n : ℕ) (xs : List A) → ltb n (length xs) ≡ false → take n xs ≡ xs
  take-all zero [] h = refl
  take-all zero (x ∷ xs) h = absurd (ground arith)
  take-all (suc n) [] h = refl
  take-all (suc n) (x ∷ xs) h = ap (λ l. x ∷ l) (take-all n xs (ground arith))

  -- Rows that an UPDATE does not touch are selected as before.
  pub select-update_other :
      (q p : A → Bool) (f : A → A) (xs : List A)
      → ((x : A) → q (f x) ≡ q x)
      → ((x : A) → q x ≡ true → p x ≡ false)
      → select q (update p f xs) ≡ select q xs
  unfolding select update
  select-update_other q p f [] keep apart = refl
  select-update_other q p f (x ∷ xs) keep apart =
      ground (arith, keep x, apart x, select-update_other q p f xs keep apart)

  insert_by-here : (le : A → A → Bool) (y : A) (xs : List A) → Row y (insert_by le y xs)
  unfolding insert_by
  insert_by-here le y [] = here
  insert_by-here le y (z ∷ zs) = elim (Bool-cases (le y z)) [
    | inl e ↦ rw e here
    | inr e ↦ rw e (there (insert_by-here le y zs))
  ]

  insert_by-there :
      (le : A → A → Bool) (x y : A) (xs : List A) → Row x xs → Row x (insert_by le y xs)
  unfolding insert_by
  insert_by-there le x y [] r = elim r [ ]
  insert_by-there le x y (z ∷ zs) here = elim (Bool-cases (le y x)) [
    | inl e ↦ rw e (there here)
    | inr e ↦ rw e here
  ]
  insert_by-there le x y (z ∷ zs) (there r) = elim (Bool-cases (le y z)) [
    | inl e ↦ rw e (there (there r))
    | inr e ↦ rw e (there (insert_by-there le x y zs r))
  ]

  pub Row-order_by : (le : A → A → Bool) (x : A) (xs : List A) → Row x xs → Row x (order_by le xs)
  unfolding order_by
  Row-order_by le x [] r = elim r [ ]
  Row-order_by le x (y ∷ ys) here = insert_by-here le y (order_by le ys)
  Row-order_by le x (y ∷ ys) (there r) =
      insert_by-there le x y (order_by le ys) (Row-order_by le x ys r)

  pub Row-select :
      (q : A → Bool) (x : A) (xs : List A) → Row x xs → q x ≡ true → Row x (select q xs)
  unfolding select
  Row-select q x [] r h = elim r [ ]
  Row-select q x (y ∷ ys) here h = rw h here
  Row-select q x (y ∷ ys) (there r) h = elim (Bool-cases (q y)) [
    | inl e ↦ rw e (there (Row-select q x ys r h))
    | inr e ↦ rw e (Row-select q x ys r h)
  ]

pub Row-map {ℓ κ} :
    {A : Type ℓ} {B : Type κ} (f : A → B) {x : A} {xs : List A} → Row x xs → Row (f x) (map f xs)
Row-map f here = here
Row-map f (there r) = there (Row-map f r)

pub Row-append_right {ℓ} : {A : Type ℓ} {x : A} (xs ys : List A) → Row x ys → Row x (xs ++ ys)
Row-append_right [] ys r = r
Row-append_right (y ∷ xs) ys r = there (Row-append_right xs ys r)
