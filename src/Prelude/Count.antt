-- ===== src/Prelude/Count.antt =====
-- COUNT over a table, after an INSERT, an UPDATE or a DELETE.
use Prim.Native.Nat.{ℕ, ◌+◌, ◌≤◌}
use mathlib.Core.Path.{◌≡◌, refl}
use mathlib.Core.Bool.{Bool, true, false}
use mathlib.Core.Logic.{inl, inr}
use mathlib.Core.List.{List, [], ◌∷◌, ◌++◌}
use native.Mathlib.Omega.{arith}
use agentmesh_mcp.Prelude.Tests.{if◌then◌else◌, Bool-cases}
use agentmesh_mcp.Prelude.Query.{Row, here, there, All, select, update, delete, length}
use agentmesh_mcp.Prelude.Keys.{Unique}

module _ {ℓ} {A : Type ℓ} where
  -- SELECT count(*) … WHERE q
  unfoldable pub count : (A → Bool) → List A → ℕ
  count q [] = 0
  count q (x ∷ xs) = let rest = count q xs in if q x then rest + 1 else rest

  pub count-append : (q : A → Bool) (xs ys : List A) → count q (xs ++ ys) ≡ count q xs + count q ys
  unfolding count
  count-append q [] ys = omega arith
  count-append q (x ∷ xs) ys = ground (arith, count-append q xs ys)

  pub length-select : (q : A → Bool) (xs : List A) → length (select q xs) ≡ count q xs
  unfolding count select
  length-select q [] = refl
  length-select q (x ∷ xs) = ground (arith, length-select q xs)

  pub count-delete-le : (q p : A → Bool) (xs : List A) → count q (delete p xs) ≤ count q xs
  unfolding count delete
  count-delete-le q p [] = omega arith
  count-delete-le q p (x ∷ xs) = ground (arith, count-delete-le q p xs)

  -- Each row that is updated counts for at most one more.
  pub count-update-le :
      (q p : A → Bool) (f : A → A) (xs : List A) → count q (update p f xs) ≤ count q xs + count p xs
  unfolding count update
  count-update-le q p f [] = omega arith
  count-update-le q p f (x ∷ xs) = ground (arith, count-update-le q p f xs)

  pub count-update_other :
      (q p : A → Bool) (f : A → A) (xs : List A)
      → ((x : A) → p x ≡ true → q (f x) ≡ true → q x ≡ true)
      → count q (update p f xs) ≤ count q xs
  unfolding count update
  count-update_other q p f [] gone = omega arith
  count-update_other q p f (x ∷ xs) gone = ground (arith, gone x, count-update_other q p f xs gone)

  -- The same, where only the rows of the table need to stay out.
  pub count-update-Row :
      (q p : A → Bool) (f : A → A) (xs : List A)
      → ((x : A) → Row x xs → p x ≡ true → q (f x) ≡ true → q x ≡ true)
      → count q (update p f xs) ≤ count q xs
  unfolding count update
  count-update-Row q p f [] gone = omega arith
  count-update-Row q p f (x ∷ xs) gone =
      ground (arith, gone x here, count-update-Row q p f xs (λ y r. gone y (there r)))

  count-no_clash :
      (clash : A → A → Bool) (q : A → Bool) (x : A) (xs : List A)
      → ((y z : A) → q y ≡ true → q z ≡ true → clash y z ≡ true)
      → q x ≡ true
      → All (λ y. clash x y ≡ false) xs
      → count q xs ≡ 0
  unfolding count
  count-no_clash clash q x [] only k h = refl
  count-no_clash clash q x (y ∷ ys) only k (h, hs) =
      ground (arith, only x y, count-no_clash clash q x ys only k hs, h, k)

  -- At most one row has a unique key.
  pub count-Unique :
      (clash : A → A → Bool) (q : A → Bool) (xs : List A)
      → ((y z : A) → q y ≡ true → q z ≡ true → clash y z ≡ true)
      → Unique clash xs
      → count q xs ≤ 1
  unfolding count
  count-Unique clash q [] only u = omega arith
  count-Unique clash q (x ∷ xs) only (h, u) = ground (
    arith,
    count-Unique clash q xs only u,
    λ (k : q x ≡ true). count-no_clash clash q x xs only k h,
  )

-- No row that is left passes the test of a DELETE.
pub All-deleted {ℓ} :
    {A : Type ℓ} (p : A → Bool) (xs : List A) → All (λ x. p x ≡ false) (delete p xs)
unfolding delete
All-deleted p [] = tt
All-deleted p (x ∷ xs) = elim (Bool-cases (p x)) [
  | inl e ↦ rw e (All-deleted p xs)
  | inr e ↦ rw e (e, All-deleted p xs)
]
