-- ===== src/Prelude/Keys.antt =====
-- Unique keys: no two rows of a table clash, for a Boolean test of a clash.
use mathlib.Core.Path.{sym, ◌∙◌, ◌≡◌, refl}
use mathlib.Core.Logic.{inl, inr}
use mathlib.Core.Option.{some, none}
use mathlib.Core.Bool.{true, false≢true, Bool, false}
use native.Mathlib.Omega.{arith}
use mathlib.Core.List.{List, [], ◌∷◌, ◌++◌}
use agentmesh_mcp.Prelude.Tests.{Bool-cases}
use agentmesh_mcp.Prelude.Query.{
  Row, here, there, All-Row, find, All, All-append, All-delete, All-select, select, update, delete,
}

module _ {ℓ} {A : Type ℓ} where
  abbrev pub Unique : (A → A → Bool) → List A → Type ℓ
  Unique clash [] = Unit
  Unique clash (x ∷ xs) = All (λ y. clash x y ≡ false) xs × Unique clash xs

module _ {ℓ} {A : Type ℓ} (clash : A → A → Bool) where
  -- INSERT of a row that clashes with none.
  pub Unique-insert :
      (xs : List A) (x : A)
      → All (λ y. clash y x ≡ false) xs
      → Unique clash xs
      → Unique clash (xs ++ x ∷ [])
  Unique-insert [] x h u = (tt, tt)
  Unique-insert (y ∷ ys) x (h, hs) (k, u) =
      (All-append (λ z. clash y z ≡ false) ys (x ∷ []) k (h, tt), Unique-insert ys x hs u)

  pub Unique-select : (p : A → Bool) (xs : List A) → Unique clash xs → Unique clash (select p xs)
  unfolding select
  Unique-select p [] u = tt
  Unique-select p (x ∷ xs) (k, u) = elim (Bool-cases (p x)) [
    | inl e ↦ rw e (
      All-select (λ y. clash x y ≡ false) p xs (λ y r h. All-Row (λ y. clash x y ≡ false) k r),
      Unique-select p xs u,
    )
    | inr e ↦ rw e (Unique-select p xs u)
  ]

  pub Unique-delete : (p : A → Bool) (xs : List A) → Unique clash xs → Unique clash (delete p xs)
  unfolding delete
  Unique-delete p [] u = tt
  Unique-delete p (x ∷ xs) (k, u) = elim (Bool-cases (p x)) [
    | inl e ↦ rw e (Unique-delete p xs u)
    | inr e ↦ rw e (All-delete (λ y. clash x y ≡ false) p xs k, Unique-delete p xs u)
  ]

  module _ (p : A → Bool) (f : A → A) (keeps : (x y : A) → clash (f x) y ≡ clash x y)
      (keeps' : (x y : A) → clash x (f y) ≡ clash x y) where
    update-no_clash :
        (x : A) (xs : List A)
        → All (λ y. clash x y ≡ false) xs
        → All (λ y. clash x y ≡ false) (update p f xs)
    unfolding update
    update-no_clash x [] h = tt
    update-no_clash x (y ∷ ys) (h, hs) = elim (Bool-cases (p y)) [
      | inl e ↦ (rw e (rw keeps' h), update-no_clash x ys hs)
      | inr e ↦ (rw e h, update-no_clash x ys hs)
    ]

    no_clash-image :
        (x : A) (xs : List A)
        → All (λ y. clash x y ≡ false) xs
        → All (λ y. clash (f x) y ≡ false) xs
    no_clash-image x [] h = tt
    no_clash-image x (y ∷ ys) (h, hs) = (rw keeps h, no_clash-image x ys hs)

    -- UPDATE of columns outside the key.
    pub Unique-update : (xs : List A) → Unique clash xs → Unique clash (update p f xs)
    unfolding update
    Unique-update [] u = tt
    Unique-update (x ∷ xs) (k, u) = elim (Bool-cases (p x)) [
      | inl e ↦
          (rw e (no_clash-image x (update p f xs) (update-no_clash x xs k)), Unique-update xs u)
      | inr e ↦ (rw e (update-no_clash x xs k), Unique-update xs u)
    ]

-- A test that at most one row of the table passes finds the row that passes it.
pub find-Unique {ℓ} :
    {A : Type ℓ} (clash : A → A → Bool) (q : A → Bool) (xs : List A) (x : A)
    → ((y z : A) → q y ≡ true → q z ≡ true → clash y z ≡ true)
    → Unique clash xs
    → Row x xs
    → q x ≡ true
    → find q xs ≡ some x
unfolding find
find-Unique clash q [] x only u r h = elim r [ ]
find-Unique clash q (x ∷ xs) x' only u here h = rw h
find-Unique clash q (y ∷ ys) x only (k, u) (there r) h = elim (Bool-cases (q y)) [
  | inl e ↦ absurd (false≢true (sym (All-Row (λ z. clash y z ≡ false) k r) ∙ only y x e h))
  | inr e ↦ rw e (find-Unique clash q ys x only u r h)
]

-- An UPDATE that changes the only row with a key so that it fails a test: no row with that key
-- passes the test afterwards. `key` is the test of the key, and `q` implies it.
module _ {ℓ} {A : Type ℓ} (clash : A → A → Bool) (key q p : A → Bool) (f : A → A)
    (only : (y z : A) → key y ≡ true → key z ≡ true → clash y z ≡ true)
    (keyed : (y : A) → q y ≡ true → key y ≡ true) (gone : (y : A) → q (f y) ≡ false) where
  find-update_no_clash :
      (x : A) (ys : List A)
      → key x ≡ true
      → All (λ y. clash x y ≡ false) ys
      → find q (update p f ys) ≡ none
  unfolding find update
  find-update_no_clash x [] k h = refl
  find-update_no_clash x (y ∷ ys) k (h, hs) =
      let rest = find-update_no_clash x ys k hs in
      ground (arith, rest, only x y, keyed y, gone y, k, h)

  pub find-update_only :
      (x : A) (xs : List A)
      → Unique clash xs
      → Row x xs
      → key x ≡ true
      → p x ≡ true
      → find q (update p f xs) ≡ none
  unfolding find update
  find-update_only x [] u r k h = elim r [ ]
  find-update_only x (y ∷ ys) (c, u) here k h =
      let rest = find-update_no_clash y ys k c in ground (arith, rest, gone y, h)
  find-update_only x (y ∷ ys) (c, u) (there r) k h =
      let rest = find-update_only x ys u r k h in
      let apart = All-Row (λ z. clash y z ≡ false) c r in
      ground (arith, rest, only y x, keyed y, gone y, apart, k)
