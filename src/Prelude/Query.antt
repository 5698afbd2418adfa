-- ===== src/Prelude/Query.antt =====
-- The queries that the services send to the database, over a table as a list of rows: SELECT, its
-- LIMIT 1 and ORDER BY, UPDATE, DELETE, and the predicates that their laws speak of.
use Prim.Native.Nat.{ℕ, zero, suc, ◌+◌, ◌≤◌}
use mathlib.Core.Path.{◌≡◌, refl, subst}
use mathlib.Core.Logic.{◌↔◌, inl, inr}
use mathlib.Core.Bool.{Bool, true, false}
use mathlib.Core.Option
use mathlib.Core.Option.{Option, none, some}
use mathlib.Core.List.{List, [], ◌∷◌, ◌++◌}
use native.Mathlib.Omega.{arith}
use agentmesh_mcp.Prelude.Tests.{if◌then◌else◌, Bool-cases}

module _ {ℓ} {A : Type ℓ} where
  abbrev pub length : List A → ℕ
  length [] = 0
  length (x ∷ xs) = suc (length xs)

  abbrev pub take : ℕ → List A → List A
  take zero xs = []
  take (suc n) [] = []
  take (suc n) (x ∷ xs) = x ∷ take n xs

  -- SELECT … WHERE p
  unfoldable pub select : (A → Bool) → List A → List A
  select p [] = []
  select p (x ∷ xs) = let rest = select p xs in if p x then x ∷ rest else rest

  -- SELECT … WHERE p LIMIT 1
  unfoldable pub find : (A → Bool) → List A → Option A
  find p [] = none
  find p (x ∷ xs) = let rest = find p xs in if p x then some x else rest

  abbrev pub or_else : Option A → Option A → Option A
  or_else none o = o
  or_else (some x) o = some x

  -- UPDATE … SET f WHERE p
  unfoldable pub update : (A → Bool) → (A → A) → List A → List A
  update p f [] = []
  update p f (x ∷ xs) = (if p x then f x else x) ∷ update p f xs

  -- DELETE … WHERE p
  unfoldable pub delete : (A → Bool) → List A → List A
  delete p [] = []
  delete p (x ∷ xs) = let rest = delete p xs in if p x then rest else x ∷ rest

  -- ORDER BY, for a Boolean test of the order
  unfoldable pub insert_by : (A → A → Bool) → A → List A → List A
  insert_by le x [] = x ∷ []
  insert_by le x (y ∷ ys) = let rest = insert_by le x ys in if le x y then x ∷ y ∷ ys else y ∷ rest

  unfoldable pub order_by : (A → A → Bool) → List A → List A
  unfolding insert_by
  order_by le [] = []
  order_by le (x ∷ xs) = insert_by le x (order_by le xs)

  abbrev pub All {κ} : (A → Type κ) → List A → Type κ
  All P [] = Unit
  All P (x ∷ xs) = P x × All P xs

  -- A row of the table.
  pub data Row (x : A) : List A → Type ℓ where
    here : {xs : List A} → Row x (x ∷ xs)
    there : {y : A} {xs : List A} → Row x xs → Row x (y ∷ xs)

module _ {ℓ} {A : Type ℓ} where
  pub length-append : (xs ys : List A) → length (xs ++ ys) ≡ length xs + length ys
  length-append [] ys = omega arith
  length-append (x ∷ xs) ys = omega (arith, length-append xs ys)

  pub length-update : (p : A → Bool) (f : A → A) (xs : List A) → length (update p f xs) ≡ length xs
  unfolding update
  length-update p f [] = refl
  length-update p f (x ∷ xs) = omega (arith, length-update p f xs)

  pub length-take_le : (n : ℕ) (xs : List A) → length (take n xs) ≤ n
  length-take_le zero xs = omega arith
  length-take_le (suc n) [] = omega arith
  length-take_le (suc n) (x ∷ xs) = omega (arith, length-take_le n xs)

  pub length-insert_by :
      (le : A → A → Bool) (x : A) (xs : List A) → length (insert_by le x xs) ≡ suc (length xs)
  unfolding insert_by
  length-insert_by le x [] = refl
  length-insert_by le x (y ∷ ys) = ground (arith, length-insert_by le x ys)

  pub length-order_by : (le : A → A → Bool) (xs : List A) → length (order_by le xs) ≡ length xs
  unfolding order_by
  length-order_by le [] = refl
  length-order_by le (x ∷ xs) =
      omega (arith, length-insert_by le x (order_by le xs), length-order_by le xs)

  -- A row that was found is in the table and passes the test.
  pub find-Row : (p : A → Bool) (xs : List A) (x : A) → find p xs ≡ some x → Row x xs
  unfolding find
  find-Row p [] x h = cc
  find-Row p (y ∷ ys) x h = elim (Bool-cases (p y)) [
    | inl e ↦ let same : y ≡ x = ground arith in subst (λ z. Row z (y ∷ ys)) same here
    | inr e ↦ there (find-Row p ys x (rw e at h))
  ]

  pub find-true : (p : A → Bool) (xs : List A) (x : A) → find p xs ≡ some x → p x ≡ true
  unfolding find
  find-true p [] x h = cc
  find-true p (y ∷ ys) x h = ground (arith, find-true p ys x)

  pub find-none_iff : (p : A → Bool) (xs : List A) → (find p xs ≡ none) ↔ All (λ x. p x ≡ false) xs
  unfolding find
  find-none_iff p [] = ground arith
  find-none_iff p (x ∷ xs) = ground (arith, find-none_iff p xs)

module _ {ℓ κ} {A : Type ℓ} (P : A → Type κ) where
  pub All-append : (xs ys : List A) → All P xs → All P ys → All P (xs ++ ys)
  All-append [] ys h k = k
  All-append (x ∷ xs) ys (h, hs) k = (h, All-append xs ys hs k)

  pub All-Row : {x : A} {xs : List A} → All P xs → Row x xs → P x
  All-Row h here = h.0
  All-Row h (there r) = All-Row h.1 r

  pub All-take : (n : ℕ) (xs : List A) → All P xs → All P (take n xs)
  All-take zero xs h = tt
  All-take (suc n) [] h = tt
  All-take (suc n) (x ∷ xs) (h, hs) = (h, All-take n xs hs)

  -- `p` may be used of the rows that an UPDATE changes.
  pub All-update :
      (p : A → Bool) (f : A → A) (xs : List A)
      → ((x : A) → p x ≡ true → P x → P (f x))
      → All P xs
      → All P (update p f xs)
  unfolding update
  All-update p f [] keep h = tt
  All-update p f (x ∷ xs) keep (h, hs) = elim (Bool-cases (p x)) [
    | inl e ↦ (rw e (keep x e h), All-update p f xs keep hs)
    | inr e ↦ (rw e h, All-update p f xs keep hs)
  ]

  pub All-delete : (p : A → Bool) (xs : List A) → All P xs → All P (delete p xs)
  unfolding delete
  All-delete p [] h = tt
  All-delete p (x ∷ xs) (h, hs) = elim (Bool-cases (p x)) [
    | inl e ↦ rw e (All-delete p xs hs)
    | inr e ↦ rw e (h, All-delete p xs hs)
  ]

  pub All-select :
      (p : A → Bool) (xs : List A) → ((x : A) → Row x xs → p x ≡ true → P x) → All P (select p xs)
  unfolding select
  All-select p [] h = tt
  All-select p (x ∷ xs) h = elim (Bool-cases (p x)) [
    | inl e ↦ rw e (h x here e, All-select p xs (λ y r. h y (there r)))
    | inr e ↦ rw e (All-select p xs (λ y r. h y (there r)))
  ]

  pub All-insert_by :
      (le : A → A → Bool) (x : A) (xs : List A) → P x → All P xs → All P (insert_by le x xs)
  unfolding insert_by
  All-insert_by le x [] h hs = (h, tt)
  All-insert_by le x (y ∷ ys) h (k, ks) = elim (Bool-cases (le x y)) [
    | inl e ↦ rw e (h, (k, ks))
    | inr e ↦ rw e (k, All-insert_by le x ys h ks)
  ]

  pub All-order_by : (le : A → A → Bool) (xs : List A) → All P xs → All P (order_by le xs)
  unfolding order_by
  All-order_by le [] h = tt
  All-order_by le (x ∷ xs) (h, hs) = All-insert_by le x (order_by le xs) h (All-order_by le xs hs)

module _ {ℓ} {A : Type ℓ} where
  -- SELECT after an INSERT.
  pub find-append :
      (q : A → Bool) (xs ys : List A) → find q (xs ++ ys) ≡ or_else (find q xs) (find q ys)
  unfolding find
  find-append q [] ys = refl
  find-append q (x ∷ xs) ys = ground (arith, find-append q xs ys)

  -- SELECT after an UPDATE of columns that it does not test.
  pub find-update :
      (q p : A → Bool) (f : A → A) (xs : List A)
      → ((x : A) → q (f x) ≡ q x)
      → find q (update p f xs) ≡ Option.map (λ x. if p x then f x else x) (find q xs)
  unfolding find update
  find-update q p f [] keep = refl
  find-update q p f (x ∷ xs) keep = ground (arith, find-update q p f xs keep, keep x)

pub All-imp {ℓ κ μ} :
    {A : Type ℓ} (P : A → Type κ) (Q : A → Type μ) (xs : List A)
    → ((x : A) → P x → Q x)
    → All P xs
    → All Q xs
All-imp P Q [] f h = tt
All-imp P Q (x ∷ xs) f (h, hs) = (f x h, All-imp P Q xs f hs)

-- SELECT of a row that an UPDATE has changed.
pub find-update_found {ℓ} :
    {A : Type ℓ} (q p : A → Bool) (f : A → A) (xs : List A) (x : A)
    → ((y : A) → q (f y) ≡ q y)
    → find q xs ≡ some x
    → p x ≡ true
    → find q (update p f xs) ≡ some (f x)
find-update_found q p f xs x keep e h = rw (find-update q p f xs keep) (rw e (rw h refl))

-- No row passes the test of an UPDATE that makes it fail.
pub find-update_gone {ℓ} :
    {A : Type ℓ} (p : A → Bool) (f : A → A) (xs : List A)
    → ((x : A) → p x ≡ true → p (f x) ≡ false)
    → find p (update p f xs) ≡ none
unfolding find update
find-update_gone p f [] gone = refl
find-update_gone p f (x ∷ xs) gone = ground (arith, gone x, find-update_gone p f xs gone)

pub find-delete {ℓ} : {A : Type ℓ} (p : A → Bool) (xs : List A) → find p (delete p xs) ≡ none
unfolding find delete
find-delete p [] = refl
find-delete p (x ∷ xs) = ground (arith, find-delete p xs)

-- Another row is found as before.
pub find-update_other {ℓ} :
    {A : Type ℓ} (q p : A → Bool) (f : A → A) (xs : List A)
    → ((x : A) → q (f x) ≡ q x)
    → ((x : A) → q x ≡ true → p x ≡ false)
    → find q (update p f xs) ≡ find q xs
unfolding find update
find-update_other q p f [] keep apart = refl
find-update_other q p f (x ∷ xs) keep apart =
    ground (arith, keep x, apart x, find-update_other q p f xs keep apart)

pub find-delete_other {ℓ} :
    {A : Type ℓ} (q p : A → Bool) (xs : List A)
    → ((x : A) → q x ≡ true → p x ≡ false)
    → find q (delete p xs) ≡ find q xs
unfolding find delete
find-delete_other q p [] apart = refl
find-delete_other q p (x ∷ xs) apart = ground (arith, apart x, find-delete_other q p xs apart)

-- An UPDATE that no row passes changes nothing, and a SELECT gives nothing.
pub update-none {ℓ} :
    {A : Type ℓ} (p : A → Bool) (f : A → A) (xs : List A)
    → All (λ x. p x ≡ false) xs
    → update p f xs ≡ xs
unfolding update
update-none p f [] h = refl
update-none p f (x ∷ xs) (h, hs) = rw h (rw (update-none p f xs hs) refl)

pub select-none {ℓ} :
    {A : Type ℓ} (p : A → Bool) (xs : List A) → All (λ x. p x ≡ false) xs → select p xs ≡ []
unfolding select
select-none p [] h = refl
select-none p (x ∷ xs) (h, hs) = rw h (select-none p xs hs)

-- What an UPDATE brings about in the rows that it changes, and what holds of the others already.
pub All-updated {ℓ κ} :
    {A : Type ℓ} (P : A → Type κ) (p : A → Bool) (f : A → A) (xs : List A)
    → ((x : A) → p x ≡ true → P (f x))
    → ((x : A) → p x ≡ false → P x)
    → All P (update p f xs)
unfolding update
All-updated P p f [] changed kept = tt
All-updated P p f (x ∷ xs) changed kept = elim (Bool-cases (p x)) [
  | inl e ↦ (rw e (changed x e), All-updated P p f xs changed kept)
  | inr e ↦ (rw e (kept x e), All-updated P p f xs changed kept)
]

pub select-all {ℓ} :
    {A : Type ℓ} (p : A → Bool) (xs : List A) → ((x : A) → p x ≡ true) → select p xs ≡ xs
unfolding select
select-all p [] h = refl
select-all p (x ∷ xs) h = rw (h x) (rw (select-all p xs h) refl)

pub take-nil {ℓ} : {A : Type ℓ} (n : ℕ) → take {A = A} n [] ≡ []
take-nil zero = refl
take-nil (suc n) = refl
