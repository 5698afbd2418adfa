-- ===== src/Paging/Order.antt =====
-- The order of the lists, and the rows that a cursor leaves.
use agentmesh_mcp.Prelude.{
  ℕ, zero, suc, ◌+◌, ◌≤◌, ◌≡◌, refl, ap, Bool, true, false, Option, none, some, List, [], ◌∷◌, ◌++◌,
  map, ◌==◌, ltb, length, take, take-take_suc, length-take_suc, select, order_by, order_by-IsSorted,
  insert_by, IsSorted, All, All-imp, All-Row, All-insert_by, All-order_by, here, Row-append_right,
  Unique, arith, Bool-cases, inl, inr, if◌then◌else◌,
}
use agentmesh_mcp.Paging.{
  CreatedCursor, precedes, after_cursor, last, newest_first, cursor_of, created_page, rows_after,
}

after-precedes : (c k : CreatedCursor) → after_cursor (some c) k ≡ precedes c k
unfolding after_cursor precedes
after-precedes c k = ground arith

precedes_irrefl : (a : CreatedCursor) → precedes a a ≡ false
unfolding precedes
precedes_irrefl a = ground arith

precedes_asym : (a b : CreatedCursor) → precedes a b ≡ true → precedes b a ≡ false
unfolding precedes
precedes_asym a b h = ground arith

precedes_cotrans :
    (a b c : CreatedCursor) → precedes b a ≡ false → precedes c b ≡ false → precedes c a ≡ false
unfolding precedes
precedes_cotrans a b c h k = ground arith

-- Rows that an ORDER BY has sorted are selected in order.
module _ {A : Type 0} (le : A → A → Bool)
    (le_trans : (x y z : A) → le x y ≡ true → le y z ≡ true → le x z ≡ true)
    (le_total : (x y : A) → le x y ≡ false → le y x ≡ true) (q : A → Bool) where
  insert_first : (x : A) (ys : List A) → All (λ y. le x y ≡ true) ys → insert_by le x ys ≡ x ∷ ys
  unfolding insert_by
  insert_first x [] h = refl
  insert_first x (y ∷ ys) (h, hs) = rw h refl

  All-selected : (P : A → Type 0) (xs : List A) → All P xs → All P (select q xs)
  unfolding select
  All-selected P [] h = tt
  All-selected P (x ∷ xs) (h, hs) = elim (Bool-cases (q x)) [
    | inl e ↦ rw e (h, All-selected P xs hs)
    | inr e ↦ rw e (All-selected P xs hs)
  ]

  select-insert_by :
      (x : A) (ys : List A)
      → IsSorted le ys
      → select q (insert_by le x ys) ≡ (if q x then insert_by le x (select q ys) else select q ys)
  unfolding select insert_by
  select-insert_by x [] s = refl
  select-insert_by x (y ∷ ys) (h, s) = elim (Bool-cases (le x y)) [
    | inl e ↦
        let first = insert_first x (select q (y ∷ ys)) (
          All-selected (λ z. le x z ≡ true) (y ∷ ys)
            (e, All-imp _ _ ys (λ z k. le_trans x y z e k) h)) in
        ground (arith, e, first)
    | inr e ↦ ground (arith, e, select-insert_by x ys s)
  ]

  pub select-order_by : (xs : List A) → select q (order_by le xs) ≡ order_by le (select q xs)
  unfolding select order_by
  select-order_by [] = refl
  select-order_by (x ∷ xs) = ground (
    arith,
    select-insert_by x (order_by le xs) (order_by-IsSorted le le_trans le_total xs),
    select-order_by xs,
  )

-- A list that is longer than the limit: the last row of its page, and what follows.
pub record Split {A : Type 0} (limit : ℕ) (xs : List A) : Type 0 where
  pub before : List A
  pub final : A
  pub rest : List A
  pub whole : xs ≡ before ++ final ∷ rest
  pub page : take limit xs ≡ before ++ final ∷ []
  pub shorter : length rest + 1 ≤ length xs

pub last-append : {A : Type 0} (xs : List A) (x : A) → last (xs ++ x ∷ []) ≡ some x
unfolding last
last-append [] x = refl
last-append (y ∷ []) x = refl
last-append (y ∷ z ∷ xs) x = last-append (z ∷ xs) x

pub Split-long :
    {A : Type 0} (n : ℕ) (xs : List A) → ltb (suc n) (length xs) ≡ true → Split (suc n) xs
Split-long n [] h = absurd (ground arith)
Split-long zero (x ∷ xs) h = record {
  before = [];
  final = x;
  rest = xs;
  whole = refl;
  page = refl;
  shorter = omega arith;
}
Split-long (suc n) (x ∷ xs) h =
    let s = Split-long n xs (ground arith) in
    record {
      before = x ∷ s.before;
      final = s.final;
      rest = s.rest;
      whole = ap (λ l. x ∷ l) s.whole;
      page = ap (λ l. x ∷ l) s.page;
      shorter = omega (arith, s.shorter);
    }

module _ {A : Type 0} (key : A → CreatedCursor) where
  newest_trans :
      (x y z : A)
      → newest_first key x y ≡ true
      → newest_first key y z ≡ true
      → newest_first key x z ≡ true
  unfolding newest_first
  newest_trans x y z h k = ground (arith, precedes_cotrans (key x) (key y) (key z))

  newest_total : (x y : A) → newest_first key x y ≡ false → newest_first key y x ≡ true
  unfolding newest_first
  newest_total x y h = ground (arith, precedes_asym (key y) (key x))

  abbrev pub is_after : Option CreatedCursor → A → Bool
  is_after cursor a = after_cursor cursor (key a)

  -- The rows of a page, read from the sorted table.
  pub rows_after-order_by :
      (cursor : Option CreatedCursor) (limit : ℕ) (rows : List A)
      → rows_after key cursor limit rows
        ≡ take (limit + 1) (select (is_after cursor) (order_by (newest_first key) rows))
  unfolding rows_after
  rows_after-order_by cursor limit rows =
      rw (select-order_by (newest_first key) newest_trans newest_total (is_after cursor) rows) refl

  abbrev pub InOrder : List A → Type 0
  InOrder xs = IsSorted (λ a b. precedes (key a) (key b)) xs

  select-after_first :
      (x : A) (xs : List A)
      → All (λ y. precedes (key x) (key y) ≡ true) xs
      → select (is_after (some (key x))) xs ≡ xs
  unfolding select
  select-after_first x [] h = refl
  select-after_first x (y ∷ ys) (h, hs) =
      ground (arith, after-precedes (key x) (key y), h, select-after_first x ys hs)

  -- After the cursor of a row come the rows that follow it.
  pub select-after :
      (before : List A) (x : A) (rest : List A)
      → InOrder (before ++ x ∷ rest)
      → select (is_after (some (key x))) (before ++ x ∷ rest) ≡ rest
  unfolding select
  select-after [] x rest (h, s) =
      ground (
        arith,
        after-precedes (key x) (key x),
        precedes_irrefl (key x),
        select-after_first x rest h,
      )
  select-after (y ∷ before) x rest (h, s) =
      let earlier : precedes (key y) (key x) ≡ true =
        All-Row (λ z. precedes (key y) (key z) ≡ true) h
          (Row-append_right before (x ∷ rest) here) in
      ground (
        arith,
        after-precedes (key x) (key y),
        precedes_asym (key y) (key x) earlier,
        select-after before x rest s,
      )

  abbrev pub same_id : A → A → Bool
  same_id a b = (key a).id == (key b).id

  insert_by-Unique :
      (le : A → A → Bool) (x : A) (ys : List A)
      → All (λ y. same_id x y ≡ false) ys
      → Unique same_id ys
      → Unique same_id (insert_by le x ys)
  unfolding insert_by
  insert_by-Unique le x [] h u = (tt, tt)
  insert_by-Unique le x (y ∷ ys) (h, hs) (k, u) = elim (Bool-cases (le x y)) [
    | inl e ↦ rw e ((h, hs), (k, u))
    | inr e ↦ rw e (
      All-insert_by (λ z. same_id y z ≡ false) le x ys (ground (arith, h)) k,
      insert_by-Unique le x ys hs u,
    )
  ]

  order_by-Unique :
      (le : A → A → Bool) (xs : List A) → Unique same_id xs → Unique same_id (order_by le xs)
  unfolding order_by
  order_by-Unique le [] u = tt
  order_by-Unique le (x ∷ xs) (k, u) =
      insert_by-Unique le x (order_by le xs) (All-order_by (λ y. same_id x y ≡ false) le xs k)
        (order_by-Unique le xs u)

  strictly :
      (x y : A)
      → newest_first key x y ≡ true
      → same_id x y ≡ false
      → precedes (key x) (key y) ≡ true
  unfolding newest_first precedes
  strictly x y h k = ground arith

  InOrder-IsSorted : (xs : List A) → IsSorted (newest_first key) xs → Unique same_id xs → InOrder xs
  InOrder-IsSorted [] s u = tt
  InOrder-IsSorted (x ∷ xs) (h, s) (k, u) = (all_strictly x xs h k, InOrder-IsSorted xs s u)
    where
      all_strictly :
          (x : A) (xs : List A)
          → All (λ y. newest_first key x y ≡ true) xs
          → All (λ y. same_id x y ≡ false) xs
          → All (λ y. precedes (key x) (key y) ≡ true) xs
      all_strictly x [] h k = tt
      all_strictly x (y ∷ ys) (h, hs) (k, ks) = (strictly x y h k, all_strictly x ys hs ks)

  pub order_by-InOrder :
      (rows : List A) → Unique same_id rows → InOrder (order_by (newest_first key) rows)
  order_by-InOrder rows u =
      InOrder-IsSorted (order_by (newest_first key) rows)
        (order_by-IsSorted (newest_first key) newest_trans newest_total rows)
        (order_by-Unique (newest_first key) rows u)

  pub created_page-take :
      (xs : List A) (limit : ℕ)
      → created_page key (take (limit + 1) xs) limit ≡ (
        take limit xs,
        if ltb limit (length xs) then cursor_of key (last (take limit xs)) else none,
      )
  unfolding created_page
  created_page-take xs limit = rw (take-take_suc limit xs) (rw (length-take_suc limit xs) refl)

  -- The page of a query.
  abbrev pub fetched :
      {B : Type 0} → (A → B) → ℕ → List A → Option CreatedCursor → List B × Option CreatedCursor
  fetched f limit rows cursor =
      let page = created_page key (rows_after key cursor limit rows) limit in (map f page.0, page.1)
