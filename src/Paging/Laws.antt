-- ===== src/Paging/Laws.antt =====
-- Whoever follows the cursors sees every row once, in order.
use agentmesh_mcp.Prelude.{
  ℕ, zero, suc, ◌≤◌, ◌≡◌, refl, sym, ap, ◌∙◌, true, Option, none, some, List, [], ◌∷◌, ◌++◌, map,
  ltb, length, take, take-all, select, select-all, order_by, Unique, arith, Bool-cases, inl, inr,
  if◌then◌else◌,
}
use mathlib.Core.Path.{subst}
use agentmesh_mcp.Paging.{CreatedCursor, after_cursor, last, newest_first, cursor_of}
use agentmesh_mcp.Paging.Order.{
  Split, last-append, Split-long, is_after, rows_after-order_by, InOrder, select-after, same_id,
  order_by-InOrder, created_page-take, fetched,
}
use mathlib.Core.List

abbrev pub and_then :
    {B : Type 0} → List B × Option CreatedCursor → (CreatedCursor → List B) → List B
and_then (items, none) rest = items
and_then (items, some c) rest = items ++ rest c

-- A client that asks for the first page and then follows the cursors, for at most `fuel` pages.
unfoldable pub follow :
    {B : Type 0}
    → ℕ
    → (Option CreatedCursor → List B × Option CreatedCursor)
    → Option CreatedCursor
    → List B
follow zero fetch cursor = []
follow (suc fuel) fetch cursor = and_then (fetch cursor) (λ c. follow fuel fetch (some c))

module _ {A B : Type 0} (key : A → CreatedCursor) (f : A → B) (limit : ℕ) (rows : List A)
    (unique : Unique (same_id key) rows) where
  abbrev sorted : List A
  sorted = order_by (newest_first key) rows

  fetched-rest :
      (cursor : Option CreatedCursor) (left : List A)
      → select (is_after key cursor) sorted ≡ left
      → fetched key f (suc limit) rows cursor ≡ (
        map f (take (suc limit) left),
        if ltb (suc limit) (length left)
            then cursor_of key (last (take (suc limit) left))
            else none,
      )
  fetched-rest cursor left h =
      rw (rows_after-order_by key cursor (suc limit) rows)
        (rw h (rw (created_page-take key left (suc limit)) refl))

  -- A page that is not the last one, before what follows its cursor.
  fetched-more :
      (cursor : Option CreatedCursor) (left : List A)
      → select (is_after key cursor) sorted ≡ left
      → ltb (suc limit) (length left) ≡ true
      → (s : Split (suc limit) left) (rest : Option CreatedCursor → List B)
      → rest (some (key s.final)) ≡ map f s.rest
      → and_then (fetched key f (suc limit) rows cursor) (λ c. rest (some c)) ≡ map f left
  unfolding cursor_of
  fetched-more cursor left h long s rest next = rw (fetched-rest cursor left h) (
      rw long (
        rw s.page (
          rw (last-append s.before s.final) (
            rw next (
              sym (List.map-append f (s.before ++ s.final ∷ []) s.rest)
              ∙ ap (map f) (List.append_assoc s.before (s.final ∷ []) s.rest ∙ sym s.whole))))))

  -- What is left of the sorted table is what following the cursors gives.
  follow-rest :
      (fuel : ℕ) (cursor : Option CreatedCursor) (seen left : List A)
      → sorted ≡ seen ++ left
      → select (is_after key cursor) sorted ≡ left
      → length left ≤ fuel
      → follow fuel (fetched key f (suc limit) rows) cursor ≡ map f left
  unfolding follow
  follow-rest zero cursor seen [] whole h short = refl
  follow-rest zero cursor seen (x ∷ left) whole h short = absurd (omega (arith, short))
  follow-rest (suc fuel) cursor seen left whole h short =
      elim (Bool-cases (ltb (suc limit) (length left))) [
        | inl long ↦
            let s = Split-long limit left long in
            let here : sorted ≡ (seen ++ s.before) ++ (s.final ∷ s.rest) =
              whole
              ∙ ap (λ l. seen ++ l) s.whole
              ∙ sym (List.append_assoc seen s.before (s.final ∷ s.rest)) in
            let after : select (is_after key (some (key s.final))) sorted ≡ s.rest =
              subst (λ l. select (is_after key (some (key s.final))) l ≡ s.rest) (sym here)
                (select-after key (seen ++ s.before) s.final s.rest
                  (subst (λ l. InOrder key l) here (order_by-InOrder key rows unique))) in
            fetched-more cursor left h long s (follow fuel (fetched key f (suc limit) rows)) (
              follow-rest fuel (some (key s.final)) ((seen ++ s.before) ++ (s.final ∷ [])) s.rest
                (here ∙ sym (List.append_assoc (seen ++ s.before) (s.final ∷ []) s.rest)) after
                (omega (arith, short, s.shorter)))
        | inr done ↦
            rw (fetched-rest cursor left h) (rw done (rw (take-all (suc limit) left done) refl))
      ]

  -- As many pages as there are rows are enough.
  pub follow_all :
      (fuel : ℕ)
      → length sorted ≤ fuel
      → follow fuel (fetched key f (suc limit) rows) none ≡ map f sorted
  unfolding select after_cursor
  follow_all fuel short =
      follow-rest fuel none [] sorted refl (select-all (is_after key none) sorted (λ a. refl)) short
