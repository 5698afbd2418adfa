-- ===== src/Paging.antt =====
-- The cursor of src/admin/contracts.ts for rows in the order of their creation, and the page that
-- `createdPage` of src/control/operator-service.ts and `list` of src/control/project-service.ts
-- make. The text of a cursor is left out: it is the cursor here.
pub mod Order
pub mod Laws
use agentmesh_mcp.Prelude.{
  ℕ, zero, suc, ◌+◌, ◌≡◌, Bool, true, false, not, ◌&&◌, ◌||◌, Option, none, some, List, [], ◌∷◌,
  ◌++◌, map, ◌==◌, ltb, length, take, select, order_by, if◌then◌else◌,
}
use agentmesh_mcp.Schema.{Uuid, Date}

pub record CreatedCursor : Type 0 where
  pub created_at : Date
  pub id : Uuid

-- The order of the lists: the newest first, and of the rows of one moment the greatest id.
unfoldable pub precedes : CreatedCursor → CreatedCursor → Bool
precedes a b = ltb b.created_at a.created_at || a.created_at == b.created_at && ltb b.id a.id

-- WHERE createdAt < cursor.created_at OR createdAt = cursor.created_at AND id < cursor.id
unfoldable pub after_cursor : Option CreatedCursor → CreatedCursor → Bool
after_cursor none k = true
after_cursor (some c) k =
    ltb k.created_at c.created_at || k.created_at == c.created_at && ltb k.id c.id

-- `page.at(-1)`
unfoldable pub last {ℓ} : {A : Type ℓ} → List A → Option A
last [] = none
last (x ∷ []) = some x
last (x ∷ y ∷ xs) = last (y ∷ xs)

module _ {A : Type 0} (key : A → CreatedCursor) where
  -- ORDER BY created_at DESC, id DESC
  unfoldable pub newest_first : A → A → Bool
  newest_first a b = not (precedes (key b) (key a))

  unfoldable pub cursor_of : Option A → Option CreatedCursor
  cursor_of none = none
  cursor_of (some a) = some (key a)

  -- The first rows, and the cursor of the last of them where the query gave more.
  unfoldable pub created_page : List A → ℕ → List A × Option CreatedCursor
  created_page items limit = (
    take limit items,
    if ltb limit (length items) then cursor_of (last (take limit items)) else none,
  )

  -- The query of a page: its rows after the cursor, with one more than the limit.
  unfoldable pub rows_after : Option CreatedCursor → ℕ → List A → List A
  rows_after cursor limit rows =
      take (limit + 1) (order_by newest_first (select (λ a. after_cursor cursor (key a)) rows))
