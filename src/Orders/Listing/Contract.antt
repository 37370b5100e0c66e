-- ===== src/Orders/Listing/Contract.antt =====
-- What the listing of orders relies on in TypeORM's query builder (find of
-- src/orders/orders.repository.ts): a page of the rows that meet the conditions, with their items.
use nodejs_pro_task.Base.{
  ℕ, zero, suc, ◌≡◌, Bool, true, false, map, if◌then◌else◌, Option, none, some, List, [], ◌∷◌, take,
  drop,
}
use nodejs_pro_task.Base.Int.{pos}
use nodejs_pro_task.Errors.{ok}
use nodejs_pro_task.Schema.{Order, OrderItem}
use nodejs_pro_task.Database.{Database}
use nodejs_pro_task.Database.Queries.{LoadedOrder, item_for}
use nodejs_pro_task.Orders.Listing.{OrderFilter, PageQuery, accepts, GetMany, created_at_desc}
use nodejs_pro_task.Orders.Listing.Ranking.{Ranked}

abbrev pub nth {ℓ} : {A : Type ℓ} → ℕ → List A → Option A
nth n [] = none
nth zero (x ∷ xs) = some x
nth (suc n) (x ∷ xs) = nth n xs

-- What a query loads of a row: the items with some columns, and of the other columns those that
-- `findOne` selects, or only the identifier, the status and the moment of creation.
abbrev pub shown : Bool → Order → List OrderItem → LoadedOrder
shown detailed row items = record {
  id = row.id;
  status = row.status;
  created_at = row.created_at;
  user_id = none;
  idempotency_key = if detailed then some row.idempotency_key else none;
  updated_at = if detailed then some row.updated_at else none;
  processed_at = if detailed then some row.processed_at else none;
  items = some items;
}

abbrev pub ids : List LoadedOrder → List ℕ
ids = map (λ o. o.id)

abbrev pub row_ids : List Order → List ℕ
row_ids = map (λ o. o.id)

module _ (D : Database) where
  -- An order that a query has loaded is a row that meets the conditions, with the items of that row.
  pub record IsListed (f : OrderFilter) (d : D.Db) (o : LoadedOrder) : Type 0 where
    pub row : Order
    pub items : List OrderItem
    pub stored : (D.view d).orders row.id ≡ some row
    pub accepted : accepts f row ≡ true
    pub loaded : o ≡ shown false row items
    pub each : (p : ℕ) → item_for p items ≡ (D.view d).order_items row.id p

  pub record Lists (get_many : GetMany D) : Type 0 where
    pub listed :
        (q : PageQuery) (d : D.Db) (os : List LoadedOrder) (n : ℕ) (o : LoadedOrder)
        → get_many q d ≡ ok os
        → nth n os ≡ some o
        → IsListed q.filter d o
    -- Each query puts the rows that meet its conditions into its order on its own, and those of one
    -- moment as it likes. Without a number of rows to take it can return more than a page.
    pub page :
        (q : PageQuery) (d : D.Db) (os : List LoadedOrder) (t s : ℕ)
        → get_many q d ≡ ok os
        → q.order_by ≡ created_at_desc
        → q.take ≡ pos (suc t)
        → q.skip ≡ pos s
        → (rows : List Order) × Ranked q.filter (D.view d) rows
          × (ids os ≡ take (suc t) (drop s (row_ids rows)))
