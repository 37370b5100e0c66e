-- ===== src/Orders/Service/Steps.antt =====
-- What `createOrder`'s transaction has called when it returns a new order
-- (src/orders/orders.service.ts).
use nodejs_pro_task.Base.{
  ℕ, ◌≡◌, ◌⊎◌, inl, inr, Bool-cases, Bool, true, false, none, some, List, map, length, ◌==◌, arith,
}
use nodejs_pro_task.Errors.{
  Exception, domain, cannot_find_products, failed_to_create_order, Result, ok, err, Result-cases,
}
use nodejs_pro_task.Base.Int.{sub_ℕ}
use nodejs_pro_task.Schema.{Product}
use nodejs_pro_task.Database.{Database}
use nodejs_pro_task.Database.Queries.{LoadedOrder, NewItem}
use nodejs_pro_task.UnitOfWork.{Transaction, commit}
use nodejs_pro_task.Orders.Repository.{
  find_options, by_id, find_by_ids, extend_products, extend_items, find_one,
}
use nodejs_pro_task.Orders.Service.{fill_order}
use nodejs_pro_task.Orders.Service.Reservation.{OrderItemDto, reserve}

module _ (D : Database) where
  pub record Filled (c c' : Transaction D) (order_id : ℕ) (items : List OrderItemDto)
      (found : LoadedOrder) : Type 0 where
    pub products : List Product
    pub rows : List NewItem
    pub reserved : List Product
    pub after_items : D.Db
    pub after_products : D.Db
    pub stored : D.Db
    pub locked : D.lock_products (map (λ i. i.id) items) c.working ≡ ok products
    pub counted : (length products == length items) ≡ true
    pub looped : reserve order_id items products ≡ ok (rows, reserved)
    pub saved_items : D.save_items rows c.working ≡ ok after_items
    pub saved_products : D.save_products reserved after_items ≡ ok after_products
    pub reloaded : D.find_one (find_options (by_id order_id none)) after_products ≡ ok (some found)
    pub committed : D.commit after_products ≡ ok stored
    pub ends : c' ≡ record c { committed = stored; working = after_products; finished = true }

  -- The transaction is as it was for everybody else.
  abbrev pub Failed : Transaction D → Result (LoadedOrder × Bool) × Transaction D → Type 0
  Failed c (r, c') = (e : Exception) × (r ≡ err e) × (c'.committed ≡ c.committed)

  abbrev pub Finished :
      Transaction D → ℕ → List OrderItemDto → Result (LoadedOrder × Bool) × Transaction D → Type 0
  Finished c order_id items (r, c') =
      (found : LoadedOrder) × (r ≡ ok (found, false)) × Filled c c' order_id items found

  -- From where the loop over the products has ended.
  written-cases :
      (order_id : ℕ) (items : List OrderItemDto) (c : Transaction D) (ps : List Product)
      (rows : List NewItem) (qs : List Product)
      → c.finished ≡ false
      → D.lock_products (map (λ i. i.id) items) c.working ≡ ok ps
      → (length ps == length items) ≡ true
      → reserve order_id items ps ≡ ok (rows, qs)
      → Finished c order_id items (fill_order D order_id items c)
        ⊎ Failed c (fill_order D order_id items c)
  unfolding fill_order find_by_ids extend_items extend_products find_one commit
  written-cases order_id items c ps rows qs open_tx e₁ n e₂ =
      elim (Result-cases (D.save_items rows c.working)) [
        | inr (e, e₃) ↦ inr (e, ground arith, ground arith)
        | inl (w₁, e₃) ↦ elim (Result-cases (D.save_products qs w₁)) [
          | inr (e, e₄) ↦ inr (e, ground arith, ground arith)
          | inl (w₂, e₄) ↦
              elim (Result-cases (D.find_one (find_options (by_id order_id none)) w₂)) [
                | inr (e, e₅) ↦ inr (e, ground arith, ground arith)
                | inl (none, e₅) ↦ inr (domain failed_to_create_order, ground arith, ground arith)
                | inl (some l, e₅) ↦ elim (Result-cases (D.commit w₂)) [
                  | inr (e, e₆) ↦ inr (e, ground arith, ground arith)
                  | inl (d, e₆) ↦ inl (
                    l,
                    ground arith,
                    record {
                      products = ps;
                      rows = rows;
                      reserved = qs;
                      after_items = w₁;
                      after_products = w₂;
                      stored = d;
                      locked = e₁;
                      counted = n;
                      looped = e₂;
                      saved_items = e₃;
                      saved_products = e₄;
                      reloaded = e₅;
                      committed = e₆;
                      ends = ground arith;
                    },
                  )
                ]
              ]
        ]
      ]

  -- On an open transaction the body fails and has committed nothing, or has made every step.
  pub fill_order-cases :
      (order_id : ℕ) (items : List OrderItemDto) (c : Transaction D)
      → c.finished ≡ false
      → Finished c order_id items (fill_order D order_id items c)
        ⊎ Failed c (fill_order D order_id items c)
  unfolding fill_order find_by_ids
  fill_order-cases order_id items c open_tx =
      elim (Result-cases (D.lock_products (map (λ i. i.id) items) c.working)) [
        | inr (e, e₁) ↦ inr (e, ground arith, ground arith)
        | inl (ps, e₁) ↦ elim (Bool-cases (length ps == length items)) [
          | inr n ↦ inr (
            domain (cannot_find_products (sub_ℕ (length items) (length ps)) none),
            ground arith,
            ground arith,
          )
          | inl n ↦ elim (Result-cases (reserve order_id items ps)) [
            | inr (e, e₂) ↦ inr (e, ground arith, ground arith)
            | inl ((rows, qs), e₂) ↦ written-cases order_id items c ps rows qs open_tx e₁ n e₂
          ]
        ]
      ]
