-- ===== src/Orders/Service/Reservation.antt =====
-- The loop of `createOrder` over the products that were found (src/orders/orders.service.ts), and the
-- body of the request (src/orders/create-order.dto.ts).
use nodejs_pro_task.Base.{
  ℕ, Bool, true, ◌&&◌, Option, none, some, List, [], ◌∷◌, ◌==◌, if◌then◌else◌,
}
use nodejs_pro_task.Base.Int.{ℤ, ◌-ℤ◌, ltb_ℤ, pos}
use nodejs_pro_task.Errors.{domain, driver, not_enough_items_in_stock, Result, ok, err}
use nodejs_pro_task.Schema.{Product}
use nodejs_pro_task.Database.Queries.{NewItem}

pub record OrderItemDto : Type 0 where
  pub id : ℕ
  pub qty : ℤ

-- `@IsInt() @Min(1)` on each `qty`, as the validation pipe leaves the body.
abbrev pub all_positive : List OrderItemDto → Bool
all_positive [] = true
all_positive (i ∷ is) = ltb_ℤ (pos 0) i.qty && all_positive is

-- `new Map(dto.items.map((i) => [i.id, i.qty])).get(id)`: of two entries the later one stays.
unfoldable pub asked_qty : ℕ → List OrderItemDto → Option ℤ
asked_qty id [] = none
asked_qty id (i ∷ is) = elim (asked_qty id is) [
  | some q ↦ some q
  | none ↦ if i.id == id then some i.qty else none
]

-- The loop: the rows of the order's items, and the products with what is left of them. The
-- lock gives only products that were asked for; with another one the rows could not be saved.
unfoldable pub reserve : ℕ → List OrderItemDto → List Product → Result (List NewItem × List Product)
reserve order_id asked [] = ok ([], [])
reserve order_id asked (p ∷ ps) =
    let rest = reserve order_id asked ps in
    elim (asked_qty p.id asked) [
      | none ↦ err (driver "22P02")
      | some q ↦
          if ltb_ℤ p.stock q
          then err (domain (not_enough_items_in_stock p.id q p.stock))
          else elim rest [
            | err e ↦ err e
            | ok (rows, reserved) ↦ ok (
              record { order_id = order_id; product_id = p.id; qty = q; purchase_price = p.price }
                  ∷ rows,
              record p { stock = p.stock -ℤ q } ∷ reserved,
            )
          ]
    ]
