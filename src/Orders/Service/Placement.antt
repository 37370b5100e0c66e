-- ===== src/Orders/Service/Placement.antt =====
-- What `createOrder` promises of the tables, without its loop and its statements
-- (src/orders/orders.service.ts): one new order, its items at today's prices, and the stock that is
-- left.
use nodejs_pro_task.Base.{ℕ, ◌≡◌, Option, none, some, List, ◌==◌, if◌then◌else◌}
use nodejs_pro_task.Base.Int.{ℤ, ◌-ℤ◌, ◌≤ℤ◌}
use nodejs_pro_task.Schema.{Product, Order, OrderItem, Tables}
use nodejs_pro_task.Orders.Service.Reservation.{OrderItemDto, asked_qty}

abbrev pub sold : ℕ → ℤ → Product → Product
sold moment q p = record p { stock = p.stock -ℤ q; updated_at = moment }

abbrev pub purchased : Order → ℤ → Product → OrderItem
purchased o q p = record {
  order_id = o.id;
  product_id = p.id;
  qty = q;
  purchase_price = p.price;
  created_at = o.created_at;
  updated_at = o.created_at;
}

-- The stock of a product after the request, and the item that the order has of it.
abbrev pub left_of : Order → Option ℤ → Option Product → Option Product
left_of o none p = p
left_of o (some q) none = none
left_of o (some q) (some p) = some (sold o.created_at q p)

abbrev pub item_of : Order → Option ℤ → Option Product → Option OrderItem
item_of o none p = none
item_of o (some q) none = none
item_of o (some q) (some p) = some (purchased o q p)

abbrev pub place : Order → List OrderItemDto → Tables → Tables
place o asked t = record t {
  orders = λ j. if j == o.id then some o else t.orders j;
  products = λ j. left_of o (asked_qty j asked) (t.products j);
  order_items =
      λ n j. if o.id == n then item_of o (asked_qty j asked) (t.products j) else t.order_items n j;
}

-- Every product that is asked for is there, with enough in stock.
abbrev pub CanPlace : List OrderItemDto → Tables → Type 0
CanPlace asked t =
    (j : ℕ) (q : ℤ)
    → asked_qty j asked ≡ some q
    → (p : Product) × (t.products j ≡ some p) × (q ≤ℤ p.stock)
