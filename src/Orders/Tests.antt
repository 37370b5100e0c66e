-- ===== src/Orders/Tests.antt =====
-- The order service at concrete inputs: two products in stock, an order of one of them, and the same
-- request again.
use nodejs_pro_task.Base.{
  ℕ, ◌≡◌, refl, sym, subst, arith, inl, inr, Bool-cases, ◌==◌, ◌⊎◌, none, some, [], ◌∷◌, ◌++◌,
}
use nodejs_pro_task.Base.Int.{pos, ◌≤ℤ◌, ◌-ℤ◌}
use nodejs_pro_task.Errors.{
  DomainError, Exception, ok, err, domain, plain, not_enough_items_in_stock, cannot_find_products,
}
use nodejs_pro_task.Schema.{Product, Order, created}
use nodejs_pro_task.Database.Contract.{IsLoaded}
use nodejs_pro_task.Database.Queries.{LoadedOrder}
use nodejs_pro_task.Database.Memory.{
  tables, memory, save_order, find_one, save_items, save_products,
}
use nodejs_pro_task.Database.Memory.Lawful.{memory-Laws}
use nodejs_pro_task.Database.Memory.Live.{memory-IsUp}
use nodejs_pro_task.Messages.{json, new_message}
use nodejs_pro_task.RabbitMq.{get_channel, send}
use nodejs_pro_task.RabbitMq.Wire.{Wire, wire, wire-Laws, wire-IsOpen}
use nodejs_pro_task.UnitOfWork.{create, commit, rollback, dispose, async_dispose, transaction}
use nodejs_pro_task.Orders.Repository.{
  find_options, by_key, add, recover_add, find_one as find_order, find_by_ids, extend_products,
  extend_items,
}
use nodejs_pro_task.Orders.Service.{World, fill_order, place_order, announce, create_order}
use nodejs_pro_task.Orders.Service.Reservation.{asked_qty, reserve}
use nodejs_pro_task.Orders.Samples.{
  alice, alice_known, asks_two, laptop, mouse, shop, two_mice, three_mice, twice_mice, no_keys,
  two_mice_possible,
}
use nodejs_pro_task.Orders.Listing.{post_order}
use nodejs_pro_task.Http.Correlation.{Request}
use nodejs_pro_task.Http.Filter.{catch_exception}
use nodejs_pro_task.Http.Refusals.{TellsMissing, TellsShort, post_order_refuses}
use nodejs_pro_task.Orders.Service.Guarantees.{
  Placed, create_order_all_or_nothing, create_order_repeated, create_order_new,
}
use nodejs_pro_task.Orders.Service.Placement.{CanPlace}
use nodejs_pro_task.Orders.Service.Unannounced.{create_order_unannounced}
use nodejs_pro_task.Orders.Service.Stock.{InStock, done, request, Requests-InStock}
use nodejs_pro_task.Orders.Service.Refusal.{Reason, create_order_refuses}
use nodejs_pro_task.Orders.Service.Total.{create_order_returns}
use nodejs_pro_task.Orders.Service.Idempotency.{create_order_twice}

-- The definitions that a call of `create_order` on this database runs through.
mice_order : LoadedOrder
unfolding create_order place_order fill_order add recover_add find_by_ids extend_items
    extend_products find_order create commit rollback dispose async_dispose transaction announce
    send get_channel save_order find_one save_items save_products reserve asked_qty ◌-ℤ◌
mice_order = record {
  id = 0;
  status = created;
  created_at = 5;
  user_id = none;
  idempotency_key = some 99;
  updated_at = some 5;
  processed_at = some none;
  items = some (
      record {
        order_id = 0;
        product_id = 11;
        qty = pos 2;
        purchase_price = "25";
        created_at = 5;
        updated_at = 5;
      }
      ∷ []);
}

two_mice_sold : (create_order memory wire 7 1 two_mice 99 shop).0 ≡ ok mice_order
unfolding mice_order
two_mice_sold = refl

three_mice_refused :
    (create_order memory wire 7 1 three_mice 99 shop).0
    ≡ err (domain (not_enough_items_in_stock 11 (pos 3) (pos 2)))
unfolding mice_order
three_mice_refused = refl

-- A product that stands twice in the request is counted as one that cannot be found.
twice_mice_refused :
    (create_order memory wire 7 1 twice_mice 99 shop).0
    ≡ err (domain (cannot_find_products (pos 1) none))
unfolding mice_order
twice_mice_refused = refl

abbrev old_order : Order
old_order = record {
  id = 0;
  user_id = 1;
  status = created;
  idempotency_key = 99;
  created_at = 4;
  updated_at = 4;
  processed_at = none;
}

abbrev used : World memory wire
used = record {
  db = record {
    clock = 5;
    users = alice ∷ [];
    products = mouse ∷ [];
    rows = record { order = old_order; items = [] } ∷ [];
    processed = [];
  };
  rabbitmq = none;
}

create_order_all_or_nothing_example :
    let (r, w') = create_order memory wire 7 1 two_mice 99 shop in
    (w' ≡ shop) ⊎ ((id : ℕ) × Placed (tables shop.db) (tables w'.db) 1 99 two_mice id)
create_order_all_or_nothing_example =
    create_order_all_or_nothing memory wire memory-Laws 7 1 99 two_mice shop refl

create_order_repeated_example :
    let (r, w') = create_order memory wire 8 1 three_mice 99 used in
    (w' ≡ used)
    × ((o : LoadedOrder) → r ≡ ok o → IsLoaded memory used.db (find_options (by_key 1 99)) o)
create_order_repeated_example =
    create_order_repeated memory wire memory-Laws 8 1 99 three_mice used
      (old_order, refl, refl, refl)

create_order_new_example :
    let w' = (create_order memory wire 7 1 two_mice 99 shop).1 in
    Placed (tables shop.db) (tables w'.db) 1 99 two_mice 0
    × ((ch : Wire) × (ch' : Wire) × (shop.rabbitmq ≡ some ch)
        × (w'.rabbitmq ≡ some ch')
        × (ch'.published ≡ ch.published ++ ("orders.process", json (new_message 7 0 0)) ∷ []))
unfolding mice_order
create_order_new_example =
    create_order_new memory wire memory-Laws 7 1 99 two_mice shop mice_order wire-Laws refl no_keys
      refl

create_order_returns_example :
    (o : LoadedOrder) × ((create_order memory wire 7 1 two_mice 99 shop).0 ≡ ok o)
create_order_returns_example =
    create_order_returns memory memory-Laws memory-IsUp 1 99 two_mice refl refl asks_two wire
      wire-IsOpen 7 shop (record { published = []; acked = []; rejected = [] }) refl no_keys
      alice_known two_mice_possible

create_order_twice_example :
    let w' = (create_order memory wire 7 1 two_mice 99 shop).1 in
    let (r, w'') = create_order memory wire 8 1 three_mice 99 w' in
    (w'' ≡ w') × ((o' : LoadedOrder) × (r ≡ ok o') × (o'.id ≡ mice_order.id))
create_order_twice_example =
    create_order_twice memory memory-Laws 1 99 wire 7 8 two_mice three_mice shop mice_order
      memory-IsUp wire-Laws refl no_keys two_mice_sold

shop_InStock : InStock (tables shop.db)
shop_InStock j p h = elim (Bool-cases (10 == j)) [
  | inl hit ↦
      let same : laptop ≡ p = ground arith in
      subst (λ (x : Product). pos 0 ≤ℤ x.stock) same (omega arith)
  | inr miss ↦ elim (Bool-cases (11 == j)) [
    | inl hit ↦
        let same : mouse ≡ p = ground arith in
        subst (λ (x : Product). pos 0 ≤ℤ x.stock) same (omega arith)
    | inr none_left ↦ absurd (ground arith)
  ]
]

Requests-InStock_example :
    let w₁ = (create_order memory wire 7 1 two_mice 99 shop).1 in
    let w₂ = (create_order memory wire 8 2 three_mice 98 w₁).1 in InStock (tables w₂.db)
Requests-InStock_example =
    Requests-InStock memory wire memory-Laws shop _
      (request 7 1 99 two_mice refl (request 8 2 98 three_mice refl done)) shop_InStock

abbrev cut_off : World memory wire
cut_off = record shop { rabbitmq = none }

abbrev new_wire : Wire
new_wire = record { published = []; acked = []; rejected = [] }

create_order_unannounced_example :
    let (r, w') = create_order memory wire 7 1 two_mice 99 cut_off in
    let w₁ = record w' { rabbitmq = some new_wire } in
    let (r₂, w₂) = create_order memory wire 8 1 two_mice 99 w₁ in
    (r ≡ err (plain "Channel is not created!"))
    × ((id : ℕ) × Placed (tables shop.db) (tables w'.db) 1 99 two_mice id)
    × (w₂ ≡ w₁)
    × ((o : LoadedOrder) × (r₂ ≡ ok o))
create_order_unannounced_example =
    create_order_unannounced memory memory-Laws memory-IsUp 1 99 two_mice refl wire 7 8 two_mice
      cut_off new_wire refl asks_two refl no_keys alice_known two_mice_possible

three_mice_impossible : ¬ CanPlace three_mice (tables shop.db)
unfolding asked_qty
three_mice_impossible can =
    let (p, stored, enough) = can 11 (pos 3) refl in
    let same : mouse ≡ p = ground arith in
    let over : pos 3 ≤ℤ mouse.stock = subst (λ (x : Product). pos 3 ≤ℤ x.stock) (sym same) enough in
    omega arith

create_order_refuses_example :
    (e : DomainError) × (create_order memory wire 7 1 three_mice 99 shop ≡ (err (domain e), shop))
    × Reason three_mice (tables shop.db) e
create_order_refuses_example =
    create_order_refuses memory memory-Laws memory-IsUp 1 99 three_mice refl wire 7 shop no_keys
      alice_known three_mice_impossible

abbrev silent : Request
silent = record { header = none; correlation_id = none }

post_order_refuses_example :
    (e : Exception) × (post_order memory wire 7 1 three_mice (some 99) shop ≡ (err e, shop))
    × (TellsMissing three_mice (tables shop.db) (catch_exception e silent)
        ⊎ TellsShort three_mice (tables shop.db) (catch_exception e silent))
post_order_refuses_example =
    post_order_refuses memory memory-Laws memory-IsUp 1 99 three_mice refl wire 7 shop silent
      no_keys alice_known three_mice_impossible
