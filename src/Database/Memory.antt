-- ===== src/Database/Memory.antt =====
-- A database in memory, which shows that the contract can be met: an order's identifier is its place
-- in the list, and a write of a product goes in front of the older ones.
pub mod Rows
pub mod Products
pub mod Proofs
pub mod Lawful
pub mod Live
use nodejs_pro_task.Base.{
  ℕ, String, Bool, true, false, ◌&&◌, Option, none, some, List, [], ◌∷◌, ◌++◌, ◌==◌, str_eq, length,
  if◌then◌else◌,
}
use nodejs_pro_task.Errors.{driver, plain, Result, ok, err}
use nodejs_pro_task.Schema.{User, Product, Order, OrderStatus, created, ProcessedMessage, Tables}
use nodejs_pro_task.Database.{Database}
use nodejs_pro_task.Database.Queries.{LoadedOrder, NewItem, FindOptions, load, meets, product_for}
use nodejs_pro_task.Database.Memory.Rows.{
  Row, named, order_at, item_at, find_row, amend, put_all, all_known,
}
use nodejs_pro_task.Database.Memory.Products.{pick, stamped}

pub record Store : Type 0 where
  pub clock : ℕ
  pub users : List User
  pub products : List Product
  pub rows : List Row
  pub processed : List ProcessedMessage

abbrev pub processed_for : ℕ → String → List ProcessedMessage → Option ProcessedMessage
processed_for i h [] = none
processed_for i h (m ∷ ms) =
    if (m.message_id == i) && str_eq m.handler h then some m else processed_for i h ms

abbrev pub user_for : ℕ → List User → Option User
user_for i [] = none
user_for i (u ∷ us) = if u.id == i then some u else user_for i us

abbrev pub tables : Store → Tables
tables s = record {
  users = λ j. user_for j s.users;
  products = λ j. product_for j s.products;
  orders = λ j. order_at j s.rows;
  order_items = λ o j. item_at o j s.rows;
  processed_messages = λ i h. processed_for i h s.processed;
}

abbrev pub has_key : ℕ → ℕ → Order → Bool
has_key user key o = (o.user_id == user) && (o.idempotency_key == key)

abbrev pub new_order : ℕ → ℕ → Store → Order
new_order user key s = record {
  id = length s.rows;
  user_id = user;
  status = created;
  idempotency_key = key;
  created_at = s.clock;
  updated_at = s.clock;
  processed_at = none;
}

unfoldable pub save_order : ℕ → ℕ → Store → Result (Order × Store)
save_order user key s = elim (find_row (has_key user key) s.rows) [
  | some _ ↦ err (driver "23505")
  | none ↦ elim (user_for user s.users) [
    | none ↦ err (driver "23503")
    | some _ ↦ ok (
      new_order user key s,
      record s { rows = record { order = new_order user key s; items = [] } ∷ s.rows },
    )
  ]
]

unfoldable pub find_one : FindOptions → Store → Result (Option LoadedOrder)
find_one q s = elim (find_row (meets q) s.rows) [
  | none ↦ ok none
  | some (j, r) ↦ ok (some (load q (named j r.order) r.items))
]

unfoldable pub find_one_or_fail : FindOptions → Store → Result LoadedOrder
find_one_or_fail q s = elim (find_row (meets q) s.rows) [
  | none ↦ err (plain "EntityNotFoundError")
  | some (j, r) ↦ ok (load q (named j r.order) r.items)
]

abbrev pub update_row : OrderStatus → ℕ → ℕ → Row → Row
update_row status processed moment r = record r {
  order = record r.order { status = status; processed_at = some processed; updated_at = moment };
}

unfoldable pub update_order : ℕ → OrderStatus → ℕ → Store → Result Store
update_order id status processed s =
    ok (record s { rows = amend id (update_row status processed s.clock) s.rows })

unfoldable pub save_items : List NewItem → Store → Result Store
save_items is s =
    if all_known is s.rows
    then ok (record s { rows = put_all s.clock is s.rows })
    else err (driver "23503")

unfoldable pub save_products : List Product → Store → Result Store
save_products ps s = ok (record s { products = stamped s.clock ps ++ s.products })

unfoldable pub insert_processed : ℕ → String → Store → Result Store
insert_processed i h s = elim (processed_for i h s.processed) [
  | some _ ↦ err (driver "23505")
  | none ↦ ok (record s {
    processed =
        record { id = length s.processed; message_id = i; handler = h; processed_at = s.clock }
        ∷ s.processed;
  })
]

unfoldable pub transaction : (Store → Result Bool × Store) → Store → Result Bool × Store
transaction f s = elim (f s).0 [ ok b ↦ (ok b, (f s).1) | err e ↦ (err e, s) ]

-- `IN ()` is a syntax error.
abbrev pub lock_products : List ℕ → Store → Result (List Product)
lock_products [] s = err (driver "42601")
lock_products (i ∷ is) s = ok (pick (i ∷ is) s.products)

abbrev pub memory : Database
memory = record {
  Db = Store;
  view = tables;
  now = λ s. s.clock;
  start = λ s. ok s;
  commit = λ s. ok s;
  rollback = λ s. ok tt;
  release = λ s. ok tt;
  save_order = save_order;
  find_one = find_one;
  find_one_or_fail = find_one_or_fail;
  update_order = update_order;
  lock_products = lock_products;
  find_product = λ j s. ok (product_for j s.products);
  save_products = save_products;
  save_items = save_items;
  insert_processed = insert_processed;
  transaction = transaction;
}
