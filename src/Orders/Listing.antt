-- ===== src/Orders/Listing.antt =====
-- Reading orders: findById, list and toDto of src/orders/orders.service.ts, find of
-- src/orders/orders.repository.ts, order-response.dto.ts, and the handlers of
-- src/orders/orders.controller.ts.
pub mod Ranking
pub mod Contract
pub mod Own
pub mod Pages
pub mod Bounds
mod Sorting
mod Memory
mod Tests
use nodejs_pro_task.Base.{
  ℕ, String, ◌+◌, ◌*◌, ◌≡◌, Bool, true, false, ◌&&◌, Option, none, some, List, [], ◌∷◌, ◌==◌,
  str_eq, leb, if◌then◌else◌,
}
use nodejs_pro_task.Base.Int.{ℤ, pos, pos_part, neg_part, sub_ℕ, ◌-ℤ◌}
use nodejs_pro_task.Errors.{Exception, http, object, one, plain, Result, ok, err}
use nodejs_pro_task.Exec.{Exec}
use nodejs_pro_task.Schema.{
  OrderStatus, created, canceled, processed, paid, Order, OrderItem, Tables,
}
use nodejs_pro_task.Database.{Database}
use nodejs_pro_task.Database.Queries.{LoadedOrder}
use nodejs_pro_task.RabbitMq.{Amqp}
use nodejs_pro_task.Orders.Repository.{find_options, by_id}
use nodejs_pro_task.Orders.Service.{World, create_order}
use nodejs_pro_task.Orders.Service.Reservation.{OrderItemDto}

pub record OrderItemResponseDto : Type 0 where
  pub product_id : ℕ
  pub qty : ℤ
  pub purchase_price : String

-- `{ ...o, items }`: a column that was not loaded is left out.
pub record OrderResponseDto : Type 0 where
  pub id : ℕ
  pub status : OrderStatus
  pub created_at : ℕ
  pub user_id : Option ℕ
  pub idempotency_key : Option ℕ
  pub updated_at : Option ℕ
  pub processed_at : Option (Option ℕ)
  pub items : List OrderItemResponseDto

abbrev pub item_dto : OrderItem → OrderItemResponseDto
item_dto i = record { product_id = i.product_id; qty = i.qty; purchase_price = i.purchase_price }

abbrev pub item_dtos : List OrderItem → List OrderItemResponseDto
item_dtos [] = []
item_dtos (i ∷ is) = item_dto i ∷ item_dtos is

-- One order of `toDto`; without its items there is nothing to map.
abbrev pub order_dto : LoadedOrder → Option (List OrderItem) → Result OrderResponseDto
order_dto o none = err (plain "TypeError")
order_dto o (some is) = ok (record {
  id = o.id;
  status = o.status;
  created_at = o.created_at;
  user_id = o.user_id;
  idempotency_key = o.idempotency_key;
  updated_at = o.updated_at;
  processed_at = o.processed_at;
  items = item_dtos is;
})

unfoldable pub to_dto : List LoadedOrder → Result (List OrderResponseDto)
to_dto [] = ok []
to_dto (o ∷ os) =
    let rest = to_dto os in
    elim (order_dto o o.items) [
      | err e ↦ err e
      | ok r ↦ elim rest [ err e ↦ err e | ok rs ↦ ok (r ∷ rs) ]
    ]

-- The conditions of `find`, without its page.
pub record OrderFilter : Type 0 where
  pub status : OrderStatus
  pub user_id : Option ℕ
  pub from : Option ℕ
  pub to : Option ℕ

-- The columns and directions of `orderBy`.
pub data OrderBy : Type 0 where
  created_at_asc created_at_desc : OrderBy

-- The query that `find` builds.
pub record PageQuery : Type 0 where
  pub filter : OrderFilter
  pub order_by : OrderBy
  pub take : ℤ
  pub skip : ℤ

infixl 70 ◌*ℤ◌
unfoldable pub ◌*ℤ◌ : ℤ → ℤ → ℤ
a *ℤ b =
    sub_ℕ (pos_part a * pos_part b + neg_part a * neg_part b)
      (pos_part a * neg_part b + neg_part a * pos_part b)

-- `orderBy("orders.createdAt", "DESC")`, `take(limit)` and `skip((page - 1) * limit)`.
unfoldable pub page_query : OrderFilter → ℤ → ℤ → PageQuery
unfolding ◌*ℤ◌ ◌-ℤ◌
page_query filter page limit = record {
  filter = filter;
  order_by = created_at_desc;
  take = limit;
  skip = (page -ℤ pos 1) *ℤ limit;
}

-- The values of the enumeration.
abbrev pub status_text : OrderStatus → String
status_text created = "created"
status_text canceled = "canceled"
status_text processed = "processed"
status_text paid = "paid"

abbrev pub status_eq : OrderStatus → OrderStatus → Bool
status_eq a b = str_eq (status_text a) (status_text b)

abbrev pub at_least : Option ℕ → ℕ → Bool
at_least none t = true
at_least (some a) t = leb a t

abbrev pub at_most : Option ℕ → ℕ → Bool
at_most none t = true
at_most (some b) t = leb t b

abbrev pub is_user : Option ℕ → ℕ → Bool
is_user none u = true
is_user (some v) u = u == v

-- The `where` clauses, on a row.
abbrev pub accepts : OrderFilter → Order → Bool
accepts f o =
    status_eq o.status f.status
    && (is_user f.user_id o.user_id && (at_least f.from o.created_at && at_most f.to o.created_at))

-- Nest's `BadRequestException` and `NotFoundException` with a message.
abbrev pub bad_request : String → Exception
bad_request m = http (record { status = 400; response = object none (some (one m)) none })

abbrev pub not_found : String → Exception
not_found m = http (record { status = 404; response = object none (some (one m)) none })

-- `result[0]`
abbrev pub first : List OrderResponseDto → Option OrderResponseDto
first [] = none
first (r ∷ rs) = some r

module _ (D : Database) where
  -- `getMany` of the query.
  abbrev pub GetMany : Type 0
  GetMany = PageQuery → D.Db → Result (List LoadedOrder)

  -- `OrdersService.findById`
  unfoldable pub find_by_id : ℕ → Option ℕ → D.Db → Result (Option LoadedOrder)
  find_by_id id user d = D.find_one (find_options (by_id id user)) d

  -- `OrdersController.findById`
  unfoldable pub get_order : ℕ → ℕ → D.Db → Result (Option OrderResponseDto)
  unfolding find_by_id to_dto
  get_order user id d = elim (find_by_id id (some user) d) [
    | err e ↦ err e
    | ok none ↦ err (not_found "Order not found")
    | ok (some o) ↦ elim (to_dto (o ∷ [])) [ err e ↦ err e | ok rs ↦ ok (first rs) ]
  ]

  -- `OrdersService.list`
  unfoldable pub list : GetMany → OrderFilter → ℤ → ℤ → D.Db → Result (List LoadedOrder)
  unfolding page_query
  list get_many filter page limit d = get_many (page_query filter page limit) d

  -- `OrdersController.list`, after the pipes have parsed the query and put in the defaults.
  unfoldable pub list_orders :
      GetMany
      → ℕ
      → OrderStatus
      → ℤ
      → ℤ
      → Option ℕ
      → Option ℕ
      → D.Db
      → Result (List OrderResponseDto)
  unfolding list
  list_orders get_many user status page limit from to d =
      elim (list get_many (record { status = status; user_id = some user; from = from; to = to })
        page limit d) [ err e ↦ err e | ok os ↦ to_dto os ]

  -- `OrdersController.create`; `createOrder` returns an order or throws.
  unfoldable pub post_order :
      (A : Amqp) → ℕ → ℕ → List OrderItemDto → Option ℕ → Exec (World D A) LoadedOrder
  post_order A moment user items none w =
      (err (bad_request "'Idempotency-Key' header is missing"), w)
  post_order A moment user items (some key) w = create_order D A moment user items key w
