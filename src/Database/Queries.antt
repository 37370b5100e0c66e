-- ===== src/Database/Queries.antt =====
-- The arguments and results of the calls: the conditions, relations and columns that a `find` names,
-- and the entities that it loads, whose columns are `undefined` unless they are selected.
use nodejs_pro_task.Base.{
  ℕ, String, Bool, true, ◌&&◌, ◌||◌, false, Option, none, some, List, [], ◌∷◌, ◌==◌, str_eq,
  if◌then◌else◌,
}
use nodejs_pro_task.Base.Int.{ℤ}
use nodejs_pro_task.Schema.{Product, Order, OrderStatus, OrderItem}

-- An order entity in memory. Its `id`, `status` and `created_at` are in every selection.
pub record LoadedOrder : Type 0 where
  pub id : ℕ
  pub status : OrderStatus
  pub created_at : ℕ
  pub user_id : Option ℕ
  pub idempotency_key : Option ℕ
  pub updated_at : Option ℕ
  pub processed_at : Option (Option ℕ)
  pub items : Option (List OrderItem)

-- `FindOptionsWhere<Order>`; TypeORM skips a property that is undefined.
pub record OrderWhere : Type 0 where
  pub id : Option ℕ
  pub user_id : Option ℕ
  pub idempotency_key : Option ℕ

pub record FindOptions : Type 0 where
  pub conditions : OrderWhere
  pub with_items : Bool
  pub select : List String

-- `Partial<OrderItem>`, as the order service fills it.
pub record NewItem : Type 0 where
  pub order_id : ℕ
  pub product_id : ℕ
  pub qty : ℤ
  pub purchase_price : String

abbrev pub agrees : Option ℕ → ℕ → Bool
agrees none a = true
agrees (some b) a = a == b

abbrev pub meets : FindOptions → Order → Bool
meets q o =
    agrees q.conditions.id o.id
    && (agrees q.conditions.user_id o.user_id
        && agrees q.conditions.idempotency_key o.idempotency_key)

abbrev pub selects : List String → String → Bool
selects [] c = false
selects (x ∷ xs) c = str_eq x c || selects xs c

abbrev pub column {ℓ} : {A : Type ℓ} → List String → String → A → Option A
column s c a = if selects s c then some a else none

abbrev pub load : FindOptions → Order → List OrderItem → LoadedOrder
load q o items = record {
  id = o.id;
  status = o.status;
  created_at = o.created_at;
  user_id = column q.select "userId" o.user_id;
  idempotency_key = column q.select "idempotencyKey" o.idempotency_key;
  updated_at = column q.select "updatedAt" o.updated_at;
  processed_at = column q.select "processedAt" o.processed_at;
  items = if q.with_items then some items else none;
}

abbrev pub item_for : ℕ → List OrderItem → Option OrderItem
item_for p [] = none
item_for p (i ∷ is) = if i.product_id == p then some i else item_for p is

abbrev pub product_for : ℕ → List Product → Option Product
product_for j [] = none
product_for j (p ∷ ps) = if p.id == j then some p else product_for j ps

abbrev pub new_item_for : ℕ → ℕ → List NewItem → Option NewItem
new_item_for o j [] = none
new_item_for o j (i ∷ is) =
    if (i.order_id == o) && (i.product_id == j) then some i else new_item_for o j is

-- The row that an insertion at the given moment makes of it.
abbrev pub inserted_item : ℕ → NewItem → OrderItem
inserted_item moment i = record {
  order_id = i.order_id;
  product_id = i.product_id;
  qty = i.qty;
  purchase_price = i.purchase_price;
  created_at = moment;
  updated_at = moment;
}
