-- ===== src/Orders/Listing/Own.antt =====
-- A user reads no order of another (src/orders/orders.controller.ts, orders.service.ts).
use nodejs_pro_task.Base.{
  ℕ, String, ◌≡◌, ◌≢◌, refl, sym, ap, ◌∙◌, inl, inr, true, Option, none, some, List, [], ◌∷◌, map,
  Bool, subst, Option-cases, arith, eq_of_==, str_eq, if◌then◌else◌,
}
use nodejs_pro_task.Errors.{ok, err, ok_injective, Result-cases}
use nodejs_pro_task.Schema.{Order, OrderItem, OrderStatus, created, canceled, processed, paid}
use nodejs_pro_task.Database.{Database}
use nodejs_pro_task.Database.Contract.{Laws}
use nodejs_pro_task.Database.Queries.{LoadedOrder, item_for}
use nodejs_pro_task.Orders.Repository.{find_options, by_id}
use nodejs_pro_task.Orders.Listing.{
  OrderResponseDto, OrderItemResponseDto, item_dtos, order_dto, to_dto, find_by_id, get_order,
  not_found,
}
use nodejs_pro_task.Orders.Listing.Contract.{shown}

-- The items of a response are those of the row, column by column.
pub record HasItems (rs : List OrderItemResponseDto) (items : List OrderItem) : Type 0 where
  pub of_products : map (λ r. r.product_id) rs ≡ map (λ i. i.product_id) items
  pub quantities : map (λ r. r.qty) rs ≡ map (λ i. i.qty) items
  pub prices : map (λ r. r.purchase_price) rs ≡ map (λ i. i.purchase_price) items

-- The response shows a row of the user with its items; the moments of the change and of the processing
-- and the key only when it is detailed, and never the user.
pub record IsOwn (D : Database) (d : D.Db) (user : ℕ) (detailed : Bool) (r : OrderResponseDto)
    : Type 0 where
  pub row : Order
  pub items : List OrderItem
  pub stored : (D.view d).orders row.id ≡ some row
  pub of_user : row.user_id ≡ user
  pub named : r.id ≡ row.id
  pub in_status : r.status ≡ row.status
  pub created : r.created_at ≡ row.created_at
  pub hides_user : r.user_id ≡ none
  pub has_key : r.idempotency_key ≡ (if detailed then some row.idempotency_key else none)
  pub updated : r.updated_at ≡ (if detailed then some row.updated_at else none)
  pub was_processed : r.processed_at ≡ (if detailed then some row.processed_at else none)
  pub has_items : HasItems r.items items
  pub each : (p : ℕ) → item_for p items ≡ (D.view d).order_items row.id p

item_dtos-HasItems : (items : List OrderItem) → HasItems (item_dtos items) items
item_dtos-HasItems [] = record { of_products = refl; quantities = refl; prices = refl }
item_dtos-HasItems (i ∷ is) =
    let rest = item_dtos-HasItems is in
    record {
      of_products = ap (λ xs. i.product_id ∷ xs) rest.of_products;
      quantities = ap (λ xs. i.qty ∷ xs) rest.quantities;
      prices = ap (λ xs. i.purchase_price ∷ xs) rest.prices;
    }

pub to_dto-cons :
    (o : LoadedOrder) (os : List LoadedOrder) (rs : List OrderResponseDto)
    → to_dto (o ∷ os) ≡ ok rs
    → (r : OrderResponseDto) × (rest : List OrderResponseDto) × (order_dto o o.items ≡ ok r)
      × (to_dto os ≡ ok rest)
      × (r ∷ rest ≡ rs)
unfolding to_dto
to_dto-cons o os rs h = elim (Result-cases (order_dto o o.items)) [
  | inr (x, f) ↦ absurd (ground arith)
  | inl (r, f) ↦ elim (Result-cases (to_dto os)) [
    | inr (x, g) ↦ absurd (ground arith)
    | inl (rest, g) ↦ (r, rest, f, g, ok_injective (ground arith))
  ]
]

id_of : (o : LoadedOrder) (r : OrderResponseDto) → order_dto o o.items ≡ ok r → r.id ≡ o.id
id_of o r k = elim (Option-cases o.items) [
  | inl e ↦ absurd (ground arith)
  | inr (is, e) ↦ ground arith
]

of_text : String → OrderStatus
of_text t =
    if str_eq t "created"
    then created
    else if str_eq t "canceled"
    then canceled
    else if str_eq t "processed"
    then processed
    else paid

module _ (D : Database) (user : ℕ) (d : D.Db) where
  own :
      (detailed : Bool) (row : Order) (items : List OrderItem) (o : LoadedOrder)
      (r : OrderResponseDto)
      → (D.view d).orders row.id ≡ some row
      → row.user_id ≡ user
      → o ≡ shown detailed row items
      → ((p : ℕ) → item_for p items ≡ (D.view d).order_items row.id p)
      → order_dto o o.items ≡ ok r
      → IsOwn D d user detailed r
  own detailed row items o r stored mine loaded each k =
      let same : r ≡ dto =
        ok_injective (sym k ∙ ap (λ (x : LoadedOrder). order_dto x x.items) loaded) in
      subst (IsOwn D d user detailed) (sym same) (record {
        row = row;
        items = items;
        stored = stored;
        of_user = mine;
        named = refl;
        in_status = refl;
        created = refl;
        hides_user = refl;
        has_key = refl;
        updated = refl;
        was_processed = refl;
        has_items = item_dtos-HasItems items;
        each = each;
      })
    where
      dto : OrderResponseDto
      dto = record {
        id = row.id;
        status = row.status;
        created_at = row.created_at;
        user_id = none;
        idempotency_key = if detailed then some row.idempotency_key else none;
        updated_at = if detailed then some row.updated_at else none;
        processed_at = if detailed then some row.processed_at else none;
        items = item_dtos items;
      }

  get_order-order_dto :
      (id : ℕ) (o : LoadedOrder) (r : OrderResponseDto)
      → D.find_one (find_options (by_id id (some user))) d ≡ ok (some o)
      → get_order D user id d ≡ ok (some r)
      → order_dto o o.items ≡ ok r
  unfolding get_order find_by_id to_dto
  get_order-order_dto id o r f h = elim (Result-cases (order_dto o o.items)) [
    | inr (x, e) ↦ absurd (ground arith)
    | inl (r', e) ↦
        let same : some r' ≡ some r = ok_injective (ground arith) in
        let same' : r' ≡ r = cc in e ∙ ap ok same'
  ]

  -- The handler for one order, when it returns an order, returns a row of the user who asks with
  -- the identifier that is asked for: its status, its key, its moments of creation, change and
  -- processing, and its items, item by item with product, quantity and price, but not the user.
  pub get_order-IsOwn :
      (id : ℕ) (r : OrderResponseDto)
      → Laws D
      → get_order D user id d ≡ ok (some r)
      → IsOwn D d user true r × (r.id ≡ id)
  unfolding get_order find_by_id to_dto
  get_order-IsOwn id r laws h =
      elim (Result-cases (D.find_one (find_options (by_id id (some user))) d)) [
        | inr (x, f) ↦ absurd (ground arith)
        | inl (none, f) ↦ absurd (ground arith)
        | inl (some o, f) ↦
            let l = laws.find_one-some (find_options (by_id id (some user))) d o f in
            let met = l.met in
            let mine : l.row.user_id ≡ user = eq_of_== l.row.user_id user (ground arith) in
            let named : l.row.id ≡ id = eq_of_== l.row.id id (ground arith) in
            let k : order_dto o o.items ≡ ok r = get_order-order_dto id o r f h in
            let is_own = own true l.row l.items o r l.stored mine l.loaded l.each k in
            (is_own, id_of o r k ∙ ap (λ (x : LoadedOrder). x.id) l.loaded ∙ named)
      ]

  -- An order of another user is answered as one that does not exist.
  pub get_order-not_found :
      (row : Order)
      → Laws D
      → (D.view d).orders row.id ≡ some row
      → row.user_id ≢ user
      → ((found : Option LoadedOrder) × (D.find_one (find_options (by_id row.id (some user))) d
            ≡ ok found))
      → get_order D user row.id d ≡ err (not_found "Order not found")
  unfolding get_order find_by_id
  get_order-not_found row laws stored foreign (none, f) = ground arith
  get_order-not_found row laws stored foreign (some o, f) =
      let l = laws.find_one-some (find_options (by_id row.id (some user))) d o f in
      let met = l.met in
      let named : l.row.id ≡ row.id = eq_of_== l.row.id row.id (ground arith) in
      let mine : l.row.user_id ≡ user = eq_of_== l.row.user_id user (ground arith) in
      let same : some l.row ≡ some row = sym l.stored ∙ ap (D.view d).orders named ∙ stored in
      absurd (foreign cc)
