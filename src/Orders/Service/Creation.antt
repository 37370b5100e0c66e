-- ===== src/Orders/Service/Creation.antt =====
-- `createOrder`, whole: what a call that returns has done to the database and to the queue
-- (src/orders/orders.service.ts).
use nodejs_pro_task.Base.{
  ℕ, ◌≡◌, sym, subst, ap, ◌⊎◌, inl, inr, Bool, true, false, some, List, Bool-cases, arith, eq_iff,
  Option-cases,
}
use nodejs_pro_task.Errors.{
  Exception, domain, http, driver, plain, suppressed, failed_to_create_order, cannot_find_products,
  not_enough_items_in_stock, entity_not_found, duplicate_entity_creation, incorrect_password,
  Result, ok, err, Result-cases,
}
use nodejs_pro_task.Schema.{Order}
use nodejs_pro_task.Database.{Database}
use nodejs_pro_task.Database.Contract.{unique_violation}
use nodejs_pro_task.Database.Queries.{LoadedOrder}
use nodejs_pro_task.Messages.{json, new_message}
use nodejs_pro_task.RabbitMq.{Amqp, send, get_channel}
use nodejs_pro_task.UnitOfWork.{Transaction}
use nodejs_pro_task.Orders.Repository.{add, recover_add, find_options, by_key, is_duplicate_error}
use nodejs_pro_task.Orders.Service.{World, fill_order, place_order, announce}
use nodejs_pro_task.Orders.Service.Reservation.{OrderItemDto}
use nodejs_pro_task.Orders.Service.Steps.{Filled, Failed, fill_order-cases}

module _ (D : Database) (user key : ℕ) (asked : List OrderItemDto) where
  -- The transaction has found the order that the key belongs to, and has written nothing.
  pub record Repeated (c c' : Transaction D) (o : LoadedOrder) : Type 0 where
    pub error : Exception
    pub refused : D.save_order user key c.working ≡ err error
    pub violated : is_duplicate_error error ≡ true
    pub recovered : D.find_one_or_fail (find_options (by_key user key)) c.committed ≡ ok o
    pub untouched : c' ≡ c

  -- The transaction has saved a new order and filled it.
  pub record Created (c c' : Transaction D) (o : LoadedOrder) : Type 0 where
    pub row : Order
    pub after : D.Db
    pub inserted : D.save_order user key c.working ≡ ok (row, after)
    pub filled : Filled D (record c { working = after }) c' row.id asked o

  -- The transaction fails and has committed nothing, has found an old order, or has made a new one.
  pub place_order-cases :
      (c : Transaction D)
      → c.finished ≡ false
      → Failed D c (place_order D user asked key c)
        ⊎ (((o : LoadedOrder) × ((place_order D user asked key c).0 ≡ ok (o, true))
              × Repeated c (place_order D user asked key c).1 o)
            ⊎ ((o : LoadedOrder) × ((place_order D user asked key c).0 ≡ ok (o, false))
                × Created c (place_order D user asked key c).1 o))
  unfolding place_order add recover_add
  place_order-cases c open_tx = elim (Result-cases (D.save_order user key c.working)) [
    | inl ((row, w), e) ↦
        elim (fill_order-cases D row.id asked (record c { working = w }) open_tx) [
          | inr (x, f, g) ↦ inl (x, ground arith, ground arith)
          | inl (o, f, steps) ↦
              let same : (place_order D user asked key c).1
                  ≡ (fill_order D row.id asked (record c { working = w })).1 =
                ground arith in
              inr (
                inr (
                  o,
                  ground arith,
                  subst (λ x. Created c x o) (sym same)
                      (record { row = row; after = w; inserted = e; filled = steps }),
                ))
        ]
    | inr (x, e) ↦ elim (Bool-cases (is_duplicate_error x)) [
      | inr other ↦ inl (x, ground arith, ground arith)
      | inl dup ↦
          elim (Result-cases (D.find_one_or_fail (find_options (by_key user key)) c.committed)) [
            | inr (y, f) ↦ inl (y, ground arith, ground arith)
            | inl (l, f) ↦ inr (
                inl (
                  l,
                  ground arith,
                  record {
                    error = x;
                    refused = e;
                    violated = dup;
                    recovered = f;
                    untouched = ground arith;
                  },
                ))
          ]
    ]
  ]

-- Only PostgreSQL's unique violation is taken for a duplicate.
pub unique_violation_of : (e : Exception) → is_duplicate_error e ≡ true → e ≡ unique_violation
unfolding is_duplicate_error
unique_violation_of (driver c) h = ap driver ((eq_iff c "23505").0 h)
unique_violation_of (domain failed_to_create_order) h = absurd (ground arith)
unique_violation_of (domain (cannot_find_products n ids)) h = absurd (ground arith)
unique_violation_of (domain (not_enough_items_in_stock j q s)) h = absurd (ground arith)
unique_violation_of (domain (entity_not_found n d)) h = absurd (ground arith)
unique_violation_of (domain (duplicate_entity_creation n d)) h = absurd (ground arith)
unique_violation_of (domain (incorrect_password d)) h = absurd (ground arith)
unique_violation_of (http e) h = absurd (ground arith)
unique_violation_of (plain m) h = absurd (ground arith)
unique_violation_of (suppressed e f) h = absurd (ground arith)

module _ (D : Database) (A : Amqp) (moment user key : ℕ) (asked : List OrderItemDto)
    (w : World D A) where
  -- The order was announced, or the call failed and nothing was sent.
  abbrev pub Announced : LoadedOrder → Result LoadedOrder × World D A → Type 0
  Announced o (r, w') =
      ((r ≡ ok o)
        × ((ch : A.Channel) × (ch' : A.Channel) × (b : Bool) × (w.rabbitmq ≡ some ch)
            × (w'.rabbitmq ≡ some ch')
            × (A.send_to_queue "orders.process" (json (new_message moment o.id o.id))
                  (record { persistent = true; message_id = o.id }) ch
                ≡ ok (b, ch'))))
      ⊎ ((e : Exception) × (r ≡ err e) × (w'.rabbitmq ≡ w.rabbitmq))

  pub announced :
      (o : LoadedOrder) (d : D.Db)
      → Announced o (announce D A moment (ok (o, false)) (record w { db = d }))
  unfolding announce send get_channel
  announced o d = elim (Option-cases w.rabbitmq) [
    | inl e ↦ inr (plain "Channel is not created!", ground arith, ground arith)
    | inr (ch, e) ↦
        elim (Result-cases (
          A.send_to_queue "orders.process" (json (new_message moment o.id o.id))
            (record { persistent = true; message_id = o.id }) ch)) [
              | inr (x, f) ↦ inr (x, ground arith, ground arith)
              | inl ((b, ch'), f) ↦ inl (ground arith, (ch, ch', b, e, ground arith, f))
            ]
  ]
