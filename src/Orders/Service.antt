-- ===== src/Orders/Service.antt =====
-- src/orders/orders.service.ts and create-order.dto.ts.
pub mod Reservation
pub mod Steps
pub mod Reserved
pub mod Placement
pub mod Refinement
pub mod Creation
pub mod Outcome
pub mod Guarantees
pub mod Possible
pub mod Counting
pub mod Refusal
pub mod Total
pub mod Idempotency
pub mod Stock
pub mod Unannounced
use nodejs_pro_task.Base.{
  ℕ, ◌+◌, ◌-◌, ◌≡◌, Bool, true, false, Option, none, some, List, [], ◌∷◌, map, length, ◌==◌,
  if◌then◌else◌,
}
use nodejs_pro_task.Base.Int.{ℤ, pos, sub_ℕ, ◌≤ℤ◌}
use nodejs_pro_task.Errors.{
  Exception, DomainError, domain, failed_to_create_order, cannot_find_products,
  not_enough_items_in_stock, Result, ok, err,
}
use nodejs_pro_task.Exec.{Exec, pure, raise, lift, ◌>>=◌, ◌>>◌}
use nodejs_pro_task.Schema.{Product}
use nodejs_pro_task.Database.{Database}
use nodejs_pro_task.Database.Queries.{LoadedOrder, NewItem}
use nodejs_pro_task.Messages.{new_message}
use nodejs_pro_task.RabbitMq.{Amqp, Service, send}
use nodejs_pro_task.UnitOfWork.{Transaction, Action, commit, transaction}
use nodejs_pro_task.Orders.Repository.{
  add, find_one, by_id, find_by_ids, extend_products, extend_items,
}
use Reservation.{OrderItemDto, reserve}

module _ {S : Type 0} where
  abbrev throw_unless : Bool → DomainError → Exec S (Unit {0})
  throw_unless true e s = (ok tt, s)
  throw_unless false e s = (err (domain e), s)

  abbrev or_throw : {A : Type 0} → Option A → DomainError → Exec S A
  or_throw (some a) e s = (ok a, s)
  or_throw none e s = (err (domain e), s)

module _ (D : Database) where
  -- The body of the transaction, after `tx.ordersRepo.add` has made a new order.
  unfoldable pub fill_order : ℕ → List OrderItemDto → Action D (LoadedOrder × Bool)
  fill_order order_id items = do
    products ← find_by_ids D (map (λ i. i.id) items)
    throw_unless (length products == length items)
        (cannot_find_products (sub_ℕ (length items) (length products)) none)
    (rows, reserved) ← lift (reserve order_id items products)
    extend_items D rows
    extend_products D reserved
    result ← find_one D (by_id order_id none)
    found ← or_throw result failed_to_create_order
    commit D
    pure (found, false)

  -- The callback that `createOrder` hands to the unit of work.
  unfoldable pub place_order : ℕ → List OrderItemDto → ℕ → Action D (LoadedOrder × Bool)
  place_order user items key = do
    added ← add D user key
    if added.is_duplicate then pure (added.result, true) else fill_order added.result.id items

  module _ (A : Amqp) where
    -- What is committed in the database, and the messaging service.
    pub record World : Type 0 where
      pub db : D.Db
      pub rabbitmq : Service A

    -- After the transaction: a new order is announced, an old one is returned as it is.
    unfoldable pub announce : ℕ → Result (LoadedOrder × Bool) → Exec World LoadedOrder
    announce moment (err e) w = (err e, w)
    announce moment (ok (order, true)) w = (ok order, w)
    announce moment (ok (order, false)) w =
        let (r, s) = send A "orders.process" (new_message moment order.id order.id) w.rabbitmq in
        elim r [
          | ok _ ↦ (ok order, record w { rabbitmq = s })
          | err e ↦ (err e, record w { rabbitmq = s })
        ]

    -- `createOrder`; the moment is that of `new ProcessOrderMessageDto`.
    unfoldable pub create_order : ℕ → ℕ → List OrderItemDto → ℕ → Exec World LoadedOrder
    create_order moment user items key w =
        let (r, d) = transaction D (place_order user items key) w.db in
        announce moment r (record w { db = d })
