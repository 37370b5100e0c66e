-- ===== src/Worker.antt =====
-- src/orders/orders-worker.service.ts: the consumer of `orders.process`, with its deduplication in
-- the database, its retries by `setTimeout` and the queue of dead letters.
mod Tests
pub mod Steps
pub mod Deduplication
pub mod Recording
pub mod Effects
pub mod Attempts
pub mod Retries
pub mod Recovery
pub mod Settlement
pub mod Fulfilment
pub mod Startup
use nodejs_pro_task.Base.{
  ℕ, suc, String, Bool, true, false, Option, none, some, List, [], ◌∷◌, ◌++◌, leb, ◌==◌,
  if◌then◌else◌,
}
use nodejs_pro_task.Errors.{plain, Result, ok, err}
use nodejs_pro_task.Exec.{Exec, pure, raise, ◌>>=◌, ◌>>◌}
use nodejs_pro_task.Schema.{processed}
use nodejs_pro_task.Database.{Database}
use nodejs_pro_task.Messages.{Failure, ProcessOrderMessage}
use nodejs_pro_task.RabbitMq.{Amqp, Service, send, ack, reject}
use nodejs_pro_task.RabbitMq.Deliveries.{Delivery, on_message}
use nodejs_pro_task.Orders.Repository.{is_duplicate_error}

-- `getConfig().maxRetries`, of a whole number; it is NaN when WORKER_RETRIES is no number. The delay
-- of a retry is not modelled, only that it comes later.
pub record Config : Type 0 where
  pub enable_worker : Bool
  pub max_retries : Option ℕ

-- `OrdersWorkerService.name`
abbrev pub handler_name : String
handler_name = "OrdersWorkerService"

-- `stopOnAttempt === msg.attempt`
unfoldable pub stops_on : Failure → ℕ → Bool
stops_on f attempt = elim f.stop_on_attempt [ none ↦ false | some n ↦ n == attempt ]

-- `msg.attempt >= maxRetries`, which NaN is never.
unfoldable pub is_last : Config → ℕ → Bool
is_last config attempt = elim config.max_retries [ none ↦ false | some m ↦ leb m attempt ]

-- `{ ...msg, attempt: msg.attempt + 1 }`
abbrev pub next_attempt : ProcessOrderMessage → ProcessOrderMessage
next_attempt msg = record msg { attempt = suc msg.attempt }

module _ (D : Database) where
  -- `processOrderMessage`, on the transaction's connection.
  unfoldable pub process_order_message : ℕ → ProcessOrderMessage → Exec D.Db (Unit {0})
  process_order_message moment msg d = elim msg.simulate_failure [
    | some f ↦ if stops_on f msg.attempt then (ok tt, d) else (err (plain f.reason), d)
    | none ↦ elim (D.update_order msg.order_id processed moment d) [
      | ok d' ↦ (ok tt, d')
      | err e ↦ (err e, d)
    ]
  ]

  -- The callback of `datasource.transaction`.
  unfoldable pub process_once : ℕ → ProcessOrderMessage → Exec D.Db Bool
  process_once moment msg d = elim (D.insert_processed msg.message_id handler_name d) [
    | err e ↦ if is_duplicate_error e then (ok false, d) else (err e, d)
    | ok d' ↦ (do process_order_message moment msg; pure true) d'
  ]

  module _ (A : Amqp) where
    -- A callback that `setTimeout` has scheduled: the message, and the tag of the delivery that its
    -- `ack` acknowledges.
    pub record Retry : Type 0 where
      pub message : ProcessOrderMessage
      pub tag : ℕ

    pub record Worker : Type 0 where
      pub db : D.Db
      pub rabbitmq : Service A
      pub timers : List Retry

    abbrev pub on_channel : {X : Type 0} → Exec (Service A) X → Exec Worker X
    on_channel m w = let (r, s) = m w.rabbitmq in (r, record w { rabbitmq = s })

    unfoldable pub handle_happy_path : ℕ → ProcessOrderMessage → ℕ → Exec Worker (Unit {0})
    handle_happy_path moment msg tag w =
        let (r, d) = D.transaction (process_once moment msg) w.db in
        let w' = record w { db = d } in
        elim r [ err e ↦ (err e, w') | ok _ ↦ on_channel (ack A tag) w' ]

    abbrev pub set_timeout : Retry → Exec Worker (Unit {0})
    set_timeout t w = (ok tt, record w { timers = w.timers ++ t ∷ [] })

    unfoldable pub handle_failed_processing :
        Config → ProcessOrderMessage → ℕ → Exec Worker (Unit {0})
    handle_failed_processing config msg tag =
        if is_last config msg.attempt
        then (do on_channel (send A "orders.dlq" msg); on_channel (ack A tag))
        else set_timeout (record { message = msg; tag = tag })

    unfoldable pub handle : Config → ℕ → ProcessOrderMessage → ℕ → Exec Worker (Unit {0})
    handle config moment msg tag w =
        let (r, w') = handle_happy_path moment msg tag w in
        elim r [ ok _ ↦ (ok tt, w') | err e ↦ handle_failed_processing config msg tag w' ]

    -- What a scheduled callback does when its time has come.
    unfoldable pub retry : Retry → Exec Worker (Unit {0})
    retry t = do
      on_channel (send A "orders.process" (next_attempt t.message))
      on_channel (ack A t.tag)

    -- A delivery from `orders.process`, through the callback of `consume`.
    unfoldable pub deliver : Config → ℕ → Delivery → Worker → Worker
    deliver config moment d =
        on_message (λ tag requeue. on_channel (reject A tag requeue)) (handle config moment)
          (some d)
