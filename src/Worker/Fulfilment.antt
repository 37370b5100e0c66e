-- ===== src/Worker/Fulfilment.antt =====
-- From a request to a processed order: createOrder (src/orders/orders.service.ts), then the delivery of
-- its message to the worker of the same service (src/orders/orders-worker.service.ts).
use nodejs_pro_task.Base.{
  ℕ, ◌≡◌, ◌≢◌, refl, sym, ap, subst, ◌∙◌, inl, inr, true, none, some, List, [], ◌∷◌, ◌++◌, ◌==◌,
  ==-refl, eq_of_==, Bool-cases, arith, distinct, if◌then◌else◌,
}
use nodejs_pro_task.Errors.{ok}
use nodejs_pro_task.Schema.{Order, Tables, processed}
use nodejs_pro_task.Database.{Database}
use nodejs_pro_task.Database.Contract.{Laws, IsUp, HasKey}
use nodejs_pro_task.Database.Queries.{LoadedOrder}
use nodejs_pro_task.Messages.{ProcessOrderMessage, Content, json, new_message}
use nodejs_pro_task.RabbitMq
use nodejs_pro_task.RabbitMq.{Amqp}
use nodejs_pro_task.Orders.Service.{World, create_order}
use nodejs_pro_task.Orders.Service.Reservation.{OrderItemDto, all_positive, asked_qty}
use nodejs_pro_task.Orders.Service.Reserved.{ids_of}
use nodejs_pro_task.Orders.Service.Placement.{CanPlace, item_of, left_of}
use nodejs_pro_task.Orders.Service.Guarantees.{Placed, create_order_new}
use nodejs_pro_task.Orders.Service.Total.{create_order_returns}
use nodejs_pro_task.Worker.{Config, Worker, Retry, handler_name, handle, deliver}
use nodejs_pro_task.Worker.Steps.{Acked, deliver-handle}
use nodejs_pro_task.Worker.Deduplication.{Processed, handle_new}

-- The order of the request is there with the status `processed`, its items and the stock that is left
-- are those of the request, and no other order has changed.
pub record Fulfilled (before after : Tables) (user key : ℕ) (asked : List OrderItemDto)
    (id moment : ℕ) : Type 0 where
  -- The row as it was created.
  pub row : Order
  pub touched : ℕ
  pub of_user : row.user_id ≡ user
  pub of_key : row.idempotency_key ≡ key
  pub stored :
      after.orders id
      ≡ some (record row { status = processed; processed_at = some moment; updated_at = touched })
  pub has_items :
      (j : ℕ) → after.order_items id j ≡ item_of row (asked_qty j asked) (before.products j)
  pub left : (j : ℕ) → after.products j ≡ left_of row (asked_qty j asked) (before.products j)
  pub others : (j : ℕ) → j ≢ id → after.orders j ≡ before.orders j

module _ (before between : Tables) (user key : ℕ) (asked : List OrderItemDto) (id : ℕ)
    (p : Placed before between user key asked id) where
  placed_row : between.orders id ≡ some p.row
  placed_row =
      ap (λ (t : Tables). t.orders id) p.placed
      ∙ ap (λ n. if id == n then some p.row else before.orders id) p.named
      ∙ ground (arith, ==-refl id)

  placed_items :
      (j : ℕ) → between.order_items id j ≡ item_of p.row (asked_qty j asked) (before.products j)
  placed_items j =
      ap (λ (t : Tables). t.order_items id j) p.placed
      ∙ ap
          (λ n.
            if n == id
            then item_of p.row (asked_qty j asked) (before.products j)
            else before.order_items id j)
          p.named
      ∙ ground (arith, ==-refl id)

  placed_others : (j : ℕ) → j ≢ id → between.orders j ≡ before.orders j
  placed_others j other =
      ap (λ (t : Tables). t.orders j) p.placed
      ∙ ap (λ n. if j == n then some p.row else before.orders j) p.named
      ∙ elim (Bool-cases (j == id)) [
        | inl same ↦ absurd (other (eq_of_== j id same))
        | inr miss ↦ ground arith
      ]

  Fulfilled-Processed :
      (D : Database) (after : Tables) (msg : ProcessOrderMessage) (moment : ℕ)
      → msg.order_id ≡ id
      → Processed D between after msg moment
      → Fulfilled before after user key asked id moment
  Fulfilled-Processed D after msg moment e (m, touched, i, h, v) = record {
    row = p.row;
    touched = touched;
    of_user = p.of_user;
    of_key = p.of_key;
    stored = ap (λ (t : Tables). t.orders id) v ∙ ground (arith, ==-refl id, placed_row);
    has_items = λ j. ap (λ (t : Tables). t.order_items id j) v ∙ placed_items j;
    left = λ j. ap (λ (t : Tables). t.products j) v ∙ ap (λ (t : Tables). t.products j) p.placed;
    others = λ j other. ap (λ (t : Tables). t.orders j) v ∙ elim (Bool-cases (j == id)) [
      | inl same ↦ absurd (other (eq_of_== j id same))
      | inr miss ↦ ground (arith, placed_others j other)
    ];
  }

module _ (D : Database) (A : Amqp) (laws : Laws D) (up : IsUp D) (amqp : RabbitMq.Laws A)
    (is_open : RabbitMq.IsOpen A) (moment later user key : ℕ) (asked : List OrderItemDto)
    (config : Config) (tag : ℕ) (timers : List (Retry D A)) (w : World D A) where
  -- The worker of the service, after the request.
  abbrev pub worker_after : Worker D A
  worker_after =
      let w' = (create_order D A moment user asked key w).1 in
      record { db = w'.db; rabbitmq = w'.rabbitmq; timers = timers }

  -- The request has returned an order, its message is the last in the channel, and with the delivery
  -- of this message the order is processed and the delivery acknowledged.
  pub record Processes (o : LoadedOrder) : Type 0 where
    pub content : Content
    pub before : A.Channel
    pub after : A.Channel
    pub returns : (create_order D A moment user asked key w).0 ≡ ok o
    pub was : w.rabbitmq ≡ some before
    pub is_now : worker_after.rabbitmq ≡ some after
    pub announced : A.published after ≡ A.published before ++ ("orders.process", content) ∷ []
    pub acked :
        Acked D A tag worker_after
          (deliver D A config later (record { tag = tag; content = content }) worker_after)
    pub fulfilled :
        Fulfilled
          (D.view w.db)
          (D.view
            (deliver D A config later (record { tag = tag; content = content }) worker_after).db)
          user
          key
          asked
          o.id
          later

  -- With a database that is up, an open channel, a user who is there, a key that the user has not
  -- used, at least one item, positive quantities of distinct products that all have enough in
  -- stock, and no record of a message for an order that is not there, createOrder returns an order
  -- and its message is the last in the channel; the delivery of this message to the worker of the
  -- service is acknowledged, and then the order has the status processed with the moment, the
  -- items and the remaining stock are those that the abstract placement gives, and no other order
  -- has changed.
  pub deliver-create_order :
      (ch : A.Channel)
      → w.rabbitmq ≡ some ch
      → all_positive asked ≡ true
      → distinct (ids_of asked) ≡ true
      → asked ≢ []
      → (¬ HasKey D (D.view w.db) user key)
      → (D.view w.db).users user ≢ none
      → CanPlace asked (D.view w.db)
      → ((id : ℕ)
          → (D.view w.db).orders id ≡ none
          → (D.view w.db).processed_messages id handler_name ≡ none)
      → (o : LoadedOrder) × Processes o
  deliver-create_order ch channel v unique some_items absent known can unprocessed =
      let (o, returns) =
        create_order_returns D laws up user key asked v unique some_items A is_open moment w ch
          channel absent known can in
      let (p, (before, after, was, is_now, announced)) =
        create_order_new D A laws moment user key asked w o amqp v absent returns in
      let msg = new_message moment o.id o.id in
      let unknown : (D.view worker_after.db).processed_messages o.id handler_name ≡ none =
        ap (λ (t : Tables). t.processed_messages o.id handler_name) p.placed
        ∙ unprocessed o.id (ap (D.view w.db).orders (sym p.named) ∙ p.fresh) in
      let (r, acked, done) =
        handle_new D A laws config later msg tag worker_after after up amqp is_open is_now unknown
          refl in
      let v' = (handle D A config later msg tag worker_after).1 in
      let e = deliver-handle D A config later msg tag worker_after v' (λ i. (r i, v')) in
      (
        o,
        record {
          content = json msg;
          before = before;
          after = after;
          returns = returns;
          was = was;
          is_now = is_now;
          announced = announced;
          acked = subst (Acked D A tag worker_after) (sym e) acked;
          fulfilled =
              subst
                (λ (x : Worker D A).
                  Fulfilled (D.view w.db) (D.view x.db) user key asked o.id later)
                (sym e)
                (Fulfilled-Processed (D.view w.db) (D.view worker_after.db) user key asked o.id p D
                  (D.view v'.db) msg later refl done);
        },
      )
