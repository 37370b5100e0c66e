-- ===== src/Worker/Deduplication.antt =====
-- A message is processed at most once (`handleHappyPath` of src/orders/orders-worker.service.ts).
use nodejs_pro_task.Base.{
  ℕ, ◌≡◌, ◌≢◌, sym, ap, ◌∙◌, inl, inr, Bool, true, false, none, some, arith, subst, eq_iff, str_eq,
  ◌==◌, ◌&&◌, if◌then◌else◌,
}
use nodejs_pro_task.Errors.{ok, Result-cases}
use nodejs_pro_task.Schema.{Tables, ProcessedMessage, processed}
use nodejs_pro_task.Database.{Database}
use nodejs_pro_task.Database.Contract.{Laws, IsUp, with_processed, with_update}
use nodejs_pro_task.Messages.{ProcessOrderMessage}
use nodejs_pro_task.RabbitMq
use nodejs_pro_task.RabbitMq.{Amqp}
use nodejs_pro_task.Orders.Repository.{is_duplicate_error}
use nodejs_pro_task.Worker.{
  Config, handler_name, process_once, process_order_message, Worker, handle,
}
use nodejs_pro_task.Worker.Steps.{Acked, handle-db, handle-returns, handle-transaction}

-- The worker has a row for the message.
abbrev pub IsProcessed : Tables → ProcessOrderMessage → Type 0
IsProcessed t msg = t.processed_messages msg.message_id handler_name ≢ none

-- The tables after a message has been processed at the given moments.
abbrev pub Processed : Database → Tables → Tables → ProcessOrderMessage → ℕ → Type 0
Processed D before after msg moment =
    (row : ProcessedMessage) × (touched : ℕ) × (row.message_id ≡ msg.message_id)
    × (row.handler ≡ handler_name)
    × (after ≡ with_update D (with_processed D before row) msg.order_id processed moment touched)

Processed-IsProcessed :
    (D : Database) (before after : Tables) (msg again : ProcessOrderMessage) (moment : ℕ)
    → Processed D before after msg moment
    → again.message_id ≡ msg.message_id
    → IsProcessed after again
Processed-IsProcessed D before after msg again moment (row, touched, i, h, v) same e =
    let found : (if (row.message_id == again.message_id) && str_eq row.handler handler_name
          then some row
          else before.processed_messages again.message_id handler_name)
        ≡ none =
      ap (λ (t : Tables). t.processed_messages again.message_id handler_name) (sym v) ∙ e in
    let named : str_eq row.handler handler_name ≡ true = (eq_iff row.handler handler_name).1 h in
    ground arith

module _ (D : Database) (laws : Laws D) (moment : ℕ) (msg : ProcessOrderMessage) where
  -- The transaction of a message that has a row changes nothing when it returns.
  process_once-stored :
      (d : D.Db) (b : Bool)
      → IsProcessed (D.view d) msg
      → (process_once D moment msg d).0 ≡ ok b
      → (process_once D moment msg d).1 ≡ d
  unfolding process_once
  process_once-stored d b stored h =
      elim (Result-cases (D.insert_processed msg.message_id handler_name d)) [
        | inl (d', e) ↦
            absurd (stored (laws.insert_processed-ok msg.message_id handler_name d d' e).0)
        | inr (x, e) ↦ ground arith
      ]

  pub transaction-stored :
      (d : D.Db)
      → IsProcessed (D.view d) msg
      → D.view (D.transaction (process_once D moment msg) d).1 ≡ D.view d
  transaction-stored d stored = elim (laws.transaction_lem (process_once D moment msg) d) [
    | inr (e, f, same) ↦ same
    | inl (s, b, start, f, g, same) ↦
        same
        ∙ ap D.view (process_once-stored s b (subst (λ t. IsProcessed t msg) (sym start) stored) f)
        ∙ start
  ]

  -- On a database that is up the transaction of a message returns that it is a duplicate.
  pub process_once-duplicate :
      (d : D.Db) → IsUp D → IsProcessed (D.view d) msg → (process_once D moment msg d).0 ≡ ok false
  unfolding process_once is_duplicate_error
  process_once-duplicate d up stored =
      let e = up.refuses_processed msg.message_id handler_name d stored in ground arith

  -- The transaction of a new message without a simulated failure.
  pub process_once-new :
      (d : D.Db)
      → IsUp D
      → (D.view d).processed_messages msg.message_id handler_name ≡ none
      → msg.simulate_failure ≡ none
      → ((process_once D moment msg d).0 ≡ ok true)
        × Processed D (D.view d) (D.view (process_once D moment msg d).1) msg moment
  unfolding process_once process_order_message
  process_once-new d up absent plain_msg =
      let (d₁, e₁) = up.inserts_processed msg.message_id handler_name d absent in
      let (d₂, e₂) = up.updates_order msg.order_id processed moment d₁ in
      let (_, (row, i, h, v)) = laws.insert_processed-ok msg.message_id handler_name d d₁ e₁ in
      let ends : (process_once D moment msg d).1 ≡ d₂ = ground arith in
      (
        ground arith,
        (
          row,
          D.now d₁,
          i,
          h,
          ap D.view ends
              ∙ laws.update_order-ok msg.order_id processed moment d₁ d₂ e₂
              ∙ ap (λ t. with_update D t msg.order_id processed moment (D.now d₁)) v,
        ),
      )

module _ (D : Database) (A : Amqp) (laws : Laws D) (config : Config) (moment : ℕ)
    (msg : ProcessOrderMessage) (tag : ℕ) (w : Worker D A) where
  -- However the handling of a message that the worker has processed before ends, it leaves the tables
  -- as they are.
  pub handle_repeated :
      IsProcessed (D.view w.db) msg → D.view (handle D A config moment msg tag w).1.db ≡ D.view w.db
  handle_repeated stored =
      ap D.view (handle-db D A config moment msg tag w)
      ∙ transaction-stored D laws moment msg w.db stored

  -- With a database that is up and an open channel, a message that the worker has processed before is
  -- acknowledged, and nothing else is done on the channel or scheduled.
  pub handle_repeated-Acked :
      (ch : A.Channel)
      → IsUp D
      → RabbitMq.Laws A
      → RabbitMq.IsOpen A
      → w.rabbitmq ≡ some ch
      → IsProcessed (D.view w.db) msg
      → let (r, w') = handle D A config moment msg tag w in (r ≡ ok tt) × Acked D A tag w w'
  handle_repeated-Acked ch up amqp is_open e stored =
      let (s, same, same_result) = up.transacts (process_once D moment msg) w.db in
      handle-returns D A config moment msg tag w false ch amqp is_open e (
        same_result
        ∙ process_once-duplicate D laws moment msg s up
            (subst (λ t. IsProcessed t msg) (sym same) stored))

  -- With a database that is up and an open channel, a message that the worker has not processed and
  -- that simulates no failure is processed: the tables get its row and its order the status
  -- `processed`, and the delivery is acknowledged, and nothing else is done on the channel or scheduled.
  pub handle_new :
      (ch : A.Channel)
      → IsUp D
      → RabbitMq.Laws A
      → RabbitMq.IsOpen A
      → w.rabbitmq ≡ some ch
      → (D.view w.db).processed_messages msg.message_id handler_name ≡ none
      → msg.simulate_failure ≡ none
      → let (r, w') = handle D A config moment msg tag w in
        (r ≡ ok tt) × Acked D A tag w w' × Processed D (D.view w.db) (D.view w'.db) msg moment
  handle_new ch up amqp is_open e absent plain_msg =
      handle-transaction D A laws up amqp is_open config moment msg tag w ch e
        (λ t t'. Processed D t t' msg moment) true
        (λ s start.
          process_once-new D laws moment msg s up
            (ap (λ (t : Tables). t.processed_messages msg.message_id handler_name) start ∙ absent)
            plain_msg)

module _ (D : Database) (A : Amqp) (laws : Laws D) (config : Config) (moment : ℕ)
    (msg : ProcessOrderMessage) (tag : ℕ) (w : Worker D A) where
  -- A message that has been processed is not processed again: a later delivery of it, which can be of
  -- another attempt, leaves the tables as the first one has left them.
  pub handle_once_only :
      (config' : Config) (moment' tag' : ℕ) (again : ProcessOrderMessage) (ch : A.Channel)
      → IsUp D
      → RabbitMq.Laws A
      → RabbitMq.IsOpen A
      → w.rabbitmq ≡ some ch
      → (D.view w.db).processed_messages msg.message_id handler_name ≡ none
      → msg.simulate_failure ≡ none
      → again.message_id ≡ msg.message_id
      → let w' = (handle D A config moment msg tag w).1 in
        Processed D
          (D.view w.db)
          (D.view (handle D A config' moment' again tag' w').1.db)
          msg
          moment
  handle_once_only config' moment' tag' again ch up amqp is_open e absent plain_msg same =
      let (x, y, p) =
        handle_new D A laws config moment msg tag w ch up amqp is_open e absent plain_msg in
      subst (λ t. Processed D (D.view w.db) t msg moment)
        (sym (
          handle_repeated D A laws config' moment' again tag' (handle D A config moment msg tag w).1
            (Processed-IsProcessed D (D.view w.db)
              (D.view (handle D A config moment msg tag w).1.db) msg again moment p same)))
        p
