-- ===== src/Worker/Steps.antt =====
-- What the worker's transaction and its calls of the channel do
-- (src/orders/orders-worker.service.ts).
use nodejs_pro_task.Base.{
  ℕ, ◌≡◌, sym, subst, ap, ◌∙◌, ◌⊎◌, inl, inr, Bool, some, [], ◌∷◌, ◌++◌, arith,
}
use nodejs_pro_task.Errors.{Exception, ok, err, Result, Result-cases}
use nodejs_pro_task.Schema.{Tables}
use nodejs_pro_task.Database.{Database}
use nodejs_pro_task.Database.Contract.{Laws, IsUp}
use nodejs_pro_task.Messages.{ProcessOrderMessage, json}
use nodejs_pro_task.RabbitMq
use nodejs_pro_task.RabbitMq.{Amqp, ack}
use nodejs_pro_task.RabbitMq.Deliveries.{on_message}
use nodejs_pro_task.Worker.{
  Config, process_once, Worker, handle_happy_path, handle, handle_failed_processing, deliver,
}

module _ (D : Database) (A : Amqp) where
  -- The worker has acknowledged one delivery, and done nothing else on the channel.
  pub record Acked (tag : ℕ) (w w' : Worker D A) : Type 0 where
    pub before : A.Channel
    pub after : A.Channel
    pub was : w.rabbitmq ≡ some before
    pub is_now : w'.rabbitmq ≡ some after
    pub acknowledged : A.acked after ≡ A.acked before ++ tag ∷ []
    pub published : A.published after ≡ A.published before
    pub rejected : A.rejected after ≡ A.rejected before
    pub timers : w'.timers ≡ w.timers

  failed-db :
      (config : Config) (msg : ProcessOrderMessage) (tag : ℕ) (w : Worker D A)
      → (handle_failed_processing D A config msg tag w).1.db ≡ w.db
  unfolding handle_failed_processing
  failed-db config msg tag w = ground arith

  module _ (config : Config) (moment : ℕ) (msg : ProcessOrderMessage) (tag : ℕ)
      (w : Worker D A) where
    stored : D.Db
    stored = (D.transaction (process_once D moment msg) w.db).1

    -- When the transaction returns, the delivery is acknowledged.
    returned :
        (b : Bool)
        → (D.transaction (process_once D moment msg) w.db).0 ≡ ok b
        → (handle_happy_path D A moment msg tag w).0 ≡ (ack A tag w.rabbitmq).0
    unfolding handle_happy_path
    returned b f = ground arith

    returned_to :
        (b : Bool)
        → (D.transaction (process_once D moment msg) w.db).0 ≡ ok b
        → (handle_happy_path D A moment msg tag w).1 ≡ record w {
          db = (D.transaction (process_once D moment msg) w.db).1;
          rabbitmq = (ack A tag w.rabbitmq).1;
        }
    unfolding handle_happy_path
    returned_to b f = ground arith

    -- A delivery whose handling returns ends with it.
    pub deliver-handle :
        (w' : Worker D A)
        → handle D A config moment msg tag w ≡ (ok tt, w')
        → deliver D A config moment (record { tag = tag; content = json msg }) w ≡ w'
    unfolding deliver on_message
    deliver-handle w' e =
        let returns : (handle D A config moment msg tag w).0 ≡ ok tt = λ i. (e i).0 in
        let leaves : (handle D A config moment msg tag w).1 ≡ w' = λ i. (e i).1 in ground arith

    -- When it throws, the failure is handled.
    pub handle-throws :
        (e : Exception)
        → (D.transaction (process_once D moment msg) w.db).0 ≡ err e
        → handle D A config moment msg tag w
          ≡ handle_failed_processing D A config msg tag
              (record w { db = (D.transaction (process_once D moment msg) w.db).1 })
    unfolding handle handle_happy_path
    handle-throws e f = ground arith

    -- What the handler leaves in the database is what its transaction leaves.
    pub handle-db :
        (handle D A config moment msg tag w).1.db
        ≡ (D.transaction (process_once D moment msg) w.db).1
    unfolding handle
    handle-db = elim (Result-cases (D.transaction (process_once D moment msg) w.db).0) [
      | inr (e, f) ↦
          ap (λ (x : Result (Unit {0}) × Worker D A). x.1.db) (handle-throws e f)
          ∙ failed-db config msg tag _
      | inl (b, f) ↦ returned_db b f (Result-cases (handle_happy_path D A moment msg tag w).0)
    ]
      where
        returned_db :
            (b : Bool)
            → (D.transaction (process_once D moment msg) w.db).0 ≡ ok b
            → ((a : Unit {0}) × ((handle_happy_path D A moment msg tag w).0 ≡ ok a))
              ⊎ ((e : Exception) × ((handle_happy_path D A moment msg tag w).0 ≡ err e))
            → (handle D A config moment msg tag w).1.db
              ≡ (D.transaction (process_once D moment msg) w.db).1
        returned_db b f (inl (a, g)) = rw (g, handle, returned_to b f)
        returned_db b f (inr (e, g)) =
            rw (g, handle)
              (failed-db config msg tag (handle_happy_path D A moment msg tag w).1
                ∙ ap (λ (x : Worker D A). x.db) (returned_to b f))

    pub handle-returns :
        (b : Bool) (ch : A.Channel)
        → RabbitMq.Laws A
        → RabbitMq.IsOpen A
        → w.rabbitmq ≡ some ch
        → (D.transaction (process_once D moment msg) w.db).0 ≡ ok b
        → ((handle D A config moment msg tag w).0 ≡ ok tt)
          × Acked tag w (handle D A config moment msg tag w).1
    unfolding handle handle_happy_path ack
    handle-returns b ch laws is_open e f =
        let (ch', g) = is_open.acks tag ch in
        let (x, y, z) = laws.ack_lem tag ch ch' g in
        (
          ground arith,
          record {
            before = ch;
            after = ch';
            was = e;
            is_now = ground arith;
            acknowledged = x;
            published = y;
            rejected = z;
            timers = ground arith;
          },
        )

  -- Where the transaction returns from whatever state it begins in, with a relation between the tables
  -- before and after, the handler acknowledges and has this relation.
  pub handle-transaction :
      (laws : Laws D)
      → IsUp D
      → RabbitMq.Laws A
      → RabbitMq.IsOpen A
      → (config : Config) (moment : ℕ) (msg : ProcessOrderMessage) (tag : ℕ) (w : Worker D A)
        (ch : A.Channel)
      → w.rabbitmq ≡ some ch
      → (Q : Tables → Tables → Type 0) (b : Bool)
      → ((s : D.Db)
          → D.view s ≡ D.view w.db
          → ((process_once D moment msg s).0 ≡ ok b)
            × Q (D.view s) (D.view (process_once D moment msg s).1))
      → let (r, w') = handle D A config moment msg tag w in
        (r ≡ ok tt) × Acked tag w w' × Q (D.view w.db) (D.view w'.db)
  handle-transaction laws up amqp is_open config moment msg tag w ch e Q b returns =
      elim (laws.transaction_lem (process_once D moment msg) w.db) [
        | inr (x, f, same) ↦
            let (s, start, g) = up.transacts (process_once D moment msg) w.db in
            let (h, _) = returns s start in absurd (ground arith)
        | inl (s, a, start, f, g, same) ↦
            let (h, q) = returns s start in
            let (x, y) = handle-returns config moment msg tag w a ch amqp is_open e g in
            (
              x,
              y,
              subst (λ t. Q (D.view w.db) t)
                  (sym (ap D.view (handle-db config moment msg tag w) ∙ same))
                  (subst (λ t. Q t (D.view (process_once D moment msg s).1)) start q),
            )
      ]
