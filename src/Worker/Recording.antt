-- ===== src/Worker/Recording.antt =====
-- A transaction of the worker that returns leaves its row for the message
-- (src/orders/orders-worker.service.ts).
use nodejs_pro_task.Base.{
  ℕ, ◌≡◌, sym, ap, ◌∙◌, inl, inr, Bool, true, Bool-cases, Option-cases, arith, subst, eq_iff,
  str_eq,
}
use nodejs_pro_task.Errors.{ok, err, Result-cases}
use nodejs_pro_task.Schema.{Tables, ProcessedMessage, processed}
use nodejs_pro_task.Database.{Database}
use nodejs_pro_task.Database.Contract.{Laws, with_processed}
use nodejs_pro_task.Messages.{ProcessOrderMessage}
use nodejs_pro_task.Orders.Repository.{is_duplicate_error}
use nodejs_pro_task.Orders.Service.Creation.{unique_violation_of}
use nodejs_pro_task.Worker.{handler_name, process_once, process_order_message}
use nodejs_pro_task.Worker.Deduplication.{IsProcessed}

with_processed-IsProcessed :
    (D : Database) (t : Tables) (msg : ProcessOrderMessage) (row : ProcessedMessage)
    → row.message_id ≡ msg.message_id
    → row.handler ≡ handler_name
    → IsProcessed (with_processed D t row) msg
with_processed-IsProcessed D t msg row i h e =
    let named : str_eq row.handler handler_name ≡ true = (eq_iff row.handler handler_name).1 h in
    ground arith

module _ (D : Database) (laws : Laws D) (moment : ℕ) (msg : ProcessOrderMessage) where
  -- Processing the order leaves the rows of messages alone.
  process_order_message-IsProcessed :
      (d : D.Db)
      → IsProcessed (D.view d) msg
      → IsProcessed (D.view (process_order_message D moment msg d).1) msg
  unfolding process_order_message
  process_order_message-IsProcessed d h = elim (Option-cases msg.simulate_failure) [
    | inr (f, e) ↦
        let same : (process_order_message D moment msg d).1 ≡ d = ground arith in
        subst (λ x. IsProcessed (D.view x) msg) (sym same) h
    | inl e ↦ elim (Result-cases (D.update_order msg.order_id processed moment d)) [
      | inr (x, f) ↦
          let same : (process_order_message D moment msg d).1 ≡ d = ground arith in
          subst (λ x. IsProcessed (D.view x) msg) (sym same) h
      | inl (d', f) ↦
          let same : (process_order_message D moment msg d).1 ≡ d' = ground arith in
          subst (λ x. IsProcessed (D.view x) msg) (sym same)
            (subst (λ t. IsProcessed t msg)
              (sym (laws.update_order-ok msg.order_id processed moment d d' f)) h)
    ]
  ]

  -- A transaction of the worker that returns leaves a row for the message.
  process_once-IsProcessed :
      (d : D.Db) (b : Bool)
      → (process_once D moment msg d).0 ≡ ok b
      → IsProcessed (D.view (process_once D moment msg d).1) msg
  unfolding process_once
  process_once-IsProcessed d b h =
      elim (Result-cases (D.insert_processed msg.message_id handler_name d)) [
        | inr (x, e) ↦ elim (Bool-cases (is_duplicate_error x)) [
          | inr other ↦ absurd (ground arith)
          | inl duplicate ↦
              let same : (process_once D moment msg d).1 ≡ d = ground arith in
              subst (λ x. IsProcessed (D.view x) msg) (sym same)
                (laws.insert_processed-violation msg.message_id handler_name d
                  (e ∙ ap err (unique_violation_of x duplicate)))
        ]
        | inl (d', e) ↦
            let (_, (row, i, handled, v)) =
              laws.insert_processed-ok msg.message_id handler_name d d' e in
            let same : (process_once D moment msg d).1 ≡ (process_order_message D moment msg d').1 =
              ground arith in
            subst (λ x. IsProcessed (D.view x) msg) (sym same)
              (process_order_message-IsProcessed d' (
                subst (λ t. IsProcessed t msg) (sym v)
                  (with_processed-IsProcessed D (D.view d) msg row i handled)))
      ]

  pub transaction-IsProcessed :
      (d : D.Db) (b : Bool)
      → (D.transaction (process_once D moment msg) d).0 ≡ ok b
      → IsProcessed (D.view (D.transaction (process_once D moment msg) d).1) msg
  transaction-IsProcessed d b h = elim (laws.transaction_lem (process_once D moment msg) d) [
    | inr (e, f, same) ↦ absurd (ground arith)
    | inl (s, a, start, f, g, same) ↦
        subst (λ t. IsProcessed t msg) (sym same) (process_once-IsProcessed s a f)
  ]
