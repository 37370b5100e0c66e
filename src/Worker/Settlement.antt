-- ===== src/Worker/Settlement.antt =====
-- What becomes of a delivery (the callback of consume in src/rabbit-mq/rabbit-mq.service.ts with the
-- handler of src/orders/orders-worker.service.ts).
use nodejs_pro_task.Base.{
  ℕ, ◌≡◌, refl, sym, ap, subst, ◌∙◌, ◌⊎◌, inl, inr, Bool, Bool-cases, true, some, [], ◌∷◌, ◌++◌,
  arith, List, false, String,
}
use nodejs_pro_task.Errors.{Exception, ok, err, Result-cases}
use nodejs_pro_task.Database.{Database}
use nodejs_pro_task.Database.Contract.{Laws}
use nodejs_pro_task.Worker.Deduplication.{IsProcessed}
use nodejs_pro_task.Worker.Recording.{transaction-IsProcessed}
use nodejs_pro_task.Messages.{ProcessOrderMessage, Content, json, invalid}
use nodejs_pro_task.RabbitMq
use nodejs_pro_task.RabbitMq.{Amqp, reject}
use nodejs_pro_task.RabbitMq.Deliveries.{on_message, give_back}
use nodejs_pro_task.Worker.{
  Config, Worker, process_once, handle, deliver, is_last, handle_failed_processing,
}
use nodejs_pro_task.Worker.Steps.{handle-db, deliver-handle, handle-returns, handle-throws}
use nodejs_pro_task.Worker.Effects.{send_then_ack, send_and_ack}
use mathlib.Core.List.{append-nil}

module _ (D : Database) (A : Amqp) (laws : Laws D) (amqp : RabbitMq.Laws A)
    (is_open : RabbitMq.IsOpen A) (config : Config) (moment : ℕ) (tag : ℕ) (w : Worker D A)
    (ch : A.Channel) (channel : w.rabbitmq ≡ some ch) where
  -- The delivery is acknowledged, and this is what has been sent.
  abbrev Acknowledged : List (String × Content) → A.Channel → Type 0
  Acknowledged sent after =
      (A.acked after ≡ A.acked ch ++ tag ∷ [])
      × (A.rejected after ≡ A.rejected ch)
      × (A.published after ≡ A.published ch ++ sent)

  -- The message is processed: the tables have the worker's row for it, and nothing is sent.
  abbrev Done : ProcessOrderMessage → A.Channel → Worker D A → Type 0
  Done msg after w' =
      Acknowledged [] after × IsProcessed (D.view w'.db) msg × (w'.timers ≡ w.timers)

  -- It was its last attempt, and the message is in the queue of dead letters.
  abbrev Buried : ProcessOrderMessage → A.Channel → Worker D A → Type 0
  Buried msg after w' =
      (is_last config msg.attempt ≡ true)
      × Acknowledged (("orders.dlq", json msg) ∷ []) after
      × (D.view w'.db ≡ D.view w.db)
      × (w'.timers ≡ w.timers)

  -- It has attempts left, and its retry is scheduled.
  abbrev Waits : ProcessOrderMessage → A.Channel → Worker D A → Type 0
  Waits msg after w' =
      (is_last config msg.attempt ≡ false)
      × (after ≡ ch)
      × (D.view w'.db ≡ D.view w.db)
      × (w'.timers ≡ w.timers ++ record { message = msg; tag = tag } ∷ [])

  abbrev PutBack : A.Channel → Worker D A → Type 0
  PutBack after w' =
      (A.rejected after ≡ A.rejected ch ++ (tag, true) ∷ [])
      × (A.acked after ≡ A.acked ch)
      × (A.published after ≡ A.published ch)
      × (w'.db ≡ w.db)

  abbrev pub Settled : Content → Worker D A → Type 0
  Settled invalid w' = (after : A.Channel) × (w'.rabbitmq ≡ some after) × PutBack after w'
  Settled (json msg) w' =
      (after : A.Channel) × (w'.rabbitmq ≡ some after)
      × (Done msg after w' ⊎ (Buried msg after w' ⊎ Waits msg after w'))

  settle :
      (msg : ProcessOrderMessage) (w' : Worker D A)
      → handle D A config moment msg tag w ≡ (ok tt, w')
      → Settled (json msg) w'
      → Settled (json msg) (deliver D A config moment (record { tag = tag; content = json msg }) w)
  settle msg w' e s =
      subst (Settled (json msg)) (sym (deliver-handle D A config moment msg tag w w' e)) s

  -- A message whose transaction has returned.
  processed-Settled :
      (msg : ProcessOrderMessage) (b : Bool)
      → (D.transaction (process_once D moment msg) w.db).0 ≡ ok b
      → Settled (json msg) (deliver D A config moment (record { tag = tag; content = json msg }) w)
  processed-Settled msg b e =
      let (r, acked) = handle-returns D A config moment msg tag w b ch amqp is_open channel e in
      let same : acked.before ≡ ch = cc in
      settle msg (handle D A config moment msg tag w).1
        (λ i. (r i, (handle D A config moment msg tag w).1))
        (
          acked.after,
          acked.is_now,
          inl (
            (
              acked.acknowledged ∙ ap (λ c. A.acked c ++ tag ∷ []) same,
              acked.rejected ∙ ap A.rejected same,
              acked.published ∙ ap A.published same ∙ sym (append-nil (A.published ch)),
            ),
            subst (λ (d : D.Db). IsProcessed (D.view d) msg)
                (sym (handle-db D A config moment msg tag w))
                (transaction-IsProcessed D laws moment msg w.db b e),
            acked.timers,
          ),
        )

  -- A transaction that throws leaves the tables as they were.
  rolled_back :
      (msg : ProcessOrderMessage) (x : Exception)
      → (D.transaction (process_once D moment msg) w.db).0 ≡ err x
      → D.view (D.transaction (process_once D moment msg) w.db).1 ≡ D.view w.db
  rolled_back msg x e = elim (laws.transaction_lem (process_once D moment msg) w.db) [
    | inr (y, f, same) ↦ same
    | inl (s, b, start, f, g, same) ↦ absurd (ground arith)
  ]

  -- A message whose transaction has thrown.
  failed-Settled :
      (msg : ProcessOrderMessage) (x : Exception)
      → (D.transaction (process_once D moment msg) w.db).0 ≡ err x
      → Settled (json msg) (deliver D A config moment (record { tag = tag; content = json msg }) w)
  unfolding handle_failed_processing
  failed-Settled msg x e =
      let w₁ : Worker D A = record w { db = (D.transaction (process_once D moment msg) w.db).1 } in
      let thrown = handle-throws D A config moment msg tag w x e in
      let kept = rolled_back msg x e in
      elim (Bool-cases (is_last config msg.attempt)) [
        | inl last ↦
            let (r, t, did) = send_and_ack D A amqp is_open "orders.dlq" msg tag w₁ ch channel in
            let same : did.before ≡ ch = cc in
            let sent : handle_failed_processing D A config msg tag w₁
                ≡ send_then_ack D A "orders.dlq" msg tag w₁ =
              rw (last, handle_failed_processing) in
            settle msg (send_then_ack D A "orders.dlq" msg tag w₁).1
              (thrown ∙ sent ∙ (λ i. (r i, (send_then_ack D A "orders.dlq" msg tag w₁).1)))
              (
                did.after,
                did.is_now,
                inr (
                    inl (
                      last,
                      (
                        did.acked ∙ ap (λ c. A.acked c ++ tag ∷ []) same,
                        did.rejected ∙ ap A.rejected same,
                        did.published
                            ∙ ap (λ c. A.published c ++ ("orders.dlq", json msg) ∷ []) same,
                      ),
                      did.tables ∙ kept,
                      t,
                    )),
              )
        | inr more ↦
            settle msg (record w₁ { timers = w.timers ++ record { message = msg; tag = tag } ∷ [] })
              (thrown ∙ rw (more, handle_failed_processing))
              (ch, channel, inr (inr (more, refl, kept, refl)))
      ]

  -- However the database answers, with an open channel a delivery is not lost. It is acknowledged
  -- with nothing sent, and the tables have the row of the worker for its message; or, on its last
  -- attempt, it is acknowledged and its message is sent to orders.dlq; or, before the last
  -- attempt, its retry is scheduled and the channel is as it was; or, exactly when its content is
  -- no message, it is put back into its queue. In the last three cases the tables are as they
  -- were.
  pub deliver-Settled :
      (content : Content)
      → Settled content (deliver D A config moment (record { tag = tag; content = content }) w)
  unfolding deliver on_message give_back reject
  deliver-Settled invalid =
      let (ch', e) = is_open.rejects tag true ch in
      let (r, p, a) = amqp.reject_lem tag true ch ch' e in
      (ch', ground arith, (r, a, p, ground arith))
  deliver-Settled (json msg) =
      elim (Result-cases (D.transaction (process_once D moment msg) w.db).0) [
        | inl (b, e) ↦ processed-Settled msg b e
        | inr (x, e) ↦ failed-Settled msg x e
      ]
