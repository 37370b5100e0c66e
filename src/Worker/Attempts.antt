-- ===== src/Worker/Attempts.antt =====
-- The attempts at a message (src/orders/orders-worker.service.ts): what one delivery of a message that
-- fails leads to.
use nodejs_pro_task.Base.{
  ℕ, zero, suc, String, ◌≡◌, refl, sym, ap, ◌∙◌, inl, inr, true, false, none, some, List, [], ◌∷◌,
  ◌++◌, arith, subst,
}
use nodejs_pro_task.Errors.{plain, ok, err}
use nodejs_pro_task.Schema.{Tables}
use nodejs_pro_task.Database.{Database}
use nodejs_pro_task.Database.Contract.{Laws, IsUp}
use nodejs_pro_task.Messages.{ProcessOrderMessage, Failure, Content, json}
use nodejs_pro_task.RabbitMq
use nodejs_pro_task.RabbitMq.{Amqp, send, ack, get_channel}
use nodejs_pro_task.Worker.{
  Config, handler_name, process_once, process_order_message, Worker, Retry, handle, deliver, retry,
  next_attempt, stops_on, is_last, handle_failed_processing,
}
use nodejs_pro_task.Worker.Steps.{deliver-handle, handle-throws}
use nodejs_pro_task.Worker.Effects.{Did, send_then_ack, Did-from, send_and_ack}

-- What the queues get of a message that fails for good, with so many retries to go.
abbrev pub history : ℕ → ProcessOrderMessage → List (String × Content)
history zero msg = ("orders.dlq", json msg) ∷ []
history (suc k) msg = ("orders.process", json (next_attempt msg)) ∷ history k (next_attempt msg)

-- The deliveries that are acknowledged meanwhile, when they are numbered in turn.
abbrev pub tags_from : ℕ → ℕ → List ℕ
tags_from zero tag = tag ∷ []
tags_from (suc k) tag = tag ∷ tags_from k (suc tag)

module _ (D : Database) (A : Amqp) where
  -- The life of a message, for at most so many deliveries: it is delivered, and when the worker has
  -- scheduled a retry, that one runs, and what it posts is delivered next.
  unfoldable pub attempts : ℕ → Config → ℕ → ProcessOrderMessage → ℕ → Worker D A → Worker D A
  attempts zero config moment msg tag w = w
  attempts (suc n) config moment msg tag w =
      let w' = deliver D A config moment (record { tag = tag; content = json msg }) w in
      elim w'.timers [
        | [] ↦ w'
        | t ∷ ts ↦
            attempts n config moment (next_attempt t.message) (suc tag)
              (retry D A t (record w' { timers = ts })).1
      ]

  -- The life goes on by what is scheduled after a delivery.
  abbrev after_delivery : ℕ → Config → ℕ → ℕ → Worker D A → List (Retry D A) → Worker D A
  after_delivery n config moment tag w [] = w
  after_delivery n config moment tag w (t ∷ ts) =
      attempts n config moment (next_attempt t.message) (suc tag)
        (retry D A t (record w { timers = ts })).1

  pub attempts-suc :
      (n : ℕ) (config : Config) (moment : ℕ) (msg : ProcessOrderMessage) (tag : ℕ) (w : Worker D A)
      (ts : List (Retry D A))
      → let w' = deliver D A config moment (record { tag = tag; content = json msg }) w in
        w'.timers ≡ ts
        → attempts (suc n) config moment msg tag w ≡ after_delivery n config moment tag w' ts
  unfolding attempts
  attempts-suc n config moment msg tag w ts e = ap (after_delivery n config moment tag w') e
    where
      w' : Worker D A
      w' = deliver D A config moment (record { tag = tag; content = json msg }) w

  module _ (laws : Laws D) (up : IsUp D) (amqp : RabbitMq.Laws A)
      (is_open : RabbitMq.IsOpen A) where
    -- The transaction of a message that fails leaves no trace of it.
    pub fails :
        (moment : ℕ) (msg : ProcessOrderMessage) (f : Failure) (d : D.Db)
        → (D.view d).processed_messages msg.message_id handler_name ≡ none
        → msg.simulate_failure ≡ some f
        → stops_on f msg.attempt ≡ false
        → ((D.transaction (process_once D moment msg) d).0 ≡ err (plain f.reason))
          × (D.view (D.transaction (process_once D moment msg) d).1 ≡ D.view d)
    unfolding process_once process_order_message
    fails moment msg f d absent e n =
        let (s, start, same) = up.transacts (process_once D moment msg) d in
        let (d', g) =
          up.inserts_processed msg.message_id handler_name s (
            ap (λ (t : Tables). t.processed_messages msg.message_id handler_name) start ∙ absent) in
        let thrown : (D.transaction (process_once D moment msg) d).0 ≡ err (plain f.reason) =
          ground arith in
        (
          thrown,
          elim (laws.transaction_lem (process_once D moment msg) d) [
            | inr (x, k, kept) ↦ kept
            | inl (s', b, _, _, k, _) ↦ absurd (ground arith)
          ],
        )

    module _ (config : Config) (moment : ℕ) (f : Failure) where
      -- A failing message on its last attempt.
      pub buried :
          (msg : ProcessOrderMessage) (tag : ℕ) (w : Worker D A) (ch : A.Channel)
          → msg.simulate_failure ≡ some f
          → (D.view w.db).processed_messages msg.message_id handler_name ≡ none
          → w.rabbitmq ≡ some ch
          → stops_on f msg.attempt ≡ false
          → is_last config msg.attempt ≡ true
          → let w' = deliver D A config moment (record { tag = tag; content = json msg }) w in
            (w'.timers ≡ w.timers) × Did D A (("orders.dlq", json msg) ∷ []) (tag ∷ []) w w'
      unfolding handle_failed_processing
      buried msg tag w ch e absent c stays last =
          let (thrown, kept) = fails moment msg f w.db absent e stays in
          let w₁ : Worker D A = record w {
            db = (D.transaction (process_once D moment msg) w.db).1;
          } in
          let (r, t, did) = send_and_ack D A amqp is_open "orders.dlq" msg tag w₁ ch c in
          let sent : handle_failed_processing D A config msg tag w₁
              ≡ send_then_ack D A "orders.dlq" msg tag w₁ =
            rw (last, handle_failed_processing) in
          let w₂ : Worker D A = (send_then_ack D A "orders.dlq" msg tag w₁).1 in
          let handled : handle D A config moment msg tag w ≡ (ok tt, w₂) =
            handle-throws D A config moment msg tag w (plain f.reason) thrown
            ∙ sent
            ∙ (λ i. (r i, w₂)) in
          subst
            (λ w'. (w'.timers ≡ w.timers) × Did D A (("orders.dlq", json msg) ∷ []) (tag ∷ []) w w')
            (sym (deliver-handle D A config moment msg tag w w₂ handled))
            (t, Did-from D A ("orders.dlq", json msg) tag w w₁ w₂ refl kept did)

      -- A failing message that is to be tried again.
      pub delayed :
          (msg : ProcessOrderMessage) (tag : ℕ) (w : Worker D A)
          → msg.simulate_failure ≡ some f
          → (D.view w.db).processed_messages msg.message_id handler_name ≡ none
          → stops_on f msg.attempt ≡ false
          → is_last config msg.attempt ≡ false
          → let w' = deliver D A config moment (record { tag = tag; content = json msg }) w in
            (w'.timers ≡ w.timers ++ record { message = msg; tag = tag } ∷ [])
            × (w'.rabbitmq ≡ w.rabbitmq)
            × (D.view w'.db ≡ D.view w.db)
      unfolding handle_failed_processing
      delayed msg tag w e absent stays more =
          let (thrown, kept) = fails moment msg f w.db absent e stays in
          let w₁ : Worker D A = record w {
            db = (D.transaction (process_once D moment msg) w.db).1;
            timers = w.timers ++ record { message = msg; tag = tag } ∷ [];
          } in
          let handled : handle D A config moment msg tag w ≡ (ok tt, w₁) =
            handle-throws D A config moment msg tag w (plain f.reason) thrown
            ∙ rw (more, handle_failed_processing) in
          let same = deliver-handle D A config moment msg tag w w₁ handled in
          (
            ap (λ (x : Worker D A). x.timers) same,
            ap (λ (x : Worker D A). x.rabbitmq) same,
            ap (λ (x : Worker D A). D.view x.db) same ∙ kept,
          )

      -- A failing message that is to be tried again, on an idle worker: it is posted again, and the life
      -- goes on with it.
      pub posted_again :
          (n : ℕ) (msg : ProcessOrderMessage) (tag : ℕ) (w : Worker D A) (ch : A.Channel)
          → msg.simulate_failure ≡ some f
          → (D.view w.db).processed_messages msg.message_id handler_name ≡ none
          → w.rabbitmq ≡ some ch
          → w.timers ≡ []
          → stops_on f msg.attempt ≡ false
          → is_last config msg.attempt ≡ false
          → (w' : Worker D A) × (attempts (suc n) config moment msg tag w
              ≡ attempts n config moment (next_attempt msg) (suc tag) w')
            × (w'.timers ≡ [])
            × Did D A (("orders.process", json (next_attempt msg)) ∷ []) (tag ∷ []) w w'
      unfolding retry
      posted_again n msg tag w ch e absent c idle stays more =
          let (t, same, kept) = delayed msg tag w e absent stays more in
          let w' = deliver D A config moment (record { tag = tag; content = json msg }) w in
          let one_left : w'.timers ≡ record { message = msg; tag = tag } ∷ [] =
            t ∙ ap (λ ts. ts ++ record { message = msg; tag = tag } ∷ []) idle in
          let idle' : Worker D A = record w' { timers = [] } in
          let (r, u, did) =
            send_and_ack D A amqp is_open "orders.process" (next_attempt msg) tag idle' ch
              (same ∙ c) in
          (
            (send_then_ack D A "orders.process" (next_attempt msg) tag idle').1,
            attempts-suc n config moment msg tag w (record { message = msg; tag = tag } ∷ [])
                one_left,
            u,
            Did-from D A ("orders.process", json (next_attempt msg)) tag w idle'
                (send_then_ack D A "orders.process" (next_attempt msg) tag idle').1 same kept did,
          )
