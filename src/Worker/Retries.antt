-- ===== src/Worker/Retries.antt =====
-- How a message that keeps failing is retried, and where it ends (`handleFailedProcessing` of
-- src/orders/orders-worker.service.ts).
use nodejs_pro_task.Base.{
  ℕ, zero, suc, ◌+◌, ◌<◌, ◌≤◌, ◌≡◌, sym, ap, ◌∙◌, false, none, some, [], ◌∷◌, arith, subst,
}
use nodejs_pro_task.Schema.{Tables}
use nodejs_pro_task.Database.{Database}
use nodejs_pro_task.Database.Contract.{Laws, IsUp}
use nodejs_pro_task.Messages.{ProcessOrderMessage, Failure, json}
use nodejs_pro_task.RabbitMq
use nodejs_pro_task.RabbitMq.{Amqp, send, ack, get_channel}
use nodejs_pro_task.Worker.{Config, handler_name, Worker, deliver, next_attempt, stops_on, is_last}
use nodejs_pro_task.Worker.Effects.{Did, Did-trans}
use nodejs_pro_task.Worker.Attempts.{
  history, tags_from, attempts, attempts-suc, buried, posted_again,
}

module _ (D : Database) (A : Amqp) (laws : Laws D) (up : IsUp D) (amqp : RabbitMq.Laws A)
    (is_open : RabbitMq.IsOpen A) (config : Config) (moment : ℕ) (f : Failure) where
  -- A message that fails on every attempt up to the configured number is tried until then, and then
  -- sent to the dead letters: on an idle worker, with a database that is up and an open channel, a
  -- message with `k` attempts to go after this one is posted again `k` times and then once to
  -- `orders.dlq`, each delivery of it is acknowledged, nothing is put back into the queue, no callback
  -- is left scheduled, and the tables are as they were. For that `k + 1` deliveries are enough.
  pub attempts_end :
      (k n : ℕ) (msg : ProcessOrderMessage) (tag : ℕ) (w : Worker D A) (ch : A.Channel)
      → k < n
      → config.max_retries ≡ some (msg.attempt + k)
      → ((a : ℕ) → msg.attempt ≤ a → a ≤ msg.attempt + k → stops_on f a ≡ false)
      → msg.simulate_failure ≡ some f
      → (D.view w.db).processed_messages msg.message_id handler_name ≡ none
      → w.rabbitmq ≡ some ch
      → w.timers ≡ []
      → let w' = attempts D A n config moment msg tag w in
        (w'.timers ≡ []) × Did D A (history k msg) (tags_from k tag) w w'
  unfolding is_last
  attempts_end k zero msg tag w ch enough max stays e absent c idle = absurd (omega arith)
  attempts_end zero (suc n) msg tag w ch enough max stays e absent c idle =
      let (t, did) =
        buried D A laws up amqp is_open config moment f msg tag w ch e absent c
          (stays msg.attempt (omega arith) (omega arith)) (ground arith) in
      let w' = deliver D A config moment (record { tag = tag; content = json msg }) w in
      let none_left : w'.timers ≡ [] = t ∙ idle in
      subst (λ x. (x.timers ≡ []) × Did D A (history 0 msg) (tags_from 0 tag) w x)
        (sym (attempts-suc D A n config moment msg tag w [] none_left)) (none_left, did)
  attempts_end (suc k) (suc n) msg tag w ch enough max stays e absent c idle =
      let (w', goes_on, idle', did) =
        posted_again D A laws up amqp is_open config moment f n msg tag w ch e absent c idle
          (stays msg.attempt (omega arith) (omega arith)) (ground arith) in
      let (v, more) =
        attempts_end k n (next_attempt msg) (suc tag) w' did.after (omega arith)
          (max ∙ ap some (omega arith)) (λ a from to. stays a (omega arith) (omega arith)) e
          (ap (λ (t : Tables). t.processed_messages msg.message_id handler_name) did.tables
            ∙ absent)
          did.is_now idle' in
      subst (λ x. (x.timers ≡ []) × Did D A (history (suc k) msg) (tags_from (suc k) tag) w x)
        (sym goes_on)
        (
          v,
          Did-trans D A (("orders.process", json (next_attempt msg)) ∷ [])
              (history k (next_attempt msg)) (tag ∷ []) (tags_from k (suc tag)) w w'
              (attempts D A n config moment (next_attempt msg) (suc tag) w') did more,
        )
