-- ===== src/Worker/Recovery.antt =====
-- A message whose simulated failure stops (`stopOnAttempt` of src/orders/orders-worker.service.ts): it
-- is tried again until then.
use mathlib.Core.List.{append-nil}
use nodejs_pro_task.Base.{
  ℕ, zero, suc, ◌+◌, ◌<◌, ◌≤◌, String, ◌≡◌, refl, sym, ap, ◌∙◌, inl, inr, true, none, some, List,
  [], ◌∷◌, arith, subst, Option-cases,
}
use nodejs_pro_task.Errors.{ok}
use nodejs_pro_task.Schema.{Tables, ProcessedMessage}
use nodejs_pro_task.Database.{Database}
use nodejs_pro_task.Database.Contract.{Laws, IsUp, with_processed}
use nodejs_pro_task.Messages.{ProcessOrderMessage, Failure, Content, json}
use nodejs_pro_task.RabbitMq
use nodejs_pro_task.RabbitMq.{Amqp}
use nodejs_pro_task.Worker.{
  Config, handler_name, process_once, process_order_message, Worker, handle, deliver, next_attempt,
  stops_on, is_last,
}
use nodejs_pro_task.Worker.Steps.{Acked, deliver-handle, handle-transaction}
use nodejs_pro_task.Worker.Effects.{Did, Did-trans}
use nodejs_pro_task.Worker.Attempts.{attempts, attempts-suc, posted_again}

-- What the queue gets of a message that is tried so many times more.
abbrev pub reposts : ℕ → ProcessOrderMessage → List (String × Content)
reposts zero msg = []
reposts (suc k) msg = ("orders.process", json (next_attempt msg)) ∷ reposts k (next_attempt msg)

-- The deliveries before the last.
abbrev pub earlier_tags : ℕ → ℕ → List ℕ
earlier_tags zero tag = []
earlier_tags (suc k) tag = tag ∷ earlier_tags k (suc tag)

-- The tables have a row for the message, and nothing else is new.
abbrev pub Recorded : Database → Tables → Tables → ProcessOrderMessage → Type 0
Recorded D before after msg =
    (row : ProcessedMessage) × (row.message_id ≡ msg.message_id)
    × (row.handler ≡ handler_name)
    × (after ≡ with_processed D before row)

module _ (D : Database) (A : Amqp) (laws : Laws D) (up : IsUp D) (amqp : RabbitMq.Laws A)
    (is_open : RabbitMq.IsOpen A) (config : Config) (moment : ℕ) (f : Failure) where
  records :
      (msg : ProcessOrderMessage) (d : D.Db)
      → (D.view d).processed_messages msg.message_id handler_name ≡ none
      → msg.simulate_failure ≡ some f
      → stops_on f msg.attempt ≡ true
      → ((process_once D moment msg d).0 ≡ ok true)
        × Recorded D (D.view d) (D.view (process_once D moment msg d).1) msg
  unfolding process_once process_order_message
  records msg d absent e stops =
      let (d', g) = up.inserts_processed msg.message_id handler_name d absent in
      let (_, (row, i, h, v)) = laws.insert_processed-ok msg.message_id handler_name d d' g in
      let ends : (process_once D moment msg d).1 ≡ d' = ground arith in
      (ground arith, (row, i, h, ap D.view ends ∙ v))

  -- The delivery on which the failure stops.
  succeeds :
      (msg : ProcessOrderMessage) (tag : ℕ) (w : Worker D A) (ch : A.Channel)
      → msg.simulate_failure ≡ some f
      → (D.view w.db).processed_messages msg.message_id handler_name ≡ none
      → w.rabbitmq ≡ some ch
      → stops_on f msg.attempt ≡ true
      → let w' = deliver D A config moment (record { tag = tag; content = json msg }) w in
        Acked D A tag w w' × Recorded D (D.view w.db) (D.view w'.db) msg
  succeeds msg tag w ch e absent c stops =
      let (r, acked, done) =
        handle-transaction D A laws up amqp is_open config moment msg tag w ch c
          (λ t t'. Recorded D t t' msg) true
          (λ s start.
            records msg s
              (ap (λ (t : Tables). t.processed_messages msg.message_id handler_name) start ∙ absent)
              e stops) in
      let w' = (handle D A config moment msg tag w).1 in
      subst (λ x. Acked D A tag w x × Recorded D (D.view w.db) (D.view x.db) msg)
        (sym (deliver-handle D A config moment msg tag w w' (λ i. (r i, w')))) (acked, done)

  Did-nothing : (w : Worker D A) (ch : A.Channel) → w.rabbitmq ≡ some ch → Did D A [] [] w w
  Did-nothing w ch c = record {
    before = ch;
    after = ch;
    was = c;
    is_now = c;
    published = sym (append-nil (A.published ch));
    acked = sym (append-nil (A.acked ch));
    rejected = refl;
    tables = refl;
  }

  -- The message has been posted again so many times, and its last delivery is acknowledged and
  -- recorded.
  abbrev pub Recovered : ℕ → ProcessOrderMessage → ℕ → Worker D A → Worker D A → Type 0
  Recovered k msg tag w w' =
      (x : Worker D A) × Did D A (reposts k msg) (earlier_tags k tag) w x
      × Acked D A (tag + k) x w'
      × Recorded D (D.view w.db) (D.view w'.db) msg

  -- On an idle worker, with a database that is up and an open channel, a message that the worker
  -- has not recorded and whose simulated failure stops at the k-th attempt after this one, at most
  -- the configured number if that is a number, is posted again k times, each of these deliveries
  -- and the last one is acknowledged, nothing is put back and nothing stays scheduled, and the
  -- tables get the row that records the message and nothing else; k + 1 deliveries are enough.
  pub attempts_recover :
      (k n : ℕ) (msg : ProcessOrderMessage) (tag : ℕ) (w : Worker D A) (ch : A.Channel)
      → k < n
      → f.stop_on_attempt ≡ some (msg.attempt + k)
      → ((m : ℕ) → config.max_retries ≡ some m → msg.attempt + k ≤ m)
      → msg.simulate_failure ≡ some f
      → (D.view w.db).processed_messages msg.message_id handler_name ≡ none
      → w.rabbitmq ≡ some ch
      → w.timers ≡ []
      → let w' = attempts D A n config moment msg tag w in
        (w'.timers ≡ []) × Recovered k msg tag w w'
  unfolding stops_on is_last
  attempts_recover k zero msg tag w ch enough stop max e absent c idle = absurd (omega arith)
  attempts_recover zero (suc n) msg tag w ch enough stop max e absent c idle =
      let w' = deliver D A config moment (record { tag = tag; content = json msg }) w in
      let (acked, done) = succeeds msg tag w ch e absent c (ground arith) in
      let none_left : w'.timers ≡ [] = acked.timers ∙ idle in
      subst (λ x. (x.timers ≡ []) × Recovered 0 msg tag w x)
        (sym (attempts-suc D A n config moment msg tag w [] none_left))
        (
          none_left,
          (w, Did-nothing w ch c, subst (λ t. Acked D A t w w') (omega arith) acked, done),
        )
  attempts_recover (suc k) (suc n) msg tag w ch enough stop max e absent c idle =
      let (w', goes_on, idle', did) =
        posted_again D A laws up amqp is_open config moment f n msg tag w ch e absent c idle
          (ground arith)
          (elim (Option-cases config.max_retries) [
            | inl never ↦ ground arith
            | inr (m, at) ↦ let below = max m at in ground arith
          ]) in
      let (v, (x, later, acked, (row, i, h, t))) =
        attempts_recover k n (next_attempt msg) (suc tag) w' did.after (omega arith)
          (stop ∙ ap some (omega arith)) (λ m at. let below = max m at in omega arith) e
          (ap (λ (t : Tables). t.processed_messages msg.message_id handler_name) did.tables
            ∙ absent)
          did.is_now idle' in
      subst (λ x. (x.timers ≡ []) × Recovered (suc k) msg tag w x) (sym goes_on)
        (
          v,
          (
            x,
            Did-trans D A (("orders.process", json (next_attempt msg)) ∷ [])
                (reposts k (next_attempt msg)) (tag ∷ []) (earlier_tags k (suc tag)) w w' x did
                later,
            subst
                (λ t. Acked D A t x (attempts D A n config moment (next_attempt msg) (suc tag) w'))
                (omega arith) acked,
            (row, i, h, t ∙ ap (λ y. with_processed D y row) did.tables),
          ),
        )
