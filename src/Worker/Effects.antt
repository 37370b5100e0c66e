-- ===== src/Worker/Effects.antt =====
-- What the worker's calls have done between two of its states (src/orders/orders-worker.service.ts).
use nodejs_pro_task.Base.{ℕ, String, ◌≡◌, sym, ap, ◌∙◌, true, some, List, [], ◌∷◌, ◌++◌, arith}
use nodejs_pro_task.Exec.{Exec, ◌>>◌}
use nodejs_pro_task.Errors.{ok}
use nodejs_pro_task.Database.{Database}
use nodejs_pro_task.Messages.{ProcessOrderMessage, Content, json}
use nodejs_pro_task.RabbitMq
use nodejs_pro_task.RabbitMq.{Amqp, send, ack, get_channel}
use nodejs_pro_task.Worker.{Worker, on_channel}
use mathlib.Core.List.{append_assoc}

module _ (D : Database) (A : Amqp) where
  -- What has happened between two states of the worker: messages sent, deliveries acknowledged, and
  -- nothing written to the tables.
  pub record Did (sent : List (String × Content)) (acks : List ℕ) (w w' : Worker D A) : Type 0 where
    pub before : A.Channel
    pub after : A.Channel
    pub was : w.rabbitmq ≡ some before
    pub is_now : w'.rabbitmq ≡ some after
    pub published : A.published after ≡ A.published before ++ sent
    pub acked : A.acked after ≡ A.acked before ++ acks
    pub rejected : A.rejected after ≡ A.rejected before
    pub tables : D.view w'.db ≡ D.view w.db

  abbrev pub send_then_ack : String → ProcessOrderMessage → ℕ → Exec (Worker D A) (Unit {0})
  send_then_ack queue msg tag = do on_channel D A (send A queue msg); on_channel D A (ack A tag)

  -- A write that leaves the channel and the tables as they are counts for nothing.
  pub Did-from :
      (sent : String × Content) (tag : ℕ) (w w₁ w₂ : Worker D A)
      → w₁.rabbitmq ≡ w.rabbitmq
      → D.view w₁.db ≡ D.view w.db
      → Did (sent ∷ []) (tag ∷ []) w₁ w₂
      → Did (sent ∷ []) (tag ∷ []) w w₂
  Did-from sent tag w w₁ w₂ same kept d = record {
    before = d.before;
    after = d.after;
    was = sym same ∙ d.was;
    is_now = d.is_now;
    published = d.published;
    acked = d.acked;
    rejected = d.rejected;
    tables = d.tables ∙ kept;
  }

  pub Did-trans :
      (sent more : List (String × Content)) (acks rest : List ℕ) (w₁ w₂ w₃ : Worker D A)
      → Did sent acks w₁ w₂
      → Did more rest w₂ w₃
      → Did (sent ++ more) (acks ++ rest) w₁ w₃
  Did-trans sent more acks rest w₁ w₂ w₃ a b =
      let same : b.before ≡ a.after = cc in
      record {
        before = a.before;
        after = b.after;
        was = a.was;
        is_now = b.is_now;
        published =
            b.published
            ∙ ap (λ c. A.published c ++ more) same
            ∙ ap (λ x. x ++ more) a.published
            ∙ append_assoc (A.published a.before) sent more;
        acked =
            b.acked
            ∙ ap (λ c. A.acked c ++ rest) same
            ∙ ap (λ x. x ++ rest) a.acked
            ∙ append_assoc (A.acked a.before) acks rest;
        rejected = b.rejected ∙ ap A.rejected same ∙ a.rejected;
        tables = b.tables ∙ a.tables;
      }

  module _ (amqp : RabbitMq.Laws A) (is_open : RabbitMq.IsOpen A) where
    -- `send` and `ack` one after the other.
    pub send_and_ack :
        (queue : String) (msg : ProcessOrderMessage) (tag : ℕ) (w : Worker D A) (ch : A.Channel)
        → w.rabbitmq ≡ some ch
        → let (r, w') = (do on_channel D A (send A queue msg); on_channel D A (ack A tag)) w in
          (r ≡ ok tt) × (w'.timers ≡ w.timers) × Did ((queue, json msg) ∷ []) (tag ∷ []) w w'
    unfolding send ack get_channel
    send_and_ack queue msg tag w ch e =
        let ((b, ch₁), f) =
          is_open.sends queue (json msg) (record { persistent = true; message_id = msg.message_id })
            ch in
        let (ch₂, g) = is_open.acks tag ch₁ in
        let (p, a, j) =
          amqp.send_lem queue (json msg) (record { persistent = true; message_id = msg.message_id })
            ch ch₁ b f in
        let (a', p', j') = amqp.ack_lem tag ch₁ ch₂ g in
        (
          ground arith,
          ground arith,
          record {
            before = ch;
            after = ch₂;
            was = e;
            is_now = ground arith;
            published = p' ∙ p;
            acked = a' ∙ ap (λ x. x ++ tag ∷ []) a;
            rejected = j' ∙ j;
            tables = ground arith;
          },
        )
