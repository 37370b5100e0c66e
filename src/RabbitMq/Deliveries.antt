-- ===== src/RabbitMq/Deliveries.antt =====
-- The callback that `consume` of src/rabbit-mq/rabbit-mq.service.ts registers: it runs the handler on
-- a delivery, and puts the delivery back into its queue if anything throws.
use nodejs_pro_task.Base.{ℕ, Bool, true, Option, none, some}
use nodejs_pro_task.Errors.{ok, err}
use nodejs_pro_task.Exec.{Exec}
use nodejs_pro_task.Messages.{ProcessOrderMessage, Content, parse}

-- amqplib's `ConsumeMessage`, as far as the callback reads it.
pub record Delivery : Type 0 where
  pub tag : ℕ
  pub content : Content

-- A handler is given the message and the callback that acknowledges it, which the tag stands for.
abbrev pub Handler : Type 0 → Type 0
Handler S = ProcessOrderMessage → ℕ → Exec S (Unit {0})

module _ {S : Type 0} (reject : ℕ → Bool → Exec S (Unit {0})) where
  -- The inner `catch`: a `reject` that throws is logged.
  unfoldable pub give_back : ℕ → S → S
  give_back tag s = (reject tag true s).1

  unfoldable pub on_message : Handler S → Option Delivery → S → S
  on_message handler none s = s
  on_message handler (some d) s = elim (parse d.content) [
    | err e ↦ give_back d.tag s
    | ok message ↦
        let (r, s') = handler message d.tag s in elim r [ ok _ ↦ s' | err e ↦ give_back d.tag s' ]
  ]
