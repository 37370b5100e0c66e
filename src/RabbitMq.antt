-- ===== src/RabbitMq.antt =====
-- src/rabbit-mq/rabbit-mq.service.ts: publishing on the service's channel, and the callback that the
-- consumer of a queue runs for each delivery. amqplib is not code of the repository: `Amqp` has the
-- calls of a channel, and `Laws` what the code relies on.
pub mod Deliveries
pub mod Wire
pub mod Connection
use nodejs_pro_task.Base.{
  ℕ, String, ◌≡◌, Bool, true, false, Option, none, some, List, [], ◌∷◌, ◌++◌,
}
use nodejs_pro_task.Errors.{plain, Result, ok, err}
use nodejs_pro_task.Exec.{Exec, pure, raise, ◌>>=◌, ◌>>◌}
use nodejs_pro_task.Messages.{ProcessOrderMessage, Content, stringify, parse}

-- The options that `sendToQueue` is given.
pub record SendOptions : Type 0 where
  pub persistent : Bool
  pub message_id : ℕ

pub record Amqp : Type 1 where
  -- The state of a channel: what went through it.
  pub Channel : Type 0
  pub published : Channel → List (String × Content)
  pub acked : Channel → List ℕ
  -- A delivery's tag, and whether it is put back into its queue.
  pub rejected : Channel → List (ℕ × Bool)
  pub send_to_queue : String → Content → SendOptions → Channel → Result (Bool × Channel)
  pub ack : ℕ → Channel → Result Channel
  pub reject : ℕ → Bool → Channel → Result Channel

module _ (A : Amqp) where
  open A use {Channel, published, acked, rejected}

  -- What a call that succeeds has done.
  pub record Laws : Type 0 where
    pub send_lem :
        (queue : String) (content : Content) (options : SendOptions) (c c' : Channel) (b : Bool)
        → A.send_to_queue queue content options c ≡ ok (b, c')
        → (published c' ≡ published c ++ (queue, content) ∷ [])
          × (acked c' ≡ acked c)
          × (rejected c' ≡ rejected c)
    pub ack_lem :
        (tag : ℕ) (c c' : Channel)
        → A.ack tag c ≡ ok c'
        → (acked c' ≡ acked c ++ tag ∷ [])
          × (published c' ≡ published c)
          × (rejected c' ≡ rejected c)
    pub reject_lem :
        (tag : ℕ) (requeue : Bool) (c c' : Channel)
        → A.reject tag requeue c ≡ ok c'
        → (rejected c' ≡ rejected c ++ (tag, requeue) ∷ [])
          × (published c' ≡ published c)
          × (acked c' ≡ acked c)

  -- A channel that is open: no call throws.
  pub record IsOpen : Type 0 where
    pub sends :
        (queue : String) (content : Content) (options : SendOptions) (c : Channel)
        → (r : Bool × Channel) × (A.send_to_queue queue content options c ≡ ok r)
    pub acks : (tag : ℕ) (c : Channel) → (c' : Channel) × (A.ack tag c ≡ ok c')
    pub rejects :
        (tag : ℕ) (requeue : Bool) (c : Channel) → (c' : Channel) × (A.reject tag requeue c ≡ ok c')

  -- The service's field `channel`, with the state of the channel that it refers to.
  abbrev pub Service : Type 0
  Service = Option Channel

  unfoldable pub get_channel : Exec Service Channel
  get_channel none = (err (plain "Channel is not created!"), none)
  get_channel (some c) = (ok c, some c)

  unfoldable pub send : String → ProcessOrderMessage → Exec Service Bool
  unfolding get_channel
  send queue message = do
    c ← get_channel
    let options : SendOptions = record { persistent = true; message_id = message.message_id }
    λ s. elim (A.send_to_queue queue (stringify message) options c) [
      | ok (written, c') ↦ (ok written, some c')
      | err e ↦ (err e, s)
    ]

  -- `channel.ack(msg, false)`, the callback that a handler is given. A channel is closed before the
  -- field is cleared, and a call of a closed channel throws.
  unfoldable pub ack : ℕ → Exec Service (Unit {0})
  ack tag none = (err (plain "Channel closed"), none)
  ack tag (some c) = elim (A.ack tag c) [ ok c' ↦ (ok tt, some c') | err e ↦ (err e, some c) ]

  unfoldable pub reject : ℕ → Bool → Exec Service (Unit {0})
  reject tag requeue none = (err (plain "Channel closed"), none)
  reject tag requeue (some c) = elim (A.reject tag requeue c) [
    | ok c' ↦ (ok tt, some c')
    | err e ↦ (err e, some c)
  ]
