-- ===== src/Messages.antt =====
-- src/orders/process-order-message.dto.ts, and the text that a queue carries it as.
use nodejs_pro_task.Base.{ℕ, String, Option, none}
use nodejs_pro_task.Errors.{plain, Result, ok, err}

pub record Failure : Type 0 where
  pub reason : String
  pub stop_on_attempt : Option ℕ

pub record ProcessOrderMessage : Type 0 where
  pub message_id : ℕ
  pub order_id : ℕ
  pub created_at : ℕ
  pub attempt : ℕ
  pub simulate_failure : Option Failure

-- The constructor of `ProcessOrderMessageDto`, at a moment.
abbrev pub create_message : ℕ → ℕ → ℕ → ℕ → Option Failure → ProcessOrderMessage
create_message moment message_id order_id attempt failure = record {
  message_id = message_id;
  order_id = order_id;
  created_at = moment;
  attempt = attempt;
  simulate_failure = failure;
}

-- `new ProcessOrderMessageDto(messageId, orderId)`, with the defaults of the other parameters.
abbrev pub new_message : ℕ → ℕ → ℕ → ProcessOrderMessage
new_message moment message_id order_id = create_message moment message_id order_id 1 none

-- The content of a message in a queue: what `JSON.stringify` has written, or bytes that `JSON.parse`
-- refuses.
pub data Content : Type 0 where
  json : ProcessOrderMessage → Content
  invalid : Content

abbrev pub stringify : ProcessOrderMessage → Content
stringify m = json m

abbrev pub parse : Content → Result ProcessOrderMessage
parse (json m) = ok m
parse invalid = err (plain "SyntaxError")
