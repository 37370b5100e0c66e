-- ===== src/Schema.antt =====
-- The entities (src/*/*.entity.ts, src/common/processed-message.entity.ts) as rows, without the
-- relations, which are other tables; identifiers and moments are only compared, so they are numbers.
use nodejs_pro_task.Base.{ℕ, String, Option}
use nodejs_pro_task.Base.Int.{ℤ}

pub data UserRole : Type 0 where
  user admin : UserRole

pub record User : Type 0 where
  pub id : ℕ
  pub email : String
  pub password : String
  pub role : UserRole
  pub created_at : ℕ
  pub updated_at : ℕ

pub record Product : Type 0 where
  pub id : ℕ
  pub title : String
  pub description : String
  pub stock : ℤ
  pub price : String
  pub created_at : ℕ
  pub updated_at : ℕ

pub data OrderStatus : Type 0 where
  created canceled processed paid : OrderStatus

pub record Order : Type 0 where
  pub id : ℕ
  pub user_id : ℕ
  pub status : OrderStatus
  pub idempotency_key : ℕ
  pub created_at : ℕ
  pub updated_at : ℕ
  pub processed_at : Option ℕ

pub record OrderItem : Type 0 where
  pub order_id : ℕ
  pub product_id : ℕ
  pub qty : ℤ
  pub purchase_price : String
  pub created_at : ℕ
  pub updated_at : ℕ

pub record ProcessedMessage : Type 0 where
  pub id : ℕ
  pub message_id : ℕ
  pub handler : String
  pub processed_at : ℕ

-- The tables, each by its primary key; `processed_messages` by its unique constraint, the pair of
-- the message and the handler.
pub record Tables : Type 0 where
  pub users : ℕ → Option User
  pub products : ℕ → Option Product
  pub orders : ℕ → Option Order
  pub order_items : ℕ → ℕ → Option OrderItem
  pub processed_messages : ℕ → String → Option ProcessedMessage
