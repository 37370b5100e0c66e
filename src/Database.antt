-- ===== src/Database.antt =====
-- The database as the code uses it: TypeORM's repositories, query runner and transaction over
-- PostgreSQL, which are not code of the repository. `Database` has the calls that the code makes; what
-- the code relies on is in Contract.
pub mod Queries
pub mod Contract
pub mod Memory
use nodejs_pro_task.Base.{ℕ, String, Bool, Option, List}
use nodejs_pro_task.Errors.{Result}
use nodejs_pro_task.Schema.{Product, Order, OrderStatus, Tables}
use Queries.{LoadedOrder, NewItem, FindOptions}

pub record Database : Type 1 where
  -- The contents of the database, as one connection sees them.
  pub Db : Type 0
  pub view : Db → Tables
  -- CURRENT_TIMESTAMP, the moment at which the transaction began.
  pub now : Db → ℕ
  -- `QueryRunner`: `connect` with `startTransaction`, `commitTransaction`, `rollbackTransaction` and
  -- `release`. `start` takes what is committed to what the transaction sees, `commit` back.
  pub start : Db → Result Db
  pub commit : Db → Result Db
  pub rollback : Db → Result (Unit {0})
  pub release : Db → Result (Unit {0})
  -- `Repository<Order>`: `save` of a user and a key, `findOne`, `findOneOrFail`, `update` of the
  -- status and the moment of processing.
  pub save_order : ℕ → ℕ → Db → Result (Order × Db)
  pub find_one : FindOptions → Db → Result (Option LoadedOrder)
  pub find_one_or_fail : FindOptions → Db → Result LoadedOrder
  pub update_order : ℕ → OrderStatus → ℕ → Db → Result Db
  -- `Repository<Product>`: the locking query by identifiers, `findOneBy`, and `save` of a list.
  pub lock_products : List ℕ → Db → Result (List Product)
  pub find_product : ℕ → Db → Result (Option Product)
  pub save_products : List Product → Db → Result Db
  -- `Repository<OrderItem>`: `save` of a list.
  pub save_items : List NewItem → Db → Result Db
  -- `Repository<ProcessedMessage>`: `insert`.
  pub insert_processed : ℕ → String → Db → Result Db
  -- `DataSource.transaction`.
  pub transaction : (Db → Result Bool × Db) → Db → Result Bool × Db
