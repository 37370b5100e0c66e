-- ===== src/Migrations/AddProcessedMessagesTable.antt =====
-- src/migrations/1773758211678-add-processed-messages-table.ts
use nodejs_pro_task.Base.{none, List, [], ◌∷◌}
use nodejs_pro_task.Migrations.{Statement, create_table, drop_table}
use nodejs_pro_task.Migrations.Catalog.{
  uuid_generate_v4, now, uuid, varchar, timestamptz, primary_key, unique,
}
use nodejs_pro_task.Migrations.Init.{column, column_default}

unfoldable pub up : List Statement
up =
    create_table "processed_messages"
      (column_default "id" uuid uuid_generate_v4
        ∷ column "message_id" uuid
        ∷ column "handler" (varchar none)
        ∷ column_default "processed_at" timestamptz now
        ∷ [])
      (("UQ_processed_messages_message_id_handler", unique ("message_id" ∷ "handler" ∷ []))
        ∷ ("PK_processed_messages_id", primary_key ("id" ∷ []))
        ∷ [])
    ∷ []

unfoldable pub down : List Statement
down = drop_table "processed_messages" ∷ []
