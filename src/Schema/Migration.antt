-- ===== src/Schema/Migration.antt =====
-- migrations/versions/0001_initial.py: the tables and the indexes that `upgrade` creates and `downgrade`
-- drops. Names of constraints are left out.
pub mod Agreement
use notification_test.Base.{String, Bool, true, false, Option, none, some, List, [], ◌∷◌, ◌≡◌}
use notification_test.Schema.{
  Column, TableSchema, uuid, text, date_time, integer, big_integer, json, string, column, optional,
  primary, references,
}

abbrev pub created_batches : TableSchema
created_batches = record {
  name = "notification_batches";
  columns =
      primary (column "id" uuid)
      ∷ column "channel" (string 16)
      ∷ column "type" (string 32)
      ∷ column "message" text
      ∷ optional (column "idempotency_key" (string 255))
      ∷ optional (column "request_hash" (string 64))
      ∷ column "created_at" date_time
      ∷ column "updated_at" date_time
      ∷ [];
  uniques = ("idempotency_key" ∷ []) ∷ [];
  indexes = [];
}

abbrev pub created_notifications : TableSchema
created_notifications = record {
  name = "notifications";
  columns =
      primary (column "id" uuid)
      ∷ references "notification_batches.id" (column "batch_id" uuid)
      ∷ column "subscriber_id" big_integer
      ∷ column "channel" (string 16)
      ∷ column "type" (string 32)
      ∷ column "message" text
      ∷ column "status" (string 32)
      ∷ column "attempts" integer
      ∷ optional (column "provider_message_id" (string 255))
      ∷ optional (column "last_error" text)
      ∷ optional (column "processing_lock_until" date_time)
      ∷ column "created_at" date_time
      ∷ column "updated_at" date_time
      ∷ [];
  uniques = ("batch_id" ∷ "subscriber_id" ∷ []) ∷ [];
  indexes = [];
}

abbrev pub created_history : TableSchema
created_history = record {
  name = "notification_status_history";
  columns =
      primary (column "id" uuid)
      ∷ references "notifications.id" (column "notification_id" uuid)
      ∷ column "status" (string 32)
      ∷ optional (column "error_message" text)
      ∷ column "created_at" date_time
      ∷ [];
  uniques = [];
  indexes = [];
}

abbrev pub created_keys : TableSchema
created_keys = record {
  name = "idempotency_keys";
  columns =
      primary (column "key" (string 255))
      ∷ column "request_hash" (string 64)
      ∷ optional (references "notification_batches.id" (column "batch_id" uuid))
      ∷ optional (column "response_payload" json)
      ∷ column "created_at" date_time
      ∷ column "expires_at" date_time
      ∷ [];
  uniques = [];
  indexes = [];
}

abbrev pub created_events : TableSchema
created_events = record {
  name = "outbox_events";
  columns =
      primary (column "id" uuid)
      ∷ column "aggregate_type" (string 100)
      ∷ column "aggregate_id" uuid
      ∷ column "event_type" (string 100)
      ∷ column "payload" json
      ∷ column "status" (string 30)
      ∷ column "attempts" integer
      ∷ optional (column "last_error" text)
      ∷ column "created_at" date_time
      ∷ optional (column "available_at" date_time)
      ∷ optional (column "locked_at" date_time)
      ∷ optional (column "published_at" date_time)
      ∷ [];
  uniques = [];
  indexes = [];
}

-- The calls of `op` in `upgrade` and in `downgrade`.
pub data Creation : Type 0 where
  create_table : TableSchema → Creation
  create_index : (name table : String) (columns : List String) → Creation

pub data Removal : Type 0 where
  drop_index : (name table : String) → Removal
  drop_table : (name : String) → Removal

unfoldable pub upgrade : List Creation
upgrade =
    create_table created_batches
    ∷ create_table created_notifications
    ∷ create_table created_history
    ∷ create_table created_keys
    ∷ create_table created_events
    ∷ create_index "idx_notifications_subscriber_id" "notifications" ("subscriber_id" ∷ [])
    ∷ create_index "idx_notifications_status" "notifications" ("status" ∷ [])
    ∷ create_index "idx_notifications_batch_id" "notifications" ("batch_id" ∷ [])
    ∷ create_index "idx_status_history_notification_id_created_at" "notification_status_history"
        ("notification_id" ∷ "created_at" ∷ [])
    ∷ create_index "idx_idempotency_expires_at" "idempotency_keys" ("expires_at" ∷ [])
    ∷ create_index "idx_outbox_status_available_at_created_at" "outbox_events"
        ("status" ∷ "available_at" ∷ "created_at" ∷ [])
    ∷ create_index "idx_outbox_aggregate_id" "outbox_events" ("aggregate_id" ∷ [])
    ∷ []

unfoldable pub downgrade : List Removal
downgrade =
    drop_index "idx_outbox_aggregate_id" "outbox_events"
    ∷ drop_index "idx_outbox_status_available_at_created_at" "outbox_events"
    ∷ drop_index "idx_idempotency_expires_at" "idempotency_keys"
    ∷ drop_index "idx_status_history_notification_id_created_at" "notification_status_history"
    ∷ drop_index "idx_notifications_batch_id" "notifications"
    ∷ drop_index "idx_notifications_status" "notifications"
    ∷ drop_index "idx_notifications_subscriber_id" "notifications"
    ∷ drop_table "outbox_events"
    ∷ drop_table "idempotency_keys"
    ∷ drop_table "notification_status_history"
    ∷ drop_table "notifications"
    ∷ drop_table "notification_batches"
    ∷ []

-- The database as Alembic's operations change it. They fail by raising. A table or an index that was
-- just created can be dropped, which undoes its creation.
pub record Ddl (S : Type 0) : Type 0 where
  pub create : Creation → S → Option S
  pub remove : Removal → S → Option S
  pub undo_table :
      (t : TableSchema) (s s' : S)
      → create (create_table t) s ≡ some s'
      → remove (drop_table t.name) s' ≡ some s
  pub undo_index :
      (name table : String) (columns : List String) (s s' : S)
      → create (create_index name table columns) s ≡ some s'
      → remove (drop_index name table) s' ≡ some s

-- The operations in order, until one fails.
abbrev pub perform : {A S : Type 0} → (A → S → Option S) → List A → S → Option S
perform op [] s = some s
perform op (a ∷ rest) s = elim (op a s) [ none ↦ none | some s' ↦ perform op rest s' ]
