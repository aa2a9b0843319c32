-- ===== src/Schema.antt =====
-- app/db/models.py: the tables as the models declare them. A column without a given type has that of
-- its annotation, as SQLAlchemy documents: `int` is Integer and `uuid.UUID` is Uuid.
pub mod Migration
use notification_test.Base.{
  ℕ, String, Bool, true, false, Option, none, some, List, [], ◌∷◌, str_eq, if◌then◌else◌,
}

pub data ColumnType : Type 0 where
  uuid text date_time integer big_integer json : ColumnType
  string : ℕ → ColumnType

pub record Column : Type 0 where
  pub name : String
  pub type : ColumnType
  pub nullable : Bool
  pub primary_key : Bool
  pub foreign_key : Option String

-- The UNIQUE constraints with their columns, and the indexes with their names and columns.
pub record TableSchema : Type 0 where
  pub name : String
  pub columns : List Column
  pub uniques : List (List String)
  pub indexes : List (String × List String)

abbrev pub column : String → ColumnType → Column
column name type = record {
  name = name;
  type = type;
  nullable = false;
  primary_key = false;
  foreign_key = none;
}

abbrev pub optional : Column → Column
optional c = record c { nullable = true }

abbrev pub primary : Column → Column
primary c = record c { primary_key = true }

abbrev pub references : String → Column → Column
references target c = record c { foreign_key = some target }

abbrev pub find_column : String → List Column → Option Column
find_column name [] = none
find_column name (c ∷ cs) =
    let rest = find_column name cs in if str_eq name c.name then some c else rest

abbrev pub find_table : String → List TableSchema → Option TableSchema
find_table name [] = none
find_table name (t ∷ ts) =
    let rest = find_table name ts in if str_eq name t.name then some t else rest

abbrev pub notification_batches : TableSchema
notification_batches = record {
  name = "notification_batches";
  columns =
      primary (column "id" uuid)
      ∷ column "channel" (string 16)
      ∷ column "type" (string 32)
      ∷ column "message" text
      ∷ optional (column "idempotency_key" (string 255))
      ∷ optional (column "request_hash" (string 64))
      ∷ column "created_at" date_time
      ∷ column "updated_at" date_time
      ∷ [];
  uniques = ("idempotency_key" ∷ []) ∷ [];
  indexes = [];
}

abbrev pub notifications : TableSchema
notifications = record {
  name = "notifications";
  columns =
      primary (column "id" uuid)
      ∷ references "notification_batches.id" (column "batch_id" uuid)
      ∷ column "subscriber_id" integer
      ∷ column "channel" (string 16)
      ∷ column "type" (string 32)
      ∷ column "message" text
      ∷ column "status" (string 32)
      ∷ column "attempts" integer
      ∷ optional (column "provider_message_id" (string 255))
      ∷ optional (column "last_error" text)
      ∷ optional (column "processing_lock_until" date_time)
      ∷ column "created_at" date_time
      ∷ column "updated_at" date_time
      ∷ [];
  uniques = ("batch_id" ∷ "subscriber_id" ∷ []) ∷ [];
  indexes =
      ("idx_notifications_subscriber_id", "subscriber_id" ∷ [])
      ∷ ("idx_notifications_status", "status" ∷ [])
      ∷ ("idx_notifications_batch_id", "batch_id" ∷ [])
      ∷ [];
}

abbrev pub notification_status_history : TableSchema
notification_status_history = record {
  name = "notification_status_history";
  columns =
      primary (column "id" uuid)
      ∷ references "notifications.id" (column "notification_id" uuid)
      ∷ column "status" (string 32)
      ∷ optional (column "error_message" text)
      ∷ column "created_at" date_time
      ∷ [];
  uniques = [];
  indexes =
      ("idx_status_history_notification_id_created_at", "notification_id" ∷ "created_at" ∷ []) ∷ [];
}

abbrev pub idempotency_keys : TableSchema
idempotency_keys = record {
  name = "idempotency_keys";
  columns =
      primary (column "key" (string 255))
      ∷ column "request_hash" (string 64)
      ∷ optional (references "notification_batches.id" (column "batch_id" uuid))
      ∷ optional (column "response_payload" json)
      ∷ column "created_at" date_time
      ∷ column "expires_at" date_time
      ∷ [];
  uniques = [];
  indexes = ("idx_idempotency_expires_at", "expires_at" ∷ []) ∷ [];
}

abbrev pub outbox_events : TableSchema
outbox_events = record {
  name = "outbox_events";
  columns =
      primary (column "id" uuid)
      ∷ column "aggregate_type" (string 100)
      ∷ column "aggregate_id" uuid
      ∷ column "event_type" (string 100)
      ∷ column "payload" json
      ∷ column "status" (string 30)
      ∷ column "attempts" integer
      ∷ optional (column "last_error" text)
      ∷ column "created_at" date_time
      ∷ optional (column "available_at" date_time)
      ∷ optional (column "locked_at" date_time)
      ∷ optional (column "published_at" date_time)
      ∷ [];
  uniques = [];
  indexes =
      ("idx_outbox_status_available_at_created_at", "status" ∷ "available_at" ∷ "created_at" ∷ [])
      ∷ ("idx_outbox_aggregate_id", "aggregate_id" ∷ [])
      ∷ [];
}

-- `Base.metadata`
abbrev pub metadata : List TableSchema
metadata =
    notification_batches ∷ notifications ∷ notification_status_history ∷ idempotency_keys
    ∷ outbox_events ∷ []

-- A column, and what a table has besides its columns.
unfoldable pub column_of : String → String → List TableSchema → Option Column
column_of table name schema = elim (find_table table schema) [
  | none ↦ none
  | some t ↦ find_column name t.columns
]

unfoldable pub constraints_of :
    String → List TableSchema → Option (List (List String) × List (String × List String))
constraints_of table schema = elim (find_table table schema) [
  | none ↦ none
  | some t ↦ some (t.uniques, t.indexes)
]
