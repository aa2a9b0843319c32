-- ===== src/Schema/Migration/Agreement.antt =====
-- What the migration leaves, and that it can be undone.
use notification_test.Base.{
  String, ◌≡◌, refl, ◌∙◌, Option, none, some, List, [], ◌∷◌, arith, str_eq, if◌then◌else◌,
  Bool-cases, inl, inr, Option-cases,
}
use notification_test.Schema.{
  TableSchema, Column, metadata, column_of, constraints_of, find_column, column, big_integer,
  integer,
}
use notification_test.Schema.Migration.{
  Creation, Removal, create_table, create_index, drop_index, drop_table, upgrade, downgrade, Ddl,
  perform,
}

-- The calls that undo the creations, the last one first.
abbrev undo : Creation → Removal
undo (create_table t) = drop_table t.name
undo (create_index name table columns) = drop_index name table

abbrev undo_all : List Creation → List Removal → List Removal
undo_all [] more = more
undo_all (c ∷ cs) more = undo_all cs (undo c ∷ more)

module _ {S : Type 0} (ddl : Ddl S) where
  undo_lem : (c : Creation) (s s' : S) → ddl.create c s ≡ some s' → ddl.remove (undo c) s' ≡ some s
  undo_lem (create_table t) s s' h = ddl.undo_table t s s' h
  undo_lem (create_index name table columns) s s' h = ddl.undo_index name table columns s s' h

  perform-undo_all :
      (cs : List Creation) (more : List Removal) (s s' : S)
      → perform ddl.create cs s ≡ some s'
      → perform ddl.remove (undo_all cs more) s' ≡ perform ddl.remove more s
  perform-undo_all [] more s s' h = ground (arith, h)
  perform-undo_all (c ∷ cs) more s s' h = elim (Option-cases (ddl.create c s)) [
    | inl failed ↦ ground (arith, h, failed)
    | inr (s₁, created) ↦
        let rest : perform ddl.create cs s₁ ≡ some s' = ground (arith, h, created) in
        perform-undo_all cs (undo c ∷ more) s₁ s' rest ∙ ground (arith, undo_lem c s s₁ created)
  ]

  -- Where `upgrade` succeeds, `downgrade` succeeds after it and gives back the database as it was.
  pub downgrade-upgrade :
      (s s' : S) → perform ddl.create upgrade s ≡ some s' → perform ddl.remove downgrade s' ≡ some s
  unfolding upgrade downgrade
  downgrade-upgrade s s' h = perform-undo_all upgrade [] s s' h

-- The tables that the creations describe, each with the indexes that are created on it later.
abbrev indexes_for : String → List Creation → List (String × List String)
indexes_for table [] = []
indexes_for table (create_table t ∷ cs) = indexes_for table cs
indexes_for table (create_index name on columns ∷ cs) =
    let rest = indexes_for table cs in if str_eq on table then (name, columns) ∷ rest else rest

abbrev described : List Creation → List TableSchema
described [] = []
described (create_table t ∷ cs) = record t { indexes = indexes_for t.name cs } ∷ described cs
described (create_index name on columns ∷ cs) = described cs

unfoldable pub upgraded : List TableSchema
unfolding upgrade
upgraded = described upgrade

-- The column that the migration creates for a model's column.
abbrev pub widened : Column → Column
widened c = if str_eq c.name "subscriber_id" then record c { type = big_integer } else c

abbrev pub each : (Column → Column) → Option Column → Option Column
each f none = none
each f (some c) = some (f c)

abbrev widened_all : List Column → List Column
widened_all [] = []
widened_all (c ∷ cs) = widened c ∷ widened_all cs

abbrev widened_tables : List TableSchema → List TableSchema
widened_tables [] = []
widened_tables (t ∷ ts) = record t { columns = widened_all t.columns } ∷ widened_tables ts

widened-name : (c : Column) → (widened c).name ≡ c.name
widened-name c = ground arith

find_column-widened :
    (name : String) (cs : List Column)
    → find_column name (widened_all cs) ≡ each widened (find_column name cs)
find_column-widened name [] = refl
find_column-widened name (c ∷ cs) = elim (Bool-cases (str_eq name c.name)) [
  | inl same ↦ ground (arith, same, widened-name c)
  | inr apart ↦ ground (arith, apart, widened-name c, find_column-widened name cs)
]

column_of-widened :
    (table name : String) (ts : List TableSchema)
    → column_of table name (widened_tables ts) ≡ each widened (column_of table name ts)
unfolding column_of
column_of-widened table name [] = refl
column_of-widened table name (t ∷ ts) = elim (Bool-cases (str_eq table t.name)) [
  | inl same ↦ ground (arith, same, find_column-widened name t.columns)
  | inr apart ↦ ground (arith, apart, column_of-widened table name ts)
]

constraints_of-widened :
    (table : String) (ts : List TableSchema)
    → constraints_of table (widened_tables ts) ≡ constraints_of table ts
unfolding constraints_of
constraints_of-widened table [] = refl
constraints_of-widened table (t ∷ ts) = elim (Bool-cases (str_eq table t.name)) [
  | inl same ↦ ground (arith, same)
  | inr apart ↦ ground (arith, apart, constraints_of-widened table ts)
]

-- `upgrade` creates, for every name of a table and of a column, the column that the models declare,
-- with its type, its nullability and its keys, save that a subscriber_id is created as a BigInteger,
-- and no column where they declare none, and for each table the same UNIQUE constraints and indexes.
-- The model of the notifications declares subscriber_id as an Integer.
pub upgraded-metadata :
    (table name : String)
    → (column_of table name upgraded ≡ each widened (column_of table name metadata))
      × (constraints_of table upgraded ≡ constraints_of table metadata)
      × (column_of "notifications" "subscriber_id" metadata ≡ some (column "subscriber_id" integer))
unfolding upgraded column_of
upgraded-metadata table name =
    (column_of-widened table name metadata, constraints_of-widened table metadata, refl)
