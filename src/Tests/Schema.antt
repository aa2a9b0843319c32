-- ===== src/Tests/Schema.antt =====
-- The theorems on the migration, on a database as the list of what was created in it.
use notification_test.Base.{
  ◌≡◌, refl, Option, none, some, List, [], ◌∷◌, arith, str_eq, eq_iff, if◌then◌else◌,
}
use notification_test.Schema.{metadata, column_of, constraints_of, column, integer}
use notification_test.Schema.Migration.{
  Creation, Removal, create_table, create_index, drop_index, drop_table, upgrade, downgrade, Ddl,
  perform,
}
use notification_test.Schema.Migration.Agreement.{
  upgraded, widened, each, downgrade-upgrade, upgraded-metadata,
}

-- The latest creation can be dropped.
abbrev remove_last : Removal → List Creation → Option (List Creation)
remove_last (drop_table name) (create_table t ∷ s) = if str_eq name t.name then some s else none
remove_last (drop_index name table) (create_index other on columns ∷ s) =
    if str_eq name other then some s else none
remove_last _ _ = none

abbrev log : Ddl (List Creation)
log = record {
  create = λ c s. some (c ∷ s);
  remove = remove_last;
  undo_table = λ t s s' h. ground (arith, h, eq_iff t.name t.name);
  undo_index = λ name table columns s s' h. ground (arith, h, eq_iff name name);
}

abbrev done : List Creation → List Creation → List Creation
done [] s = s
done (c ∷ cs) s = done cs (c ∷ s)

downgrade-upgrade_example : perform log.remove downgrade (done upgrade []) ≡ some []
unfolding upgrade
downgrade-upgrade_example = downgrade-upgrade log [] (done upgrade []) refl

upgraded-metadata_example :
    (column_of "notifications" "subscriber_id" upgraded
      ≡ each widened (column_of "notifications" "subscriber_id" metadata))
    × (constraints_of "notifications" upgraded ≡ constraints_of "notifications" metadata)
    × (column_of "notifications" "subscriber_id" metadata ≡ some (column "subscriber_id" integer))
upgraded-metadata_example = upgraded-metadata "notifications" "subscriber_id"
