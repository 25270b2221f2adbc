-- ===== src/Shared/Migrations.antt =====
-- `_run_migrations`, which services/auth/db.py, services/order/db.py, services/payment/db.py and
-- services/restaurant/db.py each write out: every start of a service runs all of its SQL files again.
pub mod Objects
pub mod Repeatable
pub mod Restart
use food_flow.Prelude.{String, Bool, true, false, not, ◌&&◌, ◌||◌, List, [], ◌∷◌, if◌then◌else◌}
use food_flow.Shared.Text.{same_text}
use food_flow.Shared.Error.{ok, err, undefined_table, duplicate_object}
use food_flow.Shared.Transaction.{Tx, Done, pure, transaction, ◌>>◌}

-- What a statement of the files makes: a table, a column or an index of a table, a row of a table with a
-- key. Of an index PostgreSQL looks at the name alone. What a table, a column or a row holds is left out.
pub data Object : Type 0 where
  table : String → Object
  column index row : String → String → Object

abbrev pub same_object : Object → Object → Bool
same_object (table t) (table u) = same_text t u
same_object (column t c) (column u d) = same_text t u && same_text c d
same_object (index t n) (index u m) = same_text n m
same_object (row t k) (row u l) = same_text t u && same_text k l
same_object _ _ = false

-- The objects of a database.
unfoldable pub has_object : Object → List Object → Bool
has_object o [] = false
has_object o (p ∷ objects) = same_object p o || has_object o objects

-- The table that a statement names is there.
abbrev pub has_table : Object → List Object → Bool
has_table (table t) objects = true
has_table (column t c) objects = has_object (table t) objects
has_table (index t n) objects = has_object (table t) objects
has_table (row t k) objects = has_object (table t) objects

-- A statement of the files: with IF NOT EXISTS or ON CONFLICT DO NOTHING, or without.
pub data Statement : Type 0 where
  if_not_exists outright : Object → Statement

abbrev pub object_of : Statement → Object
object_of (if_not_exists o) = o
object_of (outright o) = o

-- What becomes of a statement whose object is there already.
abbrev pub repeat : Statement → Tx (List Object) Done
repeat (if_not_exists o) objects = (ok tt, objects)
repeat (outright o) objects = (err duplicate_object, objects)

-- One statement.
unfoldable pub execute : Statement → Tx (List Object) Done
execute a objects =
    let o = object_of a in
    if not (has_table o objects)
    then (err undefined_table, objects)
    else if has_object o objects
    then repeat a objects
    else (ok tt, o ∷ objects)

unfoldable pub execute_all : List Statement → Tx (List Object) Done
execute_all [] = pure tt
execute_all (a ∷ statements) = execute a >> execute_all statements

-- The files in the order of their names; PostgreSQL runs the statements of one `execute` in a transaction.
unfoldable pub run_files : List (List Statement) → Tx (List Object) Done
run_files [] = pure tt
run_files (file ∷ files) = transaction (execute_all file) >> run_files files

-- `exists` is whether the directory is there.
unfoldable pub run_migrations : Bool → List (List Statement) → Tx (List Object) Done
run_migrations exists files = if not exists then pure tt else run_files files
