-- ===== src/Shared/Migrations/Repeatable.antt =====
-- Files that go through on every database (`_run_migrations` of services/*/db.py).
use food_flow.Prelude.{
  sym, ap, ◌≡◌, ◌∙◌, refl, String, Bool, true, false, ◌&&◌, List, [], ◌∷◌, ◌++◌, arith,
}
use food_flow.Shared.Error.{ok}
use food_flow.Shared.Transaction.{transaction, transaction_returns, >>-run}
use food_flow.Shared.Migrations.{
  Object, table, column, index, row, has_table, Statement, if_not_exists, outright, object_of,
  execute, execute_all, run_files,
}
use food_flow.Shared.Migrations.Objects.{
  make, make-Keeps, make-has, make_all, AllTables, AllTables-Keeps, has_name, has_name-AllTables,
}

-- A statement names a table that those before it have made.
abbrev table_named : Object → List String → Bool
table_named (table t) ts = true
table_named (column t c) ts = has_name t ts
table_named (index t n) ts = has_name t ts
table_named (row t k) ts = has_name t ts

table_named-has_table :
    (o : Object) (ts : List String) (s : List Object)
    → AllTables ts s
    → table_named o ts ≡ true
    → has_table o s ≡ true
table_named-has_table (table t) ts s all h = refl
table_named-has_table (column t c) ts s all h = has_name-AllTables t ts s h all
table_named-has_table (index t n) ts s all h = has_name-AllTables t ts s h all
table_named-has_table (row t k) ts s all h = has_name-AllTables t ts s h all

abbrev with_table : Object → List String → List String
with_table (table t) ts = t ∷ ts
with_table _ ts = ts

with_table-AllTables :
    (o : Object) (ts : List String) (s : List Object)
    → AllTables ts s
    → AllTables (with_table o ts) (make o s)
with_table-AllTables (table t) ts s all =
    (make-has (table t) s, AllTables-Keeps ts s (make (table t) s) (make-Keeps (table t) s) all)
with_table-AllTables (column t c) ts s all =
    AllTables-Keeps ts s (make (column t c) s) (make-Keeps (column t c) s) all
with_table-AllTables (index t n) ts s all =
    AllTables-Keeps ts s (make (index t n) s) (make-Keeps (index t n) s) all
with_table-AllTables (row t k) ts s all =
    AllTables-Keeps ts s (make (row t k) s) (make-Keeps (row t k) s) all

-- Statements that go through on every database, after others have made the tables `ts`.
unfoldable pub is_repeatable : List String → List Statement → Bool
is_repeatable ts [] = true
is_repeatable ts (if_not_exists o ∷ statements) =
    table_named o ts && is_repeatable (with_table o ts) statements
is_repeatable ts (outright o ∷ statements) = false

execute-make :
    (o : Object) (s : List Object)
    → has_table o s ≡ true
    → execute (if_not_exists o) s ≡ (ok tt, make o s)
unfolding execute
execute-make o s h = ground arith

-- A file, and what is to come after it.
execute_all-make_all :
    (file rest : List Statement) (ts : List String) (s : List Object)
    → AllTables ts s
    → is_repeatable ts (file ++ rest) ≡ true
    → (execute_all file s ≡ (ok tt, make_all file s))
      × (us : List String) × AllTables us (make_all file s)
      × (is_repeatable us rest ≡ true)
unfolding execute_all is_repeatable
execute_all-make_all [] rest ts s all h = (refl, ts, all, h)
execute_all-make_all (outright o ∷ file) rest ts s all h = cc
execute_all-make_all (if_not_exists o ∷ file) rest ts s all h =
    let named = table_named-has_table o ts s all (ground arith) in
    let (ran, us, made, later) =
      execute_all-make_all file rest (with_table o ts) (make o s) (with_table-AllTables o ts s all)
        (ground arith) in
    (
      >>-run (execute (if_not_exists o)) (execute_all file) s (execute-make o s named) ∙ ran,
      us,
      made,
      later,
    )

abbrev pub all_statements : List (List Statement) → List Statement
all_statements [] = []
all_statements (file ∷ files) = file ++ all_statements files

make_all-++ :
    (a b : List Statement) (s : List Object) → make_all (a ++ b) s ≡ make_all b (make_all a s)
make_all-++ [] b s = refl
make_all-++ (x ∷ a) b s = make_all-++ a b (make (object_of x) s)

pub run_files-make_all :
    (files : List (List Statement)) (ts : List String) (s : List Object)
    → AllTables ts s
    → is_repeatable ts (all_statements files) ≡ true
    → run_files files s ≡ (ok tt, make_all (all_statements files) s)
unfolding run_files
run_files-make_all [] ts s all h = refl
run_files-make_all (file ∷ files) ts s all h =
    let rest = all_statements files in
    let (ran, us, made, later) = execute_all-make_all file rest ts s all h in
    let whole = transaction_returns (execute_all file) s (ap (λ r. r.0) ran) ∙ ran in
    >>-run (transaction (execute_all file)) (run_files files) s whole
    ∙ run_files-make_all files us (make_all file s) made later
    ∙ ap (λ (x : List Object). (ok tt, x)) (sym (make_all-++ file rest s))
