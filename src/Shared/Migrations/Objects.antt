-- ===== src/Shared/Migrations/Objects.antt =====
-- The objects of a database, and those that the statements of a file make (the files of
-- services/*/migrations).
use food_flow.Prelude.{
  ◌≡◌, refl, subst, String, Bool, true, false, ◌||◌, List, [], ◌∷◌, arith, inl, inr, Bool-cases,
  if◌then◌else◌,
}
use food_flow.Shared.Text.{same_text, same_text_refl, same_text_iff}
use food_flow.Shared.Migrations.{
  Object, table, column, index, row, same_object, has_object, Statement, object_of,
}

same_object_refl : (o : Object) → same_object o o ≡ true
same_object_refl (table t) = same_text_refl t
same_object_refl (column t c) = ground (arith, same_text_refl t, same_text_refl c)
same_object_refl (index t n) = same_text_refl n
same_object_refl (row t k) = ground (arith, same_text_refl t, same_text_refl k)

-- A database that has what another has.
abbrev pub Keeps : List Object → List Object → Type 0
Keeps a b = (o : Object) → has_object o a ≡ true → has_object o b ≡ true

-- What a repeatable statement leaves: its object, made if it was not there.
abbrev pub make : Object → List Object → List Object
make o s = if has_object o s then s else o ∷ s

pub make-Keeps : (o : Object) (s : List Object) → Keeps s (make o s)
unfolding has_object
make-Keeps o s p h = ground arith

pub make-has : (o : Object) (s : List Object) → has_object o (make o s) ≡ true
unfolding has_object
make-has o s = ground (arith, same_object_refl o)

abbrev pub make_all : List Statement → List Object → List Object
make_all [] s = s
make_all (a ∷ statements) s = make_all statements (make (object_of a) s)

pub make_all-Keeps :
    (statements : List Statement) (s : List Object) → Keeps s (make_all statements s)
make_all-Keeps [] s p h = h
make_all-Keeps (a ∷ statements) s p h =
    make_all-Keeps statements (make (object_of a) s) p (make-Keeps (object_of a) s p h)

-- The object of every statement is there.
abbrev pub AllThere : List Statement → List Object → Type 0
AllThere [] s = Unit
AllThere (a ∷ statements) s = (has_object (object_of a) s ≡ true) × AllThere statements s

pub make_all-AllThere :
    (statements : List Statement) (s : List Object) → AllThere statements (make_all statements s)
make_all-AllThere [] s = tt
make_all-AllThere (a ∷ statements) s =
    let o = object_of a in
    (make_all-Keeps statements (make o s) o (make-has o s), make_all-AllThere statements (make o s))

pub AllThere-Keeps :
    (statements : List Statement) (a b : List Object)
    → Keeps a b
    → AllThere statements a
    → AllThere statements b
AllThere-Keeps [] a b k h = tt
AllThere-Keeps (x ∷ statements) a b k (h, rest) =
    (k (object_of x) h, AllThere-Keeps statements a b k rest)

pub make_all_there :
    (statements : List Statement) (s : List Object)
    → AllThere statements s
    → make_all statements s ≡ s
make_all_there [] s h = refl
make_all_there (a ∷ statements) s (h, rest) = rw h (make_all_there statements s rest)

-- The tables that statements have made.
abbrev pub AllTables : List String → List Object → Type 0
AllTables [] s = Unit
AllTables (t ∷ ts) s = (has_object (table t) s ≡ true) × AllTables ts s

pub AllTables-Keeps :
    (ts : List String) (a b : List Object) → Keeps a b → AllTables ts a → AllTables ts b
AllTables-Keeps [] a b k h = tt
AllTables-Keeps (t ∷ ts) a b k (h, rest) = (k (table t) h, AllTables-Keeps ts a b k rest)

unfoldable pub has_name : String → List String → Bool
has_name t [] = false
has_name t (u ∷ ts) = same_text u t || has_name t ts

pub has_name-AllTables :
    (t : String) (ts : List String) (s : List Object)
    → has_name t ts ≡ true
    → AllTables ts s
    → has_object (table t) s ≡ true
unfolding has_name
has_name-AllTables t [] s h all = cc
has_name-AllTables t (u ∷ ts) s h (there, all) = elim (Bool-cases (same_text u t)) [
  | inl same ↦
      subst (λ (x : String). has_object (table x) s ≡ true) ((same_text_iff u t).0 same) there
  | inr other ↦ has_name-AllTables t ts s (ground arith) all
]
