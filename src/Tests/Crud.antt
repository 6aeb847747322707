-- ===== src/Tests/Crud.antt =====
-- A run of examples/crud-plugin/src/index.ts on a database that is a list of rows.
use ts_plugins.Common.{
  ℕ, zero, suc, ◌≡◌, refl, ap, sym, ◌∙◌, true, false, not, Option, none, some, List, [], ◌∷◌, ◌++◌,
  All, any, filter, arith, if◌then◌else◌, Text, text_eq, ◌==◌, ==_iff, ==_refl, codes, JsMap,
  Bool-cases, inl, inr,
}
use ts_plugins.Common.Maps
use ts_plugins.Kv.{Json, data_segment, prefix_of, create_memory_kv_backend}
use ts_plugins.Plugins.Crud.{NoteRow, NotesDatabase, KvValue, text_value, count_value, init}
use ts_plugins.Plugins.Crud.Notes.{IsDatabase, Request, create, read, update, remove, list}
use ts_plugins.Plugins.Crud.Refinement.{AreAnswered, notes_in, crud_refines_notes}

-- A title, a body and a version.
abbrev Contents : Type 0
Contents = Text × Text × ℕ

abbrev row_of : Text → Contents → NoteRow
row_of id (title, body, version) = record { id = id; title = title; body = body; version = version }

abbrev select : Text → Option Contents → Option NoteRow
select id none = none
select id (some contents) = some (row_of id contents)

unfoldable rows_of : JsMap Text Contents → List NoteRow
rows_of [] = []
rows_of ((id, contents) ∷ table) =
    row_of id contents ∷ filter (λ r. not (r.id == id)) (rows_of table)

abbrev contents_of : NoteRow → Contents
contents_of row = (row.title, row.body, row.version)

abbrev tables : NotesDatabase (JsMap Text Contents)
tables = record {
  open_database = λ path. [];
  insert_or_replace = λ table row. Maps.set table row.id (contents_of row);
  select_note = λ table id. select id (Maps.get table id);
  update_note =
      λ table row. if Maps.has table row.id then Maps.set table row.id (contents_of row) else table;
  delete_note = Maps.delete;
  select_notes = rows_of;
}

select-set :
    (table : JsMap Text Contents) (row : NoteRow) (j : Text)
    → select j (Maps.get (Maps.set table row.id (contents_of row)) j)
      ≡ (if row.id == j then some row else select j (Maps.get table j))
select-set table row j = elim (Bool-cases (row.id == j)) [
  | inl same ↦
      rw (Maps.get-set table row.id j (contents_of row), same)
        (ap (λ id. some (row_of id (contents_of row))) (sym ((==_iff row.id j).0 same)))
  | inr other ↦ rw (Maps.get-set table row.id j (contents_of row), other) refl
]

select-has :
    (table : JsMap Text Contents) (id : Text) (row : NoteRow)
    → select id (Maps.get table id) ≡ some row
    → Maps.has table id ≡ true
unfolding Maps.get Maps.has
select-has [] id row e = ground arith
select-has ((j, c) ∷ table) id row e = elim (Bool-cases (j == id)) [
  | inl same ↦ rw same refl
  | inr other ↦ rw other (
      select-has table id row
        (sym (ap (λ b. select id (if b then some c else Maps.get table id)) other) ∙ e))
]

select-delete :
    (table : JsMap Text Contents) (id j : Text)
    → select j (Maps.get (Maps.delete table id) j)
      ≡ (if id == j then none else select j (Maps.get table j))
select-delete table id j = elim (Bool-cases (id == j)) [
  | inl same ↦ rw (Maps.get-delete table id j, same) refl
  | inr other ↦ rw (Maps.get-delete table id j, other) refl
]

select_id :
    (j : Text) (found : Option Contents) (row : NoteRow) → select j found ≡ some row → row.id ≡ j
select_id j none row e = ground arith
select_id j (some (title, body, version)) row e = ground arith

==_sym_false : (x y : Text) → (y == x) ≡ false → (x == y) ≡ false
==_sym_false x y h = ground (arith, ==_iff x y, ==_iff y x)

kept_sound :
    (id : Text) (contents : Contents) (table : JsMap Text Contents) (rows : List NoteRow)
    → All (λ row. select row.id (Maps.get table row.id) ≡ some row) rows
    → All
        (λ row. select row.id (Maps.get ((id, contents) ∷ table) row.id) ≡ some row)
        (filter (λ r. not (r.id == id)) rows)
unfolding Maps.get
kept_sound id contents table [] h = tt
kept_sound id contents table (row ∷ rows) h = elim (Bool-cases (row.id == id)) [
  | inl same ↦ rw same (kept_sound id contents table rows h.1)
  | inr other ↦
      rw other (rw (==_sym_false id row.id other) h.0, kept_sound id contents table rows h.1)
]

rows_sound :
    (table : JsMap Text Contents)
    → All (λ row. select row.id (Maps.get table row.id) ≡ some row) (rows_of table)
unfolding rows_of Maps.get
rows_sound [] = tt
rows_sound ((id, contents) ∷ table) = (
  ap (λ b. select id (if b then some contents else Maps.get table id)) (==_refl id),
  kept_sound id contents table (rows_of table) (rows_sound table),
)

any-filter_ne :
    (id j : Text) (rows : List NoteRow)
    → (id == j) ≡ false
    → any (λ r. r.id == j) rows ≡ true
    → any (λ r. r.id == j) (filter (λ r. not (r.id == id)) rows) ≡ true
any-filter_ne id j [] other h = h
any-filter_ne id j (row ∷ rows) other h =
    ground (arith, ==_iff row.id j, ==_iff row.id id, ==_iff id j, any-filter_ne id j rows)

rows_complete :
    (table : JsMap Text Contents) (j : Text) (row : NoteRow)
    → select j (Maps.get table j) ≡ some row
    → any (λ r. r.id == j) (rows_of table) ≡ true
unfolding rows_of Maps.get
rows_complete [] j row e = ground arith
rows_complete ((id, contents) ∷ table) j row e = elim (Bool-cases (id == j)) [
  | inl same ↦ rw same refl
  | inr other ↦ rw other (
      any-filter_ne id j (rows_of table) other (
        rows_complete table j row
          (sym (ap (λ b. select j (if b then some contents else Maps.get table j)) other) ∙ e)))
]

tables-IsDatabase : IsDatabase tables
tables-IsDatabase = record {
  select-insert = select-set;
  select-update =
      λ table old row j stands. rw (select-has table row.id old stands) (select-set table row j);
  select-delete = select-delete;
  select_id = λ table j row e. select_id j (Maps.get table j) row e;
  select_rows = rows_sound;
  rows_select = rows_complete;
}

abbrev serialized : KvValue → Text
serialized (text_value t) = 0 ∷ t
serialized (count_value n) = 1 ∷ n ∷ []

abbrev deserialized : Text → Option KvValue
deserialized (zero ∷ t) = some (text_value t)
deserialized (suc k ∷ n ∷ []) = some (count_value n)
deserialized t = none

deserialized-serialized : (v : KvValue) → deserialized (serialized v) ≡ some v
deserialized-serialized (text_value t) = refl
deserialized-serialized (count_value n) = refl

abbrev values : Json KvValue
values = record {
  stringify = serialized;
  parse = deserialized;
  parse-stringify = deserialized-serialized;
}

no_count :
    Maps.get create_memory_kv_backend.values
      (prefix_of (codes "crud") data_segment ++ codes "mutation_count")
    ≡ none
unfolding Maps.get
no_count = refl

abbrev db_path : JsMap Text Text
db_path = (codes "dbPath", codes "notes.db") ∷ []

db_path_IsThere : Maps.get db_path (codes "dbPath") ≡ some (codes "notes.db")
unfolding Maps.get
db_path_IsThere = refl

abbrev requests : List (Request × ℕ)
requests =
    (create (codes "n") (codes "title") (codes "body"), 1)
    ∷ (read (codes "n"), 2)
    ∷ (update (codes "n") (codes "other") (codes "body"), 3)
    ∷ (list, 4)
    ∷ (remove (codes "n"), 5)
    ∷ (read (codes "n"), 6)
    ∷ []

crud_refines_notes_example :
    AreAnswered tables values
      (codes "crud")
      requests
      (notes_in tables [])
      (init tables
        (record { database = none; cache = []; cache_hits = 0; kv = create_memory_kv_backend })
        (codes "crud")
        (codes "1.0.0")
        (codes "test")
        db_path).1
crud_refines_notes_example =
    crud_refines_notes tables tables-IsDatabase values (codes "crud") create_memory_kv_backend none
      0 (codes "crud") (codes "1.0.0") (codes "test") db_path b'n' (codes "otes.db") requests
      no_count db_path_IsThere
