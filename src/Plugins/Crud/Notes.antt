-- ===== src/Plugins/Crud/Notes.antt =====
-- What the notes of examples/crud-plugin/src/index.ts are to a client: a map from identifiers to
-- notes, whatever of it stands in the cache.
use ts_plugins.Common.{
  ℕ, suc, ◌≡◌, true, Option, none, some, List, All, any, if◌then◌else◌, Text, text_eq, ◌==◌,
}
use ts_plugins.Plugins.Crud.{
  NoteRow, NotesDatabase, note, deleted, notes, Handled, outcome, missing_note, first_version,
  next_version,
}

-- What SQLite answers: a table is a map from the primary key to the row.
pub record IsDatabase {ℓ} {S : Type ℓ} (db : NotesDatabase S) : Type ℓ where
  pub select-insert :
      (s : S) (row : NoteRow) (j : Text)
      → db.select_note (db.insert_or_replace s row) j
        ≡ (if row.id == j then some row else db.select_note s j)
  pub select-update :
      (s : S) (old row : NoteRow) (j : Text)
      → db.select_note s row.id ≡ some old
      → db.select_note (db.update_note s row) j
        ≡ (if row.id == j then some row else db.select_note s j)
  pub select-delete :
      (s : S) (id j : Text)
      → db.select_note (db.delete_note s id) j ≡ (if id == j then none else db.select_note s j)
  pub select_id : (s : S) (j : Text) (row : NoteRow) → db.select_note s j ≡ some row → row.id ≡ j
  pub select_rows : (s : S) → All (λ row. db.select_note s row.id ≡ some row) (db.select_notes s)
  pub rows_select :
      (s : S) (j : Text) (row : NoteRow)
      → db.select_note s j ≡ some row
      → any (λ r. r.id == j) (db.select_notes s) ≡ true

-- The specification: the notes, and how often they have been changed.
pub record Notes : Type 0 where
  pub lookup : Text → Option NoteRow
  pub changes : ℕ

pub data Request : Type 0 where
  create : Text → Text → Text → Request
  read : Text → Request
  update : Text → Text → Text → Request
  remove : Text → Request
  list : Request

abbrev pub put : (Text → Option NoteRow) → NoteRow → Text → Option NoteRow
put f row j = if row.id == j then some row else f j

abbrev pub erase : (Text → Option NoteRow) → Text → Text → Option NoteRow
erase f id j = if id == j then none else f j

abbrev pub updated : Notes → Text → Text → Option NoteRow → Notes
updated sp title body none = sp
updated sp title body (some row) = record {
  lookup = put sp.lookup (next_version row title body);
  changes = suc sp.changes;
}

-- What a request makes of the notes.
abbrev pub next_notes : Request → Notes → Notes
next_notes (create id title body) sp = record {
  lookup = put sp.lookup (first_version id title body);
  changes = suc sp.changes;
}
next_notes (read id) sp = sp
next_notes (update id title body) sp = updated sp title body (sp.lookup id)
next_notes (remove id) sp = record { lookup = erase sp.lookup id; changes = suc sp.changes }
next_notes list sp = sp

abbrev pub found : Text → Option NoteRow → Handled
found id none = outcome (missing_note id)
found id (some row) = outcome (note row)

abbrev pub found_next : Text → Text → Text → Option NoteRow → Handled
found_next id title body none = outcome (missing_note id)
found_next id title body (some row) = outcome (note (next_version row title body))

-- The rows are the notes, each of them and no other.
pub record IsListing (f : Text → Option NoteRow) (rows : List NoteRow) : Type 0 where
  pub sound : All (λ row. f row.id ≡ some row) rows
  pub complete : (j : Text) (row : NoteRow) → f j ≡ some row → any (λ r. r.id == j) rows ≡ true

-- What a request is answered.
abbrev pub Answers : Request → Notes → Handled → Type 0
Answers (create id title body) sp h = h ≡ outcome (note (first_version id title body))
Answers (read id) sp h = h ≡ found id (sp.lookup id)
Answers (update id title body) sp h = h ≡ found_next id title body (sp.lookup id)
Answers (remove id) sp h = h ≡ outcome (deleted id)
Answers list sp h =
    (rows : List NoteRow) × (hits : ℕ) × (h ≡ outcome (notes rows hits)) × IsListing sp.lookup rows
