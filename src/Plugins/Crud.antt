-- ===== src/Plugins/Crud.antt =====
-- examples/crud-plugin/src/index.ts: notes in SQLite, with a cache in front and counters in the
-- plugin's key-value store, which is the memory store. SQLite is an interface: its statements, and
-- what they answer as laws.
pub mod Counter
pub mod Notes
mod Coherence
mod Handlers
pub mod Refinement
use ts_plugins.Common.{
  ℕ, ◌+◌, Bool, true, false, Option, none, some, List, [], ◌∷◌, ◌++◌, ◌≡◌, All, any, if◌then◌else◌,
  Text, text_eq, ◌==◌, codes, JsMap,
}
use ts_plugins.Common.Maps
use ts_plugins.Kv.{Json, Result, ok, throw, KvError, MemoryKvBackend}
use ts_plugins.Kv

pub record NoteRow : Type 0 where
  pub id : Text
  pub title : Text
  pub body : Text
  pub version : ℕ

-- The statements of the plugin on an open database of state `S`; `open_database` includes its
-- `CREATE TABLE IF NOT EXISTS`.
pub record NotesDatabase {ℓ} (S : Type ℓ) : Type ℓ where
  pub open_database : Text → S
  pub insert_or_replace : S → NoteRow → S
  pub select_note : S → Text → Option NoteRow
  pub update_note : S → NoteRow → S
  pub delete_note : S → Text → S
  pub select_notes : S → List NoteRow

-- What the plugin keeps in the store: identifiers, and the count of its changes.
pub data KvValue : Type 0 where
  text_value : Text → KvValue
  count_value : ℕ → KvValue

pub record CrudState {ℓ} (S : Type ℓ) : Type ℓ where
  pub database : Option S
  pub cache : JsMap Text NoteRow
  pub cache_hits : ℕ
  pub kv : MemoryKvBackend

pub data Outcome : Type 0 where
  initialized : Text → Text → Outcome
  note : NoteRow → Outcome
  deleted : Text → Outcome
  notes : List NoteRow → ℕ → Outcome
  plugin_error : Text → Text → JsMap Text Text → Outcome

-- What a handler returns, or that it throws.
pub data Handled : Type 0 where
  outcome : Outcome → Handled
  not_initialized : Handled
  kv_threw : KvError → Handled

unfoldable pub missing_note : Text → Outcome
missing_note id =
    plugin_error (codes "not_found") (codes "Note " ++ (id ++ codes " was not found"))
      ((codes "id", id) ∷ [])

-- `(current ?? 0) + 1`, which appends to a text.
abbrev pub plus_one : Option KvValue → KvValue
plus_one none = count_value 1
plus_one (some (count_value n)) = count_value (n + 1)
plus_one (some (text_value t)) = text_value (t ++ codes "1")

module _ (json : Json KvValue) (namespace : Text) where
  abbrev bump_read : ℕ → Result (Option KvValue) × MemoryKvBackend → Result Bool × MemoryKvBackend
  bump_read now (throw e, kv) = (throw e, kv)
  bump_read now (ok current, kv) =
      Kv.set json namespace kv (codes "mutation_count") (some (plus_one current)) none now

  unfoldable pub bump_mutation_count : MemoryKvBackend → ℕ → Result Bool × MemoryKvBackend
  bump_mutation_count kv now = bump_read now (Kv.get json namespace kv (codes "mutation_count") now)

  abbrev then_bump : ℕ → Result Bool × MemoryKvBackend → Result Bool × MemoryKvBackend
  then_bump now (throw e, kv) = (throw e, kv)
  then_bump now (ok _, kv) = bump_mutation_count kv now

  -- The two calls of the store that end a change.
  unfoldable pub note_change : MemoryKvBackend → Text → Text → ℕ → Result Bool × MemoryKvBackend
  unfolding bump_mutation_count
  note_change kv key id now =
      then_bump now (Kv.set json namespace kv key (some (text_value id)) none now)

abbrev pub handled_change : Outcome → Result Bool → Handled
handled_change out (ok _) = outcome out
handled_change out (throw e) = kv_threw e

abbrev pub first_version : Text → Text → Text → NoteRow
first_version id title body = record { id = id; title = title; body = body; version = 1 }

-- `loadNote`, without the count of a hit, and the end of `getNote`: the row that the database has,
-- put into the cache; the outer option is whether there is a database.
abbrev pub load_row {ℓ} :
    {S : Type ℓ} → CrudState S → Text → Option NoteRow → Option NoteRow × CrudState S
load_row state id none = (none, state)
load_row state id (some row) = (some row, record state { cache = Maps.set state.cache row.id row })

abbrev pub answer_note : Text → Option (Option NoteRow) → Handled
answer_note id none = not_initialized
answer_note id (some none) = outcome (missing_note id)
answer_note id (some (some row)) = outcome (note row)

abbrev pub next_version : NoteRow → Text → Text → NoteRow
next_version current title body = record current {
  title = title;
  body = body;
  version = current.version + 1;
}

unfoldable pub cache_rows : JsMap Text NoteRow → List NoteRow → JsMap Text NoteRow
cache_rows cache [] = cache
cache_rows cache (row ∷ rows) = cache_rows (Maps.set cache row.id row) rows

module _ {ℓ} {S : Type ℓ} (db : NotesDatabase S) where
  -- `init`, with the plugin's id and version of the context. An empty path is missing too.
  abbrev pub init_at : CrudState S → Text → Text → Text → Option Text → Handled × CrudState S
  init_at state plugin_id version environment (some (c ∷ path)) = (
    outcome (initialized plugin_id (version ++ (codes ":" ++ environment))),
    record state { database = some (db.open_database (c ∷ path)) },
  )
  init_at state plugin_id version environment _ = (
    outcome (plugin_error (codes "missing_db_path") (codes "Init config must include dbPath") []),
    state,
  )

  unfoldable pub init : CrudState S → Text → Text → Text → JsMap Text Text → Handled × CrudState S
  init state plugin_id version environment config =
      init_at state plugin_id version environment (Maps.get config (codes "dbPath"))

  abbrev pub load_from : CrudState S → Text → Option S → Option (Option NoteRow) × CrudState S
  load_from state id none = (none, state)
  load_from state id (some s) =
      let (row, state') = load_row state id (db.select_note s id) in (some row, state')

  abbrev pub load_cached :
      Bool → CrudState S → Text → Option NoteRow → Option (Option NoteRow) × CrudState S
  load_cached true state id (some row) =
      (some (some row), record state { cache_hits = state.cache_hits + 1 })
  load_cached false state id (some row) = (some (some row), state)
  load_cached count_hit state id none = load_from state id state.database

  unfoldable pub load_note : Bool → CrudState S → Text → Option (Option NoteRow) × CrudState S
  load_note count_hit state id = load_cached count_hit state id (Maps.get state.cache id)

  unfoldable pub get_note : CrudState S → Text → Handled × CrudState S
  unfolding load_note missing_note
  get_note state id =
      let (loaded, state') = load_note true state id in (answer_note id loaded, state')

  abbrev pub list_in : CrudState S → Option S → Handled × CrudState S
  list_in state none = (not_initialized, state)
  list_in state (some s) = (
    outcome (notes (db.select_notes s) state.cache_hits),
    record state { cache = cache_rows state.cache (db.select_notes s) },
  )

  unfoldable pub list_notes : CrudState S → Handled × CrudState S
  unfolding cache_rows
  list_notes state = list_in state state.database

module _ {ℓ} {S : Type ℓ} (db : NotesDatabase S) (json : Json KvValue) (namespace : Text) where
  abbrev pub finish_change : CrudState S → Text → Text → ℕ → Outcome → Handled × CrudState S
  finish_change state key id now out =
      let (result, kv) = note_change json namespace state.kv key id now in
      (handled_change out result, record state { kv = kv })

  abbrev pub create_in : CrudState S → Text → Text → Text → ℕ → Option S → Handled × CrudState S
  create_in state id title body now none = (not_initialized, state)
  create_in state id title body now (some s) =
      let row = first_version id title body in
      finish_change
        (record state {
          database = some (db.insert_or_replace s row);
          cache = Maps.set state.cache id row;
        })
        (codes "last_note_id") id now (note row)

  unfoldable pub create_note : CrudState S → Text → Text → Text → ℕ → Handled × CrudState S
  unfolding note_change
  create_note state id title body now = create_in state id title body now state.database

  abbrev pub update_in : CrudState S → NoteRow → ℕ → Option S → Handled × CrudState S
  update_in state row now none = (not_initialized, state)
  update_in state row now (some s) =
      finish_change
        (record state {
          database = some (db.update_note s row);
          cache = Maps.set state.cache row.id row;
        })
        (codes "last_note_id") row.id now (note row)

  abbrev pub update_loaded :
      Text → Text → Text → ℕ → Option (Option NoteRow) × CrudState S → Handled × CrudState S
  update_loaded id title body now (none, state) = (not_initialized, state)
  update_loaded id title body now (some none, state) = (outcome (missing_note id), state)
  update_loaded id title body now (some (some current), state) =
      update_in state (next_version current title body) now state.database

  unfoldable pub update_note : CrudState S → Text → Text → Text → ℕ → Handled × CrudState S
  unfolding load_note note_change missing_note
  update_note state id title body now =
      update_loaded id title body now (load_note db false state id)

  abbrev pub delete_in : CrudState S → Text → ℕ → Option S → Handled × CrudState S
  delete_in state id now none = (not_initialized, state)
  delete_in state id now (some s) =
      finish_change
        (record state { database = some (db.delete_note s id); cache = Maps.delete state.cache id })
        (codes "last_deleted_id") id now (deleted id)

  unfoldable pub delete_note : CrudState S → Text → ℕ → Handled × CrudState S
  unfolding note_change
  delete_note state id now = delete_in state id now state.database
