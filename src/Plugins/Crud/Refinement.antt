-- ===== src/Plugins/Crud/Refinement.antt =====
-- The handlers of examples/crud-plugin/src/index.ts against the map of notes that they promise.
use mathlib.Core.Path.{subst}
use ts_plugins.Common.{ℕ, ◌≡◌, refl, sym, Option, some, List, [], ◌∷◌, Text, text_eq, codes, JsMap}
use ts_plugins.Common.Maps
use ts_plugins.Kv.{Json, MemoryKvBackend}
use ts_plugins.Plugins.Crud.{
  NotesDatabase, KvValue, CrudState, Handled, create_in, create_note, get_note, init, update_note,
  delete_in, delete_note, list_in, list_notes,
}
use ts_plugins.Plugins.Crud.Notes.{
  IsDatabase, Notes, Request, create, read, update, remove, list, next_notes, Answers,
}
use ts_plugins.Plugins.Crud.Counter.{Counts}
use ts_plugins.Plugins.Crud.Coherence.{empty_IsCoherent}
use ts_plugins.Plugins.Crud.Handlers.{
  IsStateOf, Good, create_holds, delete_holds, get_holds, list_holds, update_holds,
}

-- What a request makes of the plugin, through the handler that it names.
abbrev pub handle {ℓ} :
    {S : Type ℓ} (db : NotesDatabase S) (json : Json KvValue) (namespace : Text)
    → Request
    → ℕ
    → CrudState S
    → Handled × CrudState S
handle db json namespace (create id title body) now state =
    create_note db json namespace state id title body now
handle db json namespace (read id) now state = get_note db state id
handle db json namespace (update id title body) now state =
    update_note db json namespace state id title body now
handle db json namespace (remove id) now state = delete_note db json namespace state id now
handle db json namespace list now state = list_notes db state

-- Each of the requests is answered as the map of notes says that they have made.
abbrev pub AreAnswered {ℓ} :
    {S : Type ℓ} (db : NotesDatabase S) (json : Json KvValue) (namespace : Text)
    → List (Request × ℕ)
    → Notes
    → CrudState S
    → Type 0
AreAnswered db json namespace [] sp state = Unit
AreAnswered db json namespace ((request, now) ∷ requests) sp state =
    Answers request sp (handle db json namespace request now state).0
    × AreAnswered db json namespace requests (next_notes request sp)
        (handle db json namespace request now state).1

-- What the database has, as notes that no request has changed.
abbrev pub notes_in {ℓ} : {S : Type ℓ} (db : NotesDatabase S) → S → Notes
notes_in db s = record { lookup = db.select_note s; changes = 0 }

module _ {ℓ} {S : Type ℓ} (db : NotesDatabase S) (laws : IsDatabase db) (json : Json KvValue)
    (namespace : Text) where
  -- Every handler keeps the state that of the notes, and answers what they are.
  handle_holds :
      (s : S) (state : CrudState S) (sp : Notes) (request : Request) (now : ℕ)
      → IsStateOf db laws json namespace s state sp
      → Good db laws json namespace request sp (handle db json namespace request now state)
  unfolding create_note delete_note list_notes
  handle_holds s state sp (create id title body) now h =
      subst
        (λ d.
          Good db laws json namespace (create id title body) sp
            (create_in db json namespace state id title body now d))
        (sym h.opened) (create_holds db laws json namespace s state sp id title body now h)
  handle_holds s state sp (read id) now h = get_holds db laws json namespace s state sp id h
  handle_holds s state sp (update id title body) now h =
      update_holds db laws json namespace s state sp id title body now h
  handle_holds s state sp (remove id) now h =
      subst
        (λ d.
          Good db laws json namespace (remove id) sp (delete_in db json namespace state id now d))
        (sym h.opened) (delete_holds db laws json namespace s state sp id now h)
  handle_holds s state sp list now h =
      subst (λ d. Good db laws json namespace list sp (list_in db state d)) (sym h.opened)
        (list_holds db laws json namespace s state sp h)

  run_holds :
      (requests : List (Request × ℕ)) (s : S) (state : CrudState S) (sp : Notes)
      → IsStateOf db laws json namespace s state sp
      → AreAnswered db json namespace requests sp state
  run_holds [] s state sp h = tt
  run_holds ((request, now) ∷ requests) s state sp h =
      let (answer, s', h') = handle_holds s state sp request now h in
      (answer, run_holds requests s' _ _ h')

  -- After an `init` with a path, in a plugin with an empty cache and nothing under its counter, any
  -- requests to create, read, update, delete and list notes are answered as a plain map of notes
  -- answers them, one that starts with what the database of the path has; no handler throws. The
  -- cache and the counter show only in the number of hits.
  pub crud_refines_notes :
      (kv : MemoryKvBackend) (closed : Option S) (hits : ℕ) (plugin_id version environment : Text)
      (config : JsMap Text Text) (c : ℕ) (path : Text) (requests : List (Request × ℕ))
      → Counts json namespace kv 0
      → Maps.get config (codes "dbPath") ≡ some (c ∷ path)
      → AreAnswered db json namespace requests
          (notes_in db (db.open_database (c ∷ path)))
          (init db
            (record { database = closed; cache = []; cache_hits = hits; kv = kv })
            plugin_id
            version
            environment
            config).1
  unfolding init Maps.get
  crud_refines_notes kv closed hits plugin_id version environment config c path requests counts e =
      rw e (
        run_holds requests (db.open_database (c ∷ path)) _ _ (record {
          opened = refl;
          agrees = λ j. refl;
          coherent = empty_IsCoherent (db.select_note (db.open_database (c ∷ path)));
          counts = counts;
        }))
