-- ===== src/Plugins/Crud/Handlers.antt =====
-- Each handler of examples/crud-plugin/src/index.ts against the map of notes.
use mathlib.Core.Path.{subst}
use ts_plugins.Common.{
  ℕ, suc, ◌≡◌, refl, ap, sym, ◌∙◌, Bool, true, false, Option, none, some, if◌then◌else◌, Text,
  text_eq, ◌==◌, codes,
}
use ts_plugins.Common.Maps
use ts_plugins.Kv.{Json, key_regex}
use ts_plugins.Plugins.Crud.{
  NoteRow, NotesDatabase, KvValue, CrudState, Outcome, note, deleted, Handled, outcome,
  handled_change, finish_change, first_version, create_in, load_row, load_from, load_cached,
  load_note, answer_note, get_note, next_version, update_in, update_loaded, update_note, delete_in,
  list_in,
}
use ts_plugins.Plugins.Crud.Notes.{
  IsDatabase, Notes, Request, create, read, update, remove, list, put, erase, updated, next_notes,
  found, found_next, Answers,
}
use ts_plugins.Plugins.Crud.Counter.{Counts, note_change-Counts}
use ts_plugins.Plugins.Crud.Coherence.{
  IsCoherent, IsCoherent-put, IsCoherent-erase, IsCoherent-row, IsCoherent-rows, found_rows,
}

note_key_IsKey : key_regex (codes "last_note_id") ≡ true
unfolding key_regex
note_key_IsKey = refl

deleted_key_IsKey : key_regex (codes "last_deleted_id") ≡ true
unfolding key_regex
deleted_key_IsKey = refl

module _ {ℓ} {S : Type ℓ} (db : NotesDatabase S) (laws : IsDatabase db) (json : Json KvValue)
    (namespace : Text) where
  -- A state of the plugin, with the database open at `s`, stands for the notes.
  pub record IsStateOf (s : S) (state : CrudState S) (sp : Notes) : Type ℓ where
    pub opened : state.database ≡ some s
    pub agrees : (j : Text) → db.select_note s j ≡ sp.lookup j
    pub coherent : IsCoherent state.cache sp.lookup
    pub counts : Counts json namespace state.kv sp.changes

  abbrev pub Good : Request → Notes → Handled × CrudState S → Type ℓ
  Good request sp (h, state) =
      Answers request sp h × (s : S) × IsStateOf s state (next_notes request sp)

  finish_holds :
      (state : CrudState S) (s : S) (key id : Text) (now n : ℕ) (out : Outcome)
      (f : Text → Option NoteRow)
      → key_regex key ≡ true
      → (key == codes "mutation_count") ≡ false
      → state.database ≡ some s
      → ((j : Text) → db.select_note s j ≡ f j)
      → IsCoherent state.cache f
      → Counts json namespace state.kv n
      → ((finish_change db json namespace state key id now out).0 ≡ outcome out)
        × IsStateOf s
            (finish_change db json namespace state key id now out).1
            (record { lookup = f; changes = suc n })
  finish_holds state s key id now n out f valid other opened agrees coherent counts =
      let (done, counted) =
        note_change-Counts json namespace state.kv key id n now valid other counts in
      (
        ap (handled_change out) done,
        record { opened = opened; agrees = agrees; coherent = coherent; counts = counted },
      )

  pub create_holds :
      (s : S) (state : CrudState S) (sp : Notes) (id title body : Text) (now : ℕ)
      → IsStateOf s state sp
      → Good
          (create id title body)
          sp
          (create_in db json namespace state id title body now (some s))
  create_holds s state sp id title body now h =
      let row = first_version id title body in
      let (answer, holds) =
        finish_holds _ (db.insert_or_replace s row) (codes "last_note_id") id now sp.changes
          (note row) (put sp.lookup row) note_key_IsKey refl refl
          (λ j. laws.select-insert s row j ∙ ap (λ o. if id == j then some row else o) (h.agrees j))
          (IsCoherent-put state.cache sp.lookup row h.coherent) h.counts in
      (answer, _, holds)

  pub delete_holds :
      (s : S) (state : CrudState S) (sp : Notes) (id : Text) (now : ℕ)
      → IsStateOf s state sp
      → Good (remove id) sp (delete_in db json namespace state id now (some s))
  delete_holds s state sp id now h =
      let (answer, holds) =
        finish_holds _ (db.delete_note s id) (codes "last_deleted_id") id now sp.changes
          (deleted id) (erase sp.lookup id) deleted_key_IsKey refl refl
          (λ j. laws.select-delete s id j ∙ ap (λ o. if id == j then none else o) (h.agrees j))
          (IsCoherent-erase state.cache sp.lookup id h.coherent) h.counts in
      (answer, _, holds)

  -- To load a note finds it, in the cache or in the database.
  abbrev Loads : S → Notes → Text → Option (Option NoteRow) × CrudState S → Type ℓ
  Loads s sp id (loaded, state) = (loaded ≡ some (sp.lookup id)) × IsStateOf s state sp

  load_row_holds :
      (s : S) (state : CrudState S) (sp : Notes) (id : Text) (selected : Option NoteRow)
      → IsStateOf s state sp
      → db.select_note s id ≡ selected
      → Loads s sp id (let (row, state') = load_row state id selected in (some row, state'))
  load_row_holds s state sp id none h e = (ap some (sym e ∙ h.agrees id), h)
  load_row_holds s state sp id (some row) h e = (
    ap some (sym e ∙ h.agrees id),
    record {
      opened = h.opened;
      agrees = h.agrees;
      coherent =
          IsCoherent-row state.cache sp.lookup row
            (ap sp.lookup (laws.select_id s id row e) ∙ sym (h.agrees id) ∙ e) h.coherent;
      counts = h.counts;
    },
  )

  load_cached_holds :
      (count_hit : Bool) (s : S) (state : CrudState S) (sp : Notes) (id : Text)
      (cached : Option NoteRow)
      → IsStateOf s state sp
      → Maps.get state.cache id ≡ cached
      → Loads s sp id (load_cached db count_hit state id cached)
  load_cached_holds true s state sp id (some row) h e = (
    ap some (sym (h.coherent id row e)),
    record { opened = h.opened; agrees = h.agrees; coherent = h.coherent; counts = h.counts },
  )
  load_cached_holds false s state sp id (some row) h e = (ap some (sym (h.coherent id row e)), h)
  load_cached_holds true s state sp id none h e =
      subst (λ d. Loads s sp id (load_from db state id d)) (sym h.opened)
        (load_row_holds s state sp id _ h refl)
  load_cached_holds false s state sp id none h e =
      subst (λ d. Loads s sp id (load_from db state id d)) (sym h.opened)
        (load_row_holds s state sp id _ h refl)

  load_holds :
      (count_hit : Bool) (s : S) (state : CrudState S) (sp : Notes) (id : Text)
      → IsStateOf s state sp
      → Loads s sp id (load_note db count_hit state id)
  unfolding load_note
  load_holds count_hit s state sp id h = load_cached_holds count_hit s state sp id _ h refl

  answer_found : (id : Text) (o : Option NoteRow) → answer_note id (some o) ≡ found id o
  answer_found id none = refl
  answer_found id (some row) = refl

  pub get_holds :
      (s : S) (state : CrudState S) (sp : Notes) (id : Text)
      → IsStateOf s state sp
      → Good (read id) sp (get_note db state id)
  unfolding get_note
  get_holds s state sp id h =
      let (loaded, h') = load_holds true s state sp id h in
      (ap (answer_note id) loaded ∙ answer_found id (sp.lookup id), s, h')

  pub list_holds :
      (s : S) (state : CrudState S) (sp : Notes)
      → IsStateOf s state sp
      → Good list sp (list_in db state (some s))
  list_holds s state sp h =
      let sound =
        found_rows (db.select_note s) sp.lookup (db.select_notes s) h.agrees (laws.select_rows s) in
      (
        (
          db.select_notes s,
          state.cache_hits,
          refl,
          record { sound = sound; complete = λ j row e. laws.rows_select s j row (h.agrees j ∙ e) },
        ),
        s,
        record {
          opened = h.opened;
          agrees = h.agrees;
          coherent = IsCoherent-rows (db.select_notes s) state.cache sp.lookup sound h.coherent;
          counts = h.counts;
        },
      )

  abbrev Updates : Notes → Text → Text → Text → Option NoteRow → Handled × CrudState S → Type ℓ
  Updates sp id title body current (h, state) =
      (h ≡ found_next id title body current)
      × (s : S) × IsStateOf s state (updated sp title body current)

  update_loaded_holds :
      (s : S) (state : CrudState S) (sp : Notes) (id title body : Text) (now : ℕ)
      (current : Option NoteRow)
      → IsStateOf s state sp
      → sp.lookup id ≡ current
      → Updates sp id title body current
          (update_loaded db json namespace id title body now (some current, state))
  update_loaded_holds s state sp id title body now none h e = (refl, s, h)
  update_loaded_holds s state sp id title body now (some current) h e =
      let row = next_version current title body in
      let stands = h.agrees id ∙ e in
      let stands' = ap (db.select_note s) (laws.select_id s id current stands) ∙ stands in
      let good =
        finish_holds
          (record state {
            database = some (db.update_note s row);
            cache = Maps.set state.cache row.id row;
          })
          (db.update_note s row) (codes "last_note_id") row.id now sp.changes (note row)
          (put sp.lookup row) note_key_IsKey refl refl
          (λ j.
            laws.select-update s current row j stands'
            ∙ ap (λ o. if row.id == j then some row else o) (h.agrees j))
          (IsCoherent-put state.cache sp.lookup row h.coherent) h.counts in
      subst
        (λ d. Updates sp id title body (some current) (update_in db json namespace state row now d))
        (sym h.opened) (good.0, _, good.1)

  pub update_holds :
      (s : S) (state : CrudState S) (sp : Notes) (id title body : Text) (now : ℕ)
      → IsStateOf s state sp
      → Good (update id title body) sp (update_note db json namespace state id title body now)
  unfolding update_note
  update_holds s state sp id title body now h =
      let (loaded, h') = load_holds false s state sp id h in
      subst
        (λ l.
          Updates sp id title body (sp.lookup id) (
            update_loaded db json namespace id title body now (l, (load_note db false state id).1)))
        (sym loaded) (update_loaded_holds s _ sp id title body now _ h' refl)
