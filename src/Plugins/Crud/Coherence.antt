-- ===== src/Plugins/Crud/Coherence.antt =====
-- The cache of examples/crud-plugin/src/index.ts holds nothing but notes.
use ts_plugins.Common.{
  ◌≡◌, refl, ap, sym, ◌∙◌, Option, some, List, [], ◌∷◌, All, arith, if◌then◌else◌, Text, text_eq,
  ◌==◌, ==_iff, JsMap, Bool-cases, inl, inr,
}
use ts_plugins.Common.Maps
use ts_plugins.Plugins.Crud.{NoteRow, cache_rows}
use ts_plugins.Plugins.Crud.Notes.{put, erase}

-- Every note of the cache is the note.
abbrev pub IsCoherent : JsMap Text NoteRow → (Text → Option NoteRow) → Type 0
IsCoherent cache f = (j : Text) (n : NoteRow) → Maps.get cache j ≡ some n → f j ≡ some n

pub empty_IsCoherent : (f : Text → Option NoteRow) → IsCoherent [] f
unfolding Maps.get
empty_IsCoherent f j n e = ground arith

pub IsCoherent-put :
    (cache : JsMap Text NoteRow) (f : Text → Option NoteRow) (row : NoteRow)
    → IsCoherent cache f
    → IsCoherent (Maps.set cache row.id row) (put f row)
IsCoherent-put cache f row h j n e = elim (Bool-cases (row.id == j)) [
  | inl same ↦ rw same (sym (Maps.get-set cache row.id j row ∙ rw same refl) ∙ e)
  | inr other ↦ rw other (h j n (sym (Maps.get-set cache row.id j row ∙ rw other refl) ∙ e))
]

pub IsCoherent-erase :
    (cache : JsMap Text NoteRow) (f : Text → Option NoteRow) (id : Text)
    → IsCoherent cache f
    → IsCoherent (Maps.delete cache id) (erase f id)
IsCoherent-erase cache f id h j n e = elim (Bool-cases (id == j)) [
  | inl same ↦ rw same (sym (Maps.get-delete cache id j ∙ rw same refl) ∙ e)
  | inr other ↦ rw other (h j n (sym (Maps.get-delete cache id j ∙ rw other refl) ∙ e))
]

-- A note that is put where it stands already changes nothing.
put_same :
    (f : Text → Option NoteRow) (row : NoteRow) (j : Text) (n : NoteRow)
    → f row.id ≡ some row
    → put f row j ≡ some n
    → f j ≡ some n
put_same f row j n stands e = elim (Bool-cases (row.id == j)) [
  | inl same ↦
      ap f (sym ((==_iff row.id j).0 same))
      ∙ stands
      ∙ sym (ap (λ b. if b then some row else f j) same)
      ∙ e
  | inr other ↦ sym (ap (λ b. if b then some row else f j) other) ∙ e
]

pub IsCoherent-row :
    (cache : JsMap Text NoteRow) (f : Text → Option NoteRow) (row : NoteRow)
    → f row.id ≡ some row
    → IsCoherent cache f
    → IsCoherent (Maps.set cache row.id row) f
IsCoherent-row cache f row stands h j n e =
    put_same f row j n stands (IsCoherent-put cache f row h j n e)

pub IsCoherent-rows :
    (rows : List NoteRow) (cache : JsMap Text NoteRow) (f : Text → Option NoteRow)
    → All (λ row. f row.id ≡ some row) rows
    → IsCoherent cache f
    → IsCoherent (cache_rows cache rows) f
unfolding cache_rows
IsCoherent-rows [] cache f stand h = h
IsCoherent-rows (row ∷ rows) cache f stand h =
    IsCoherent-rows rows (Maps.set cache row.id row) f stand.1
      (IsCoherent-row cache f row stand.0 h)

pub found_rows :
    (f g : Text → Option NoteRow) (rows : List NoteRow)
    → ((j : Text) → f j ≡ g j)
    → All (λ row. f row.id ≡ some row) rows
    → All (λ row. g row.id ≡ some row) rows
found_rows f g [] same h = tt
found_rows f g (row ∷ rows) same h = (sym (same row.id) ∙ h.0, found_rows f g rows same h.1)
