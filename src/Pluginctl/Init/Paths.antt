-- ===== src/Pluginctl/Init/Paths.antt =====
-- The files of a new project of packages/pluginctl/src/init.ts, by their paths.
use ts_plugins.Common.{
  ◌≡◌, refl, ap, ◌∙◌, false, Option, none, some, List, [], ◌∷◌, ◌++◌, arith, if◌then◌else◌, Text,
  text_eq, ◌==◌, ==_iff, ==_refl, codes,
}
use ts_plugins.Common.Parts.{split, join}
use ts_plugins.Pluginctl.Integrity.{
  Bytes, Entry, file, directory, Entries, no_entries, entry, get_entry, write_entry,
}
use ts_plugins.Pluginctl.Install.Accepted.{get-write_entry}
use ts_plugins.Pluginctl.Init.{path_parts, put_directory, entries_of, write_path}
use ts_plugins.Templates.{feature_name, proto_path_of}

-- What stands at a path.
unfoldable pub get_path : Entries → List Text → Option Entry
get_path root [] = none
get_path root (name ∷ []) = get_entry root name
get_path root (name ∷ part ∷ parts) = get_path (entries_of (get_entry root name)) (part ∷ parts)

get-put_directory :
    (root : Entries) (name j : Text) (sub : Entries)
    → get_entry (put_directory root name sub) j
      ≡ (if name == j then some (directory sub) else get_entry root j)
unfolding get_entry put_directory
get-put_directory no_entries name j sub = refl
get-put_directory (entry n e root) name j sub =
    ground (arith, ==_iff name j, ==_iff n name, ==_iff n j, get-put_directory root name j sub)

get-put_directory_self :
    (root : Entries) (name : Text) (sub : Entries)
    → get_entry (put_directory root name sub) name ≡ some (directory sub)
get-put_directory_self root name sub = get-put_directory root name name sub ∙ rw (==_refl name) refl

get-write_entry_other :
    (root : Entries) (name j : Text) (bytes : Bytes)
    → (name == j) ≡ false
    → get_entry (write_entry root name bytes) j ≡ get_entry root j
unfolding get_entry write_entry
get-write_entry_other no_entries name j bytes other = rw other refl
get-write_entry_other (entry n e root) name j bytes other =
    ground (
      arith,
      ==_iff name j,
      ==_iff n name,
      ==_iff n j,
      get-write_entry_other root name j bytes other,
    )

-- To write a path changes nothing but what is below its first part.
get-write_path_other :
    (root : Entries) (name j : Text) (parts : List Text) (bytes : Bytes)
    → (name == j) ≡ false
    → get_entry (write_path root (name ∷ parts) bytes) j ≡ get_entry root j
unfolding write_path
get-write_path_other root name j [] bytes other = get-write_entry_other root name j bytes other
get-write_path_other root name j (part ∷ parts) bytes other =
    get-put_directory root name j _ ∙ rw other refl

get_path-write_path :
    (root : Entries) (name : Text) (parts : List Text) (bytes : Bytes)
    → get_path (write_path root (name ∷ parts) bytes) (name ∷ parts) ≡ some (file bytes)
unfolding write_path get_path
get_path-write_path root name [] bytes = get-write_entry root name bytes
get_path-write_path root name (part ∷ parts) bytes =
    ap (λ e. get_path (entries_of e) (part ∷ parts)) (get-put_directory_self root name _)
    ∙ get_path-write_path (entries_of (get_entry root name)) part parts bytes

get_path_same :
    (root root' : Entries) (name : Text) (parts : List Text)
    → get_entry root name ≡ get_entry root' name
    → get_path root (name ∷ parts) ≡ get_path root' (name ∷ parts)
unfolding get_path
get_path_same root root' name [] e = e
get_path_same root root' name (part ∷ parts) e = ap (λ x. get_path (entries_of x) (part ∷ parts)) e

-- The parts of a proto file's path below `proto`.
abbrev pub proto_rest : Text → List Text → List Text
proto_rest segment segments = path_parts (
    join (codes "/") (segment ∷ segments)
    ++ (codes "/" ++ (feature_name (segment ∷ segments) ++ codes "_plugin.proto")))

pub proto_parts :
    (segment : Text) (segments : List Text)
    → path_parts (proto_path_of (segment ∷ segments)) ≡ codes "proto" ∷ proto_rest segment segments
unfolding path_parts split join
proto_parts segment segments = refl

-- The writes of a template from its manifest on.
abbrev pub last_writes : Entries → List Text → Bytes → Bytes → Bytes → Bytes → Entries
last_writes stage parts manifest proto source test =
    write_path
      (write_path (write_path (write_path stage (codes "plugin.json" ∷ []) manifest) parts proto)
        (codes "src" ∷ codes "index.ts" ∷ []) source)
      (codes "test" ∷ codes "plugin.test.ts" ∷ []) test

pub manifest_stands :
    (stage : Entries) (rest : List Text) (manifest proto source test : Bytes)
    → get_entry
        (last_writes stage (codes "proto" ∷ rest) manifest proto source test)
        (codes "plugin.json")
      ≡ some (file manifest)
unfolding write_path
manifest_stands stage rest manifest proto source test =
    let first = write_path stage (codes "plugin.json" ∷ []) manifest in
    let second = write_path first (codes "proto" ∷ rest) proto in
    let third = write_path second (codes "src" ∷ codes "index.ts" ∷ []) source in
    get-write_path_other third (codes "test") (codes "plugin.json") (codes "plugin.test.ts" ∷ [])
      test refl
    ∙ get-write_path_other second (codes "src") (codes "plugin.json") (codes "index.ts" ∷ []) source
        refl
    ∙ get-write_path_other first (codes "proto") (codes "plugin.json") rest proto refl
    ∙ get-write_entry stage (codes "plugin.json") manifest

pub proto_stands :
    (stage : Entries) (rest : List Text) (manifest proto source test : Bytes)
    → get_path
        (last_writes stage (codes "proto" ∷ rest) manifest proto source test)
        (codes "proto" ∷ rest)
      ≡ some (file proto)
proto_stands stage rest manifest proto source test =
    let first = write_path stage (codes "plugin.json" ∷ []) manifest in
    let second = write_path first (codes "proto" ∷ rest) proto in
    let third = write_path second (codes "src" ∷ codes "index.ts" ∷ []) source in
    get_path_same _ second (codes "proto") rest (
      get-write_path_other third (codes "test") (codes "proto") (codes "plugin.test.ts" ∷ []) test
        refl
      ∙ get-write_path_other second (codes "src") (codes "proto") (codes "index.ts" ∷ []) source
          refl)
    ∙ get_path-write_path first (codes "proto") rest proto
