-- ===== src/Pluginctl/Integrity.antt =====
-- packages/pluginctl/src/integrity.ts: the digest of a package. A package is the tree of its root
-- directory; a file's content is its bytes. SHA-256, `JSON` and `localeCompare` are parameters.
pub mod Replaced
use ts_plugins.Common.{
  ℕ, ◌≡◌, refl, Bool, true, false, ◌||◌, Option, none, some, List, [], ◌∷◌, ◌++◌, map,
  if◌then◌else◌, Text, text_eq, ◌==◌, codes,
}
use ts_plugins.Pluginctl.Values.{
  JsonValue, null, object, JsonFields, no_fields, member, set_member, delete_member, ◌>>=◌,
}
use ts_plugins.Pluginctl.Manifest.{FilledText}

abbrev pub Bytes : Type 0
Bytes = List ℕ

mutual
  -- What a directory has under a name.
  pub data Entry : Type 0 where
    file : Bytes → Entry
    directory : Entries → Entry
    other_entry : Entry

  pub data Entries : Type 0 where
    no_entries : Entries
    entry : Text → Entry → Entries → Entries

unfoldable pub get_entry : Entries → Text → Option Entry
get_entry no_entries name = none
get_entry (entry n e entries) name = if n == name then some e else get_entry entries name

-- `writeFile` of a file of the directory itself; the file is there or nothing of its name is.
unfoldable pub write_entry : Entries → Text → Bytes → Entries
write_entry no_entries name bytes = entry name (file bytes) no_entries
write_entry (entry n e entries) name bytes =
    if n == name then entry n (file bytes) entries else entry n e (write_entry entries name bytes)

-- What the digest takes from Node: `createHash("sha256")` in hexadecimal, `TextEncoder`, `JSON` on
-- the bytes of a file, and `left.localeCompare(right) <= 0`.
pub record Platform : Type 0 where
  pub sha256 : Bytes → FilledText
  pub utf8 : Text → Bytes
  pub parse : Bytes → Option JsonValue
  pub stringify : JsonValue → Text
  pub stringify_pretty : JsonValue → Text
  pub locale_leb : Text → Text → Bool

-- A file's path below the root, with `/` between its parts, and its bytes.
abbrev pub FileAt : Type 0
FileAt = Text × Bytes

abbrev pub is_skipped : Text → Bool
is_skipped name = name == codes ".git" || name == codes "node_modules"

abbrev pub below : Text → FileAt → FileAt
below name (path, bytes) = (name ++ (codes "/" ++ path), bytes)

abbrev pub without_package_sha256 : JsonFields → JsonFields → JsonFields
without_package_sha256 manifest no_fields = delete_member manifest (codes "integrity")
without_package_sha256 manifest integrity =
    set_member (delete_member manifest (codes "integrity")) (codes "integrity") (object integrity)

abbrev pub normalize_with : JsonFields → JsonFields → Option JsonValue → JsonFields
normalize_with manifest integrity none = manifest
normalize_with manifest integrity (some _) =
    without_package_sha256 manifest (delete_member integrity (codes "packageSha256"))

-- `normalizeManifestForDigest`, on a manifest that is an object
abbrev pub normalize_at : JsonFields → Option JsonValue → JsonFields
normalize_at manifest (some (object integrity)) =
    normalize_with manifest integrity (member integrity (codes "packageSha256"))
normalize_at manifest _ = manifest

-- `none` is the throw on `null`.
unfoldable pub normalize_manifest_for_digest : JsonValue → Option JsonValue
unfolding member set_member delete_member
normalize_manifest_for_digest null = none
normalize_manifest_for_digest (object manifest) =
    some (object (normalize_at manifest (member manifest (codes "integrity"))))
normalize_manifest_for_digest v = some v

module _ (platform : Platform) where
  open platform use {sha256, utf8, parse, stringify, locale_leb}

  -- `entries.sort`, which is stable
  abbrev pub insert_named {ℓ} : {A : Type ℓ} → Text × A → List (Text × A) → List (Text × A)
  insert_named e [] = e ∷ []
  insert_named e (other ∷ rest) =
      if locale_leb e.0 other.0 then e ∷ other ∷ rest else other ∷ insert_named e rest

  abbrev pub sort_named {ℓ} : {A : Type ℓ} → List (Text × A) → List (Text × A)
  sort_named [] = []
  sort_named (e ∷ rest) = insert_named e (sort_named rest)

  abbrev pub all_files : List (Text × List FileAt) → List FileAt
  all_files [] = []
  all_files ((name, files) ∷ rest) = files ++ all_files rest

  unfoldable mutual
    -- The files of each entry, those of a directory with its name before their paths.
    pub files_of_each : Entries → List (Text × List FileAt)
    files_of_each no_entries = []
    files_of_each (entry name e entries) =
        if is_skipped name
        then files_of_each entries
        else (name, files_of name e) ∷ files_of_each entries

    pub files_of : Text → Entry → List FileAt
    files_of name (file bytes) = (name, bytes) ∷ []
    files_of name (directory entries) =
        map (below name) (all_files (sort_named (files_of_each entries)))
    files_of name other_entry = []

  -- `listFiles`. To leave entries out before the sort or after it is the same.
  unfoldable pub list_files : Entries → List FileAt
  unfolding files_of
  list_files root = all_files (sort_named (files_of_each root))

  -- What is hashed of a file after its path.
  abbrev pub hashed_content : Bool → Bytes → Option Bytes
  hashed_content false bytes = some bytes
  hashed_content true bytes = do
    manifest ← parse bytes
    normalized ← normalize_manifest_for_digest manifest
    some (utf8 (stringify normalized))

  abbrev pub hashed_file : FileAt → Option Bytes
  hashed_file (path, bytes) = do
    content ← hashed_content (path == codes "plugin.json") bytes
    some (utf8 (path ++ codes "\n") ++ (content ++ utf8 (codes "\n")))

  abbrev pub hashed_files : List FileAt → Option Bytes
  hashed_files [] = some []
  hashed_files (f ∷ files) = do
    first ← hashed_file f
    rest ← hashed_files files
    some (first ++ rest)

  abbrev pub digest_of : Option Bytes → Option FilledText
  digest_of none = none
  digest_of (some bytes) = some (sha256 bytes)

  -- `none` is a manifest that is not JSON, or `null`.
  unfoldable pub compute_package_digest : Entries → Option FilledText
  unfolding list_files normalize_manifest_for_digest
  compute_package_digest root = digest_of (hashed_files (list_files root))
