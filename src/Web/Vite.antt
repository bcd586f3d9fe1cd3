-- ===== src/Web/Vite.antt =====
-- internal/web/vite.go: the chunks that a page of the frontend imports, from the manifest that vite
-- writes. Names of files are numbers, and the decoder of JSON is a parameter.
pub mod Walk
pub mod Imports
mod Tests
use mrtp.Prelude.{
  ℕ, zero, suc, ◌+◌, ◌==◌, List, [], ◌∷◌, ◌++◌, Bool, true, false, Option, none, some, length,
  contains, if◌then◌else◌,
}

abbrev pub Name : Type 0
Name = ℕ

pub record Chunk : Type 0 where
  pub file : Name
  pub name : Name
  pub src : Name
  pub is_entry : Bool
  pub is_dynamic_entry : Bool
  pub imports : List Name
  pub dynamic_imports : List Name
  pub css : List Name

-- The map, with its keys.
abbrev pub Manifest : Type 0
Manifest = List (Name × Chunk)

-- `decode` is json.Unmarshal, with what it leaves in the map also where it fails; the error is dropped.
abbrev pub parse :
    {Data : Type 0} → (Data → Manifest → Manifest × Bool) → Manifest → Data → Manifest × Bool
parse decode m bytes = ((decode bytes m).0, true)

-- The zero value.
abbrev pub no_chunk : Chunk
no_chunk = record {
  file = 0;
  name = 0;
  src = 0;
  is_entry = false;
  is_dynamic_entry = false;
  imports = [];
  dynamic_imports = [];
  css = [];
}

-- `m[name]`.
unfoldable pub get : Manifest → Name → Chunk
get [] name = no_chunk
get ((key, c) ∷ m) name = if key == name then c else get m name

-- What a call of `getImportedChunks` returns, and `seen` after it.
abbrev pub Walked : Type 0
Walked = Option (List Chunk × List Name)

-- The loop over the imports of a chunk; `descend` is the recursive call, on the imports of a chunk.
unfoldable pub each_import :
    Manifest → (List Name → List Name → Walked) → List Name → List Name → Walked
each_import m descend [] seen = some ([], seen)
each_import m descend (file ∷ files) seen =
    let importee = get m file in
    if contains file seen
    then each_import m descend files seen
    else elim (descend importee.imports (file ∷ seen)) [
      | none ↦ none
      | some (chunks, seen₁) ↦ elim (each_import m descend files seen₁) [
        | none ↦ none
        | some (more, seen₂) ↦ some (chunks ++ importee ∷ more, seen₂)
      ]
    ]

-- `getImportedChunks` on the imports of a chunk; it is nested no deeper than the fuel.
unfoldable pub get_imported_chunks : Manifest → ℕ → List Name → List Name → Walked
get_imported_chunks m zero files seen = none
get_imported_chunks m (suc n) files seen = each_import m (get_imported_chunks m n) files seen

-- All imports of the manifest.
abbrev pub all_imports : Manifest → List Name
all_imports [] = []
all_imports ((key, c) ∷ m) = c.imports ++ all_imports m

unfoldable pub imported_chunks : Manifest → Name → Option (List Chunk)
imported_chunks m name =
    elim (get_imported_chunks m (length (all_imports m) + 1) (get m name).imports []) [
      | none ↦ none
      | some (chunks, seen) ↦ some chunks
    ]
