-- ===== src/Web/Vite/Tests.antt =====
-- The chunks that a page imports in small manifests of internal/web/vite.go.
use mrtp.Prelude.{◌≡◌, refl, ◌↔◌, List, [], ◌∷◌, map, true, some, contains}
use mrtp.Web.Vite.{
  Name, Chunk, Manifest, no_chunk, get, each_import, get_imported_chunks, imported_chunks,
}
use mrtp.Web.Vite.Walk.{IsNodup, Imports}
use mrtp.Web.Vite.Imports.{imported_chunks-Imports}

abbrev importing : List Name → Chunk
importing names = record no_chunk { imports = names }

-- The chunks 1, 2 and 3 import each other in a circle, and 4 is in no map.
abbrev circle : Manifest
circle =
    (1, importing (2 ∷ 3 ∷ [])) ∷ (2, importing (3 ∷ 4 ∷ [])) ∷ (3, importing (1 ∷ 2 ∷ [])) ∷ []

imported_by_two : imported_chunks circle 2 ≡ some (map (get circle) (4 ∷ 2 ∷ 1 ∷ 3 ∷ []))
unfolding imported_chunks get_imported_chunks each_import get contains
imported_by_two = refl

imported_chunks-Imports_example :
    (names : List Name) × ((imported_chunks circle 1 ≡ some (map (get circle) names))
      × (IsNodup names
          × ((x : Name) → (contains x names ≡ true) ↔ Imports circle (get circle 1).imports x)))
imported_chunks-Imports_example = imported_chunks-Imports circle 1
