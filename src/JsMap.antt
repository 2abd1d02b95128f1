-- ===== src/JsMap.antt =====
-- The JavaScript `Map` with string keys: its entries in insertion order. `set` on a present key
-- keeps its place, and `delete` takes the entry out.
pub mod Laws
use crew_link.Base.{String, Bool, Option, none, some, List, [], ◌∷◌, ◌==◌, if◌then◌else◌}

abbrev pub JsMap : Type 0 → Type 0
JsMap V = List (String × V)

module _ {V : Type 0} where
  unfoldable pub get : String → JsMap V → Option V
  get k [] = none
  get k ((j, v) ∷ m) = if j == k then some v else get k m

  unfoldable pub set : String → V → JsMap V → JsMap V
  set k v [] = (k, v) ∷ []
  set k v ((j, w) ∷ m) = if j == k then (j, v) ∷ m else (j, w) ∷ set k v m

  unfoldable pub delete : String → JsMap V → JsMap V
  delete k [] = []
  delete k ((j, w) ∷ m) = if j == k then delete k m else (j, w) ∷ delete k m
