-- ===== src/Tests/Editor.antt =====
-- The editor's operations on a list of transformations.
use tmctl.Base.{String, true, [], ◌∷◌, ◌≡◌}
use tmctl.Gui.Process.{Transform, TransformPath, sanitize, rearrange}
use tmctl.Gui.Rearrange.{arranged}
use tmctl.Gui.Rearrange.Twice.{rearrange_twice}
use tmctl.Gui.Sanitize.{distinct, all_accepted, sanitize_twice}

abbrev path : String → String → TransformPath
path key value = record { key = key; value = value }

abbrev adds : Transform
adds = record { operation = "add"; paths = path "a" "1" ∷ path "b" "" ∷ path "a" "2" ∷ [] }

abbrev deletes : Transform
deletes = record { operation = "delete"; paths = path "c" "" ∷ [] }

abbrev wipes : Transform
wipes = record { operation = "delete"; paths = path "" "" ∷ [] }

sanitize_twice_example :
    (distinct (sanitize adds).paths ≡ true)
    × (all_accepted "add" (sanitize adds).paths ≡ true)
    × (sanitize (sanitize adds) ≡ sanitize adds)
sanitize_twice_example = sanitize_twice adds

rearrange_twice_example :
    (rearrange (adds ∷ deletes ∷ wipes ∷ []) ≡ arranged (adds ∷ deletes ∷ wipes ∷ []))
    × (rearrange (rearrange (adds ∷ deletes ∷ wipes ∷ []))
        ≡ rearrange (adds ∷ deletes ∷ wipes ∷ []))
rearrange_twice_example = rearrange_twice (adds ∷ deletes ∷ wipes ∷ [])
