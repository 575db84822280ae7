-- ===== src/Go/Text.antt =====
-- Text put together from pieces, as Go's `+` and fmt.Sprintf do.
use Prim.Native.String
use syncflux.Prelude.{String, List, [], ◌∷◌}

abbrev pub concat : List String → String
concat [] = ""
concat (s ∷ ss) = String.◌++◌ s (concat ss)
