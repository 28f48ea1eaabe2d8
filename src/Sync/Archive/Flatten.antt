-- ===== src/Sync/Archive/Flatten.antt =====
-- The folder that wraps a backup's files is stripped from all of them, and no two names become one.
use lightroom_sync.Common.{◌≡◌, ◌⊎◌, Bool, false, Option, none, some, List, ◌∷◌, ◌++◌}
use lightroom_sync.Common.Text.{Text}

abbrev Wrapped : Text → Text × Bool → Type 0
Wrapped r e = (e.1 ≡ false) → (rest : Text) × (e.0 ≡ r ++ b'/' ∷ rest)

abbrev Known : Text → Option Text → Type 0
Known r root = (root ≡ none) ⊎ (root ≡ some r)
