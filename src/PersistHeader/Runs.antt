-- ===== src/PersistHeader/Runs.antt =====
-- src/persist_header.rs on two files, and the theorems at concrete inputs.
use skitter.Prelude.{ℕ, ◌≡◌, ◌↔◌, Option, some, List, [], ◌∷◌, All}
use skitter.PersistHeader.{FileVersionEntry, valid, validate}
use skitter.PersistHeader.Laws.{Unchanged, validate_iff}

-- Every file has a size of 10 and was changed at 5.
abbrev metadata : List ℕ → Option (ℕ × ℕ)
metadata path = some (10, 5)

abbrev files : List FileVersionEntry
files =
    record { path = 97 ∷ []; size = 10; time = 5 }
    ∷ record { path = 98 ∷ []; size = 10; time = 6 }
    ∷ []

validate_iff_example : (validate metadata files ≡ valid) ↔ All (Unchanged metadata) files
validate_iff_example = validate_iff metadata files
