-- ===== src/Tests/CompanionTests.antt =====
-- The theorem on promotion, across two file systems.
use filedge.Base.{ℕ, String, ◌≡◌, refl, Bool, false, [], ◌∷◌, some, none}
use filedge.Base.Dict
use filedge.Base.Dict.{Dict}

abbrev half : ℕ → ℕ
half content = 0

abbrev never : String → String → Bool
never src dest = false

abbrev staged : Dict ℕ
staged = ("stage/a", 7) ∷ ("stage/a.manifest.json", 5) ∷ []

staged_sidecar : Dict.lookup "stage/a.manifest.json" staged ≡ some 5
unfolding Dict.lookup
staged_sidecar = refl

not_landed : Dict.lookup "in/a" staged ≡ none
unfolding Dict.lookup
not_landed = refl

staged_data : Dict.lookup "stage/a" staged ≡ some 7
unfolding Dict.lookup
staged_data = refl
