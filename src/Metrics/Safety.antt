-- ===== src/Metrics/Safety.antt =====
-- That the metrics never make a process panic.
use chainmesh.Base.{All, ◌≡◌, false, String, List, [], ◌∷◌, contains}
use chainmesh.Client
use chainmesh.Proxy
use chainmesh.Metrics.{Vector, opts, full_name}

-- The names that are there after the vectors before, and that the next are new among.
abbrev New : List String → List Vector → Type 0
New taken [] = Unit
New taken (v ∷ vs) =
    (contains (full_name (opts v)) taken ≡ false) × New (full_name (opts v) ∷ taken) vs

-- None of the vectors has a name that is taken.
abbrev pub AllFree : List String → List Vector → Type 0
AllFree taken vs = All (λ v. contains (full_name (opts v)) taken ≡ false) vs
