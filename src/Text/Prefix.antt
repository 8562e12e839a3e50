-- ===== src/Text/Prefix.antt =====
-- libupnpp/smallut.cpp, `commonprefix`: the prefix that all texts share.
pub mod Greatest
use libupnpp.Prelude.{ℕ, ◌==◌, Bool, true, false, ◌&&◌, List, [], ◌∷◌, if◌then◌else◌, Bytes}

-- Whether the byte stands at the front of every other text.
unfoldable pub all_start : ℕ → List Bytes → Bool
all_start c [] = true
all_start c ([] ∷ vs) = false
all_start c ((d ∷ s) ∷ vs) = d == c && all_start c vs

unfoldable pub tails : List Bytes → List Bytes
tails [] = []
tails ([] ∷ vs) = [] ∷ tails vs
tails ((d ∷ s) ∷ vs) = s ∷ tails vs

-- The loop over the index, as a walk along the first text and the others.
unfoldable pub common : Bytes → List Bytes → Bytes
unfolding all_start tails
common [] vs = []
common (c ∷ s) vs = let rest = common s (tails vs) in if all_start c vs then c ∷ rest else []

unfoldable pub commonprefix : List Bytes → Bytes
unfolding common
commonprefix [] = []
commonprefix (v ∷ []) = v
commonprefix (v ∷ v2 ∷ vs) = common v (v2 ∷ vs)
