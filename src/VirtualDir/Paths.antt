-- ===== src/VirtualDir/Paths.antt =====
-- The directory and the name that a request's path is cut into.
use libupnpp.Prelude.{true, false, [], ◌∷◌, ◌++◌, ◌≡◌, ◌≢◌, refl, arith, none, some, Bytes, Lacks}
use libupnpp.VirtualDir.{slash_ends, last_slash, path_catslash, path_getfather, path_getsimple}

pub last_slash-Lacks : (n : Bytes) → Lacks 47 n → last_slash n ≡ none
last_slash-Lacks [] h = refl
last_slash-Lacks (c ∷ n) (h, hs) = rw (last_slash-Lacks n hs) (ground (arith, h))

pub last_slash-append : (p n : Bytes) → Lacks 47 n → last_slash (p ++ 47 ∷ n) ≡ some (p, n)
last_slash-append [] n h = rw (last_slash-Lacks n h) refl
last_slash-append (c ∷ p) n h = rw (last_slash-append p n h) refl

-- A text that ends in the name ends in no slash.
pub slash_ends-Lacks : (p n : Bytes) → n ≢ [] → Lacks 47 n → slash_ends (p ++ 47 ∷ n) ≡ false
slash_ends-Lacks [] [] h k = absurd (h refl)
slash_ends-Lacks [] (c ∷ []) h (k, ks) = ground (arith, k)
slash_ends-Lacks [] (c ∷ d ∷ n) h (k, ks) = slash_ends-Lacks [] (d ∷ n) (λ e. cc) ks
slash_ends-Lacks (c ∷ []) n h k = slash_ends-Lacks [] n h k
slash_ends-Lacks (c ∷ d ∷ p) n h k = slash_ends-Lacks (d ∷ p) n h k

pub slash_ends-slash : (p : Bytes) → slash_ends (p ++ 47 ∷ []) ≡ true
slash_ends-slash [] = refl
slash_ends-slash (c ∷ []) = refl
slash_ends-slash (c ∷ d ∷ p) = slash_ends-slash (d ∷ p)

pub path_catslash_ended : (p : Bytes) → path_catslash (p ++ 47 ∷ []) ≡ p ++ 47 ∷ []
unfolding path_catslash
path_catslash_ended p = rw (slash_ends-slash p) refl

-- A directory that does not end in a slash, a slash and a non-empty name without slashes: the path is
-- cut into exactly this directory, with its slash, and this name.
pub path_getfather-path_getsimple :
    (p name : Bytes)
    → slash_ends p ≡ false
    → name ≢ []
    → Lacks 47 name
    → (path_getfather (p ++ 47 ∷ name) ≡ p ++ 47 ∷ []) × (path_getsimple (p ++ 47 ∷ name) ≡ name)
unfolding path_getfather path_getsimple path_catslash
path_getfather-path_getsimple [] name hp hn hl =
    let ends = slash_ends-Lacks [] name hn hl in
    rw (ends, last_slash-append [] name hl) (refl, refl)
path_getfather-path_getsimple (c ∷ p) name hp hn hl =
    let ends = slash_ends-Lacks (c ∷ p) name hn hl in
    rw (ends, last_slash-append (c ∷ p) name hl, hp) (refl, refl)
