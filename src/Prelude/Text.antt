-- ===== src/Prelude/Text.antt =====
-- Text as the program sees it: `std::string` is a list of bytes. A literal is given by its codes,
-- and a set of characters is a text that is searched.
use Prim.Native.Nat.{ℕ, ◌+◌, ◌≤◌}
use Prim.Native.Char.{code}
use Prim.Native.String.{String}
use mathlib.Core.Path.{◌≡◌, refl, ap, sym}
use mathlib.Core.Logic.{◌↔◌, ◌≢◌}
use mathlib.Core.Bool.{Bool, true, false, ◌&&◌, ◌||◌}
use mathlib.Core.List.{List, [], ◌∷◌, ◌++◌, append-nil}
use native.Mathlib.Omega.{arith}
use libupnpp.Prelude.Tests.{◌==◌, if◌then◌else◌}
use libupnpp.Prelude.Lists.{All, length}

abbrev pub Bytes : Type 0
Bytes = List ℕ

abbrev pub codes : String → Bytes
codes String.[] = []
codes (String.◌∷◌ c s) = code c ∷ codes s

-- `s1 == s2`
abbrev pub beq : Bytes → Bytes → Bool
beq [] [] = true
beq [] (y ∷ ys) = false
beq (x ∷ xs) [] = false
beq (x ∷ xs) (y ∷ ys) = x == y && beq xs ys

pub beq→eq : (a b : Bytes) → beq a b ≡ true → a ≡ b
beq→eq [] [] h = refl
beq→eq [] (y ∷ ys) h = cc
beq→eq (x ∷ xs) [] h = cc
beq→eq (x ∷ xs) (y ∷ ys) h = ground (arith, beq→eq xs ys)

pub beq_refl : (a : Bytes) → beq a a ≡ true
beq_refl [] = refl
beq_refl (x ∷ xs) = ground (arith, beq_refl xs)

pub beq_iff : (a b : Bytes) → (beq a b ≡ true) ↔ (a ≡ b)
beq_iff a b = (beq→eq a b, λ e. ground (arith, beq_refl a))

-- `chars.find(c) != npos`
abbrev pub one_of : Bytes → ℕ → Bool
one_of [] c = false
one_of (x ∷ xs) c = x == c || one_of xs c

-- No byte of the text is in the set.
abbrev pub Avoids : Bytes → Bytes → Type 0
Avoids chars = All (λ c. one_of chars c ≡ false)

-- The byte does not stand in the text.
abbrev pub Lacks : ℕ → Bytes → Type 0
Lacks b = All (λ c. c ≢ b)

-- `s.pop_back()`
unfoldable pub pop_back : Bytes → Bytes
pop_back [] = []
pop_back (c ∷ []) = []
pop_back (c ∷ d ∷ s) = c ∷ pop_back (d ∷ s)

pub pop_back-append : (s : Bytes) (c : ℕ) → pop_back (s ++ c ∷ []) ≡ s
unfolding pop_back
pop_back-append [] c = refl
pop_back-append (d ∷ []) c = refl
pop_back-append (d ∷ e ∷ s) c = ap (◌∷◌ d) (pop_back-append (e ∷ s) c)

-- A search by character (`find_first_of`, `find_first_not_of`): the text before the first character
-- that passes the test, and the text from it, which is empty if there is none.
unfoldable pub until : (ℕ → Bool) → Bytes → Bytes
until p [] = []
until p (c ∷ s) = if p c then [] else c ∷ until p s

unfoldable pub from : (ℕ → Bool) → Bytes → Bytes
from p [] = []
from p (c ∷ s) = if p c then c ∷ s else from p s

pub until-from : (p : ℕ → Bool) (s : Bytes) → until p s ++ from p s ≡ s
unfolding until from
until-from p [] = refl
until-from p (c ∷ s) = ground (arith, until-from p s)

pub length-from-le : (p : ℕ → Bool) (s : Bytes) → length (from p s) ≤ length s
unfolding from
length-from-le p [] = omega arith
length-from-le p (c ∷ s) = ground (arith, length-from-le p s)

pub All-until : (p : ℕ → Bool) (s : Bytes) → All (λ c. p c ≡ false) (until p s)
unfolding until
All-until p [] = tt
All-until p (c ∷ s) = ground (arith, All-until p s)

-- The text from the match begins with a character that passes.
pub from_head : (p : ℕ → Bool) (s : Bytes) {d : ℕ} {r : Bytes} → from p s ≡ d ∷ r → p d ≡ true
unfolding from
from_head p [] e = cc
from_head p (c ∷ s) {d} {r} e = ground (arith, from_head p s {d = d} {r = r})

pub until-append_from :
    (p : ℕ → Bool) (s : Bytes) {d : ℕ} {r : Bytes} → from p s ≡ d ∷ r → s ≡ until p s ++ d ∷ r
until-append_from p s e = sym (rw e at (until-from p s))

-- No match: the text before it is the whole text.
pub until_all : (p : ℕ → Bool) (s : Bytes) → from p s ≡ [] → until p s ≡ s
until_all p s e = rw (e, append-nil) at (until-from p s)

-- How often a text stands in a list.
abbrev pub count : Bytes → List Bytes → ℕ
count k [] = 0
count k (j ∷ js) = (if beq j k then 1 else 0) + count k js

pub count-append : (k : Bytes) (js ls : List Bytes) → count k (js ++ ls) ≡ count k js + count k ls
count-append k [] ls = omega arith
count-append k (j ∷ js) ls = omega (arith, count-append k js ls)
