-- ===== src/Text/Url/Joined.antt =====
-- What stands between the two parts of a joined URL.
use libupnpp.Prelude.{
  ℕ, false, [], ◌∷◌, ◌++◌, ◌≡◌, refl, append_assoc, none, some, Bytes, pop_back-append,
}
use libupnpp.Text.Tokens.{find_sep}
use libupnpp.Text.Url.{colon_slashes, is_slash, back_of, joint, joined, if_relative, caturl}

back_of-append : (s : Bytes) (c : ℕ) → back_of (s ++ c ∷ []) ≡ some c
back_of-append [] c = refl
back_of-append (d ∷ []) c = refl
back_of-append (d ∷ e ∷ s) c = back_of-append (e ∷ s) c

find_sep_rooted :
    (s : Bytes) → find_sep colon_slashes s ≡ none → find_sep colon_slashes (b'/' ∷ s) ≡ none
unfolding find_sep
find_sep_rooted s e = rw e refl

-- However many of the two parts have the slash, the joined URL has one there: a base that ends with a
-- slash or not and a relative part that begins with one or not, and is no URL itself, give the same.
pub caturl_slash :
    (base rel : Bytes) (b c : ℕ)
    → is_slash b ≡ false
    → is_slash c ≡ false
    → find_sep colon_slashes (c ∷ rel) ≡ none
    → (caturl (base ++ b ∷ []) (c ∷ rel) ≡ some ((base ++ b ∷ []) ++ b'/' ∷ c ∷ rel))
      × (caturl (base ++ b ∷ []) (b'/' ∷ c ∷ rel) ≡ some ((base ++ b ∷ []) ++ b'/' ∷ c ∷ rel))
      × (caturl ((base ++ b ∷ []) ++ b'/' ∷ []) (c ∷ rel)
          ≡ some ((base ++ b ∷ []) ++ b'/' ∷ c ∷ rel))
      × (caturl ((base ++ b ∷ []) ++ b'/' ∷ []) (b'/' ∷ c ∷ rel)
          ≡ some ((base ++ b ∷ []) ++ b'/' ∷ c ∷ rel))
unfolding caturl if_relative joined joint
caturl_slash base rel b c hb hc plain = (
  rw (plain, back_of-append base b, hb, hc, append_assoc) refl,
  rw (find_sep_rooted (c ∷ rel) plain, back_of-append base b, hb) refl,
  rw (plain, back_of-append (base ++ b ∷ []) b'/', hc, append_assoc) refl,
  rw
      (
        find_sep_rooted (c ∷ rel) plain,
        back_of-append (base ++ b ∷ []) b'/',
        pop_back-append (base ++ b ∷ []) b'/',
      )
      refl,
)
