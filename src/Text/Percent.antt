-- ===== src/Text/Percent.antt =====
-- Percent sequences: `pcSubst`, `h2d`, `pc_decode` and `hexprint` of libupnpp/smallut.cpp, and
-- `reSanitizeURL` of libupnpp/upnpplib.cxx, whose option string is an argument.
pub mod Url
pub mod Substitute
use libupnpp.Prelude.{
  ℕ, zero, suc, ◌+◌, ◌-◌, ◌*◌, ◌/◌, ◌%◌, Bool, true, false, [], ◌∷◌, ◌++◌, Option, none, some, List,
  Bytes, codes, until, from, beq, ◌==◌, if◌then◌else◌, one_of, leb, ltb, ◌&&◌, ◌||◌, get_or, find,
  length,
}

-- `none` is the result -1.
h2d : ℕ → Option ℕ
h2d c =
    if leb b'0' c && leb c b'9'
    then some (c - b'0')
    else if leb b'A' c && leb c b'F'
    then some (10 + c - b'A')
    else if leb b'a' c && leb c b'f'
    then some (10 + c - b'a')
    else none

-- What is appended for `%xy`, a char being taken modulo 256.
decoded : ℕ → ℕ → Option ℕ → Option ℕ → Bytes
decoded x y (some d1) (some d2) = ((d1 * 16 + d2) % 256) ∷ []
decoded x y none _ = b'%' ∷ x ∷ y ∷ []
decoded x y (some d1) none = b'%' ∷ x ∷ y ∷ []

-- Both loops: while three characters are left a percent sign is decoded, the last two are copied.
unfoldable pub pc_decode : Bytes → Bytes
unfolding h2d decoded
pc_decode [] = []
pc_decode (a ∷ []) = a ∷ []
pc_decode (a ∷ b ∷ []) = a ∷ b ∷ []
pc_decode (a ∷ b ∷ c ∷ s) =
    if a == b'%' then decoded b c (h2d b) (h2d c) ++ pc_decode s else a ∷ pc_decode (b ∷ c ∷ s)

abbrev hex_upper : Bytes
hex_upper = codes "0123456789ABCDEF"

-- What is appended for one character.
sanitized : Bytes → ℕ → Bytes
sanitized resanitizedchars c =
    if leb c 0x20 || leb 0x7f c || one_of resanitizedchars c
    then b'%' ∷ get_or hex_upper (c / 16 % 16) 0 ∷ get_or hex_upper (c % 16) 0 ∷ []
    else c ∷ []

unfoldable pub re_sanitize_url : Bytes → Bytes → Bytes
unfolding sanitized
re_sanitize_url resanitizedchars [] = []
re_sanitize_url resanitizedchars (c ∷ s) =
    sanitized resanitizedchars c ++ re_sanitize_url resanitizedchars s

abbrev hex_lower : Bytes
hex_lower = codes "0123456789abcdef"

-- A separator of 0 is none, and none stands behind the last byte.
unfoldable pub hexprint : Bytes → ℕ → Bytes
hexprint [] separ = []
hexprint (c ∷ []) separ = get_or hex_lower (c / 16) 0 ∷ get_or hex_lower (c % 16) 0 ∷ []
hexprint (c ∷ d ∷ s) separ =
    get_or hex_lower (c / 16) 0 ∷ get_or hex_lower (c % 16) 0 ∷ []
    ++ ((if separ == 0 then [] else separ ∷ []) ++ hexprint (d ∷ s) separ)

-- `pcSubst` over a map from characters; a map is a function.
char_subst : (ℕ → Option Bytes) → ℕ → Bytes
char_subst subs c = elim (subs c) [ none ↦ b'%' ∷ c ∷ [] | some v ↦ v ]

unfoldable pub pc_subst_chars : (ℕ → Option Bytes) → Bytes → Bytes
unfolding char_subst
pc_subst_chars subs [] = []
pc_subst_chars subs (c ∷ []) = c ∷ []
pc_subst_chars subs (c ∷ d ∷ s) =
    if c == b'%'
    then (if d == b'%' then b'%' ∷ [] else char_subst subs d) ++ pc_subst_chars subs s
    else c ∷ pc_subst_chars subs (d ∷ s)

-- `pcSubst` over a mapper of keys, on fuel: `%k`, `%(key)`. `none` is out of fuel.
abbrev prepend : Bytes → Option Bytes → Option Bytes
prepend u none = none
prepend u (some out) = some (u ++ out)

subst_loop : ℕ → (Bytes → Bytes) → Bytes → Option Bytes
subst_loop zero mapper s = none
subst_loop (suc fuel) mapper [] = some []
subst_loop (suc fuel) mapper (c ∷ s) = elim (c == b'%') [
  | false ↦ prepend (c ∷ []) (subst_loop fuel mapper s)
  | true ↦ elim s [
    | [] ↦ some (b'%' ∷ [])
    | d ∷ t ↦ elim (d == b'%') [
      | true ↦ prepend (b'%' ∷ []) (subst_loop fuel mapper t)
      | false ↦ elim (d == b'(') [
        | false ↦ prepend (mapper (d ∷ [])) (subst_loop fuel mapper t)
        | true ↦ elim t [
          | [] ↦ some (codes "%(")
          | e ∷ u ↦ elim (from (λ x. x == b')') (e ∷ u)) [
            | [] ↦ some (b'%' ∷ b'(' ∷ e ∷ u)
            | _ ∷ rest ↦
                prepend (mapper (until (λ x. x == b')') (e ∷ u))) (subst_loop fuel mapper rest)
          ]
        ]
      ]
    ]
  ]
]

unfoldable pub pc_subst : (Bytes → Bytes) → Bytes → Option Bytes
unfolding subst_loop
pc_subst mapper s = subst_loop (suc (length s)) mapper s

is_single : Bytes → Bool
is_single [] = false
is_single (c ∷ []) = true
is_single (c ∷ d ∷ s) = false

-- `PcSubstMapMapper::domap`
unfoldable pub domap : List (Bytes × Bytes) → Bytes → Bytes
unfolding is_single
domap subs key = elim (find key subs) [
  | some v ↦ v
  | none ↦ b'%' ∷ (if is_single key then key else b'(' ∷ key ++ b')' ∷ [])
]
