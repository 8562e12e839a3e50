-- ===== src/ContentDirectory/Serving.antt =====
-- libupnpp/control/cdirectory.cxx, `readDirSlice`: what it makes of the answers of a server.
use libupnpp.Prelude.{
  ℕ, zero, suc, ◌<◌, ◌^◌, true, List, [], ◌∷◌, ◌≡◌, refl, ap, ◌∙◌, arith, some, if◌then◌else◌, leb,
  Bytes, codes, find, length, take, drop, length-drop,
}
use libupnpp.Prelude.Int.{pos}
use libupnpp.Text.Decimal.{atoi}
use libupnpp.Text.Decimal.Print.{atoi-i2s}
use libupnpp.Soap.{insert_all, int_of, get_int, get_string}
use libupnpp.Soap.Laws.{find-insert_all}
use libupnpp.Control.{Service, Lib, run_action}
use libupnpp.Control.Actions.{same_int_refl}
use libupnpp.ContentDirectory.{all_three, answered_of, browsed, ask_slice, slice_of, read_dir_slice}

pub length-take {ℓ} :
    {A : Type ℓ} (n : ℕ) (xs : List A)
    → length (take n xs) ≡ (if leb n (length xs) then n else length xs)
length-take zero xs = ground arith
length-take (suc n) [] = ground arith
length-take (suc n) (x ∷ xs) = ground (arith, length-take n xs)

-- The arguments of a call of Browse.
abbrev pub browse_args : Bytes → Bytes → Bytes → List (Bytes × Bytes)
browse_args object_id o c =
    (codes "ObjectID", object_id)
    ∷ (codes "BrowseFlag", codes "BrowseDirectChildren")
    ∷ (codes "Filter", codes "*")
    ∷ (codes "SortCriteria", [])
    ∷ (codes "StartingIndex", o)
    ∷ (codes "RequestedCount", c)
    ∷ []

-- An answer has these values, among others and in any order.
abbrev pub IsAnswer : List (Bytes × Bytes) → Bytes → Bytes → Bytes → Type 0
IsAnswer response n t result =
    (find (codes "NumberReturned") response ≡ some n)
    × (find (codes "TotalMatches") response ≡ some t)
    × (find (codes "Result") response ≡ some result)

-- As many entries as are asked for, but no more than `most`.
abbrev pub at_most : ℕ → ℕ → ℕ
at_most most count = if leb count most then count else most

module _ {E : Type 0} where
  abbrev pub served : ℕ → List E → ℕ → ℕ → List E
  served most kids offset count = take (at_most most count) (drop offset kids)

  pub served_some :
      (most : ℕ) (kids : List E) (offset count : ℕ)
      → 0 < most
      → 0 < count
      → offset < length kids
      → 0 < length (served most kids offset count)
  served_some most kids offset count m c o = ground (
    arith,
    length-take (if leb count most then count else most) (drop offset kids),
    length-drop offset kids,
    m,
    c,
    o,
  )

module _ {E W : Type 0} where
  -- The server has these entries in the container, and answers a call of Browse for a position among
  -- them and a number of entries by the entries from there on, as many as were asked for and are there,
  -- but no more than `most`: it writes them, and gives their number and the number of all.
  abbrev pub Serves : Lib W → Service → Bytes → ℕ → (List E → Bytes) → List E → Type 0
  Serves lib s object_id most write kids =
      (offset count : ℕ) (o c : Bytes) (w : W)
      → atoi o ≡ pos offset
      → atoi c ≡ pos count
      → offset < length kids
      → 0 < count
      → (response : List (Bytes × Bytes)) × (n : Bytes) × (t : Bytes) × (v : W)
        × (lib.client.send_action s.action_url s.service_type (codes "Browse")
              (browse_args object_id o c) [] w
            ≡ ((lib.codes.success, response), v))
        × IsAnswer response n t (write (served most kids offset count))
        × (atoi n ≡ pos (length (served most kids offset count)))
        × (atoi t ≡ pos (length kids))

int_read : (n : Bytes) (k : ℕ) → atoi n ≡ pos k → 0 < k → int_of (some n) ≡ some (pos k)
unfolding atoi
int_read [] zero e h = absurd (omega (arith, h))
int_read [] (suc k) e h = cc
int_read (c ∷ n) k e h = ap some e

answer_read :
    (name : Bytes) (response : List (Bytes × Bytes)) (n t result : Bytes)
    → IsAnswer response n t result
    → answered_of (record { name = name; args = insert_all response [] })
      ≡ all_three (int_of (some n)) (int_of (some t)) (some result)
unfolding answered_of get_int get_string find
answer_read name response n t result (en, et, er) =
    rw
      (
        find-insert_all (codes "NumberReturned") response [] ∙ en,
        find-insert_all (codes "TotalMatches") response [] ∙ et,
        find-insert_all (codes "Result") response [] ∙ er,
      )
      refl

module _ {B W : Type 0} where
  -- What is made of a server's answer with at least one entry.
  slice_of-answer :
      (parse : Bytes → B → B) (lib : Lib W) (buf : B) (name : Bytes)
      (response : List (Bytes × Bytes)) (n t result : Bytes) (k m : ℕ) (v : W)
      → IsAnswer response n t result
      → atoi n ≡ pos k
      → atoi t ≡ pos m
      → 0 < k
      → 0 < m
      → slice_of
          (browsed parse lib)
          lib
          buf
          (some ((lib.codes.success, record { name = name; args = insert_all response [] }), v))
        ≡ some (record {
          ret = lib.codes.success;
          buf = parse result buf;
          didread = pos k;
          total = pos m;
          world = v;
        })
  unfolding slice_of
  slice_of-answer parse lib buf name response n t result zero m v is en et hk hm =
      absurd (omega (arith, hk))
  slice_of-answer parse lib buf name response n t result (suc k) m v is en et hk hm =
      rw (same_int_refl lib.codes.success) (
        ap (λ a. some (browsed parse lib buf a v))
          (answer_read name response n t result is
            ∙ ap (λ i. all_three i (int_of (some t)) (some result)) (int_read n (suc k) en hk)
            ∙ ap (λ i. all_three (some (pos (suc k))) i (some result)) (int_read t m et hm)))

module _ {B E W : Type 0} where
  -- A slice of a server: the texts of its entries are parsed into the buffer.
  pub read_dir_slice-Serves :
      (parse : Bytes → B → B) (write : List E → Bytes) (lib : Lib W) (s : Service)
      (object_id : Bytes) (most offset count : ℕ) (kids : List E) (buf : B) (w : W)
      → lib.present ≡ true
      → Serves lib s object_id most write kids
      → 0 < most
      → 0 < count
      → count < 2 ^ 31
      → offset < length kids
      → length kids < 2 ^ 31
      → (v : W) × (read_dir_slice parse lib s object_id offset count buf w
          ≡ some (record {
            ret = lib.codes.success;
            buf = parse (write (served most kids offset count)) buf;
            didread = pos (length (served most kids offset count));
            total = pos (length kids);
            world = v;
          }))
  unfolding read_dir_slice ask_slice run_action
  read_dir_slice-Serves parse write lib s object_id most offset count kids buf w there serves hm hc
        cs ho ks =
      let (o, eo, ro) = atoi-i2s (pos offset) (omega (arith, ho, ks)) (omega arith) in
      let (c, ec, rc) = atoi-i2s (pos count) (omega (arith, cs)) (omega arith) in
      let (response, n, t, v, sent, is, rn, rt) = serves offset count o c w ro rc ho hc in
      (
        v,
        rw (eo, ec, there, sent, same_int_refl lib.codes.success)
            (slice_of-answer parse lib buf (codes "Browse") response n t
              (write (served most kids offset count)) (length (served most kids offset count))
              (length kids) v is rn rt (served_some most kids offset count hm hc ho)
              (omega (arith, ho))),
      )
