-- ===== src/ContentDirectory.antt =====
-- libupnpp/control/cdirectory.cxx: the reading and searching of a media server's containers, slice by
-- slice. The parser of the results, which adds to the buffer, is an argument. Numbers of entries are
-- `int`s: a position past 2^31 - 1 has no result, as a loop that is out of fuel has none.
pub mod Serving
pub mod Reading
mod Tests
use libupnpp.Prelude.{
  ℕ, zero, suc, ◌+◌, ◌^◌, ◌==◌, Bool, true, false, not, ◌&&◌, List, [], ◌∷◌, ◌++◌, ◌||◌, Option,
  none, some, if◌then◌else◌, ltb, Bytes, codes,
}
use libupnpp.Prelude.Int.{ℤ, pos, negsuc}
use libupnpp.Text.Decimal.{i2s}
use libupnpp.Soap.{SoapIncoming, SoapOutgoing, get_string, get_int}
use libupnpp.Device.Dispatch.{same_int}
use libupnpp.Control.{Service, Lib, no_data, run_action}

-- What a slice gives: the result, the buffer, the numbers of entries read and there.
pub record Slice (B W : Type 0) : Type 0 where
  pub ret : ℤ
  pub buf : B
  pub didread : ℤ
  pub total : ℤ
  pub world : W

abbrev pub is_positive : ℤ → Bool
is_positive (pos zero) = false
is_positive (pos (suc n)) = true
is_positive (negsuc n) = false

-- The three elements that an answer must have.
pub record Answered : Type 0 where
  pub number_returned : ℤ
  pub total_matches : ℤ
  pub result : Bytes

abbrev pub all_three : Option ℤ → Option ℤ → Option Bytes → Option Answered
all_three none t r = none
all_three (some n) none r = none
all_three (some n) (some t) none = none
all_three (some n) (some t) (some r) =
    some (record { number_returned = n; total_matches = t; result = r })

abbrev pub answered_of : SoapIncoming → Option Answered
unfolding get_int get_string
answered_of dat =
    all_three (get_int (codes "NumberReturned") dat) (get_int (codes "TotalMatches") dat)
      (get_string (codes "Result") dat)

module _ {W : Type 0} where
  -- A call with the position and the number of entries behind its other arguments.
  abbrev pub ask_slice :
      Lib W
      → Service
      → Bytes
      → List (Bytes × Bytes)
      → Option Bytes
      → Option Bytes
      → W
      → Option ((ℤ × SoapIncoming) × W)
  unfolding run_action
  ask_slice lib s act args none c w = none
  ask_slice lib s act args (some o) none w = none
  ask_slice lib s act args (some o) (some c) w =
      run_action lib s
        (record {
          service_type = s.service_type;
          name = act;
          args = args ++ (codes "StartingIndex", o) ∷ (codes "RequestedCount", c) ∷ [];
        })
        no_data none w

module _ {B W : Type 0} where
  -- An answer to a browse: one without entries is a bad response.
  abbrev pub browsed : (Bytes → B → B) → Lib W → B → Option Answered → W → Slice B W
  browsed parse lib buf none w = record {
    ret = lib.codes.bad_response;
    buf = buf;
    didread = pos 0;
    total = pos 0;
    world = w;
  }
  browsed parse lib buf (some a) w =
      if is_positive a.number_returned
      then record {
        ret = lib.codes.success;
        buf = parse a.result buf;
        didread = a.number_returned;
        total = a.total_matches;
        world = w;
      }
      else record {
        ret = lib.codes.bad_response;
        buf = buf;
        didread = a.number_returned;
        total = a.total_matches;
        world = w;
      }

  -- An answer to a search: one without entries is a success, since the number that was asked for, which
  -- is what the code tests, is not negative.
  abbrev pub searched : (Bytes → B → B) → Lib W → B → Option Answered → W → Slice B W
  searched parse lib buf none w = record {
    ret = lib.codes.bad_response;
    buf = buf;
    didread = pos 0;
    total = pos 0;
    world = w;
  }
  searched parse lib buf (some a) w = record {
    ret = lib.codes.success;
    buf = if is_positive a.number_returned then parse a.result buf else buf;
    didread = a.number_returned;
    total = a.total_matches;
    world = w;
  }

  abbrev pub slice_of :
      (B → Option Answered → W → Slice B W)
      → Lib W
      → B
      → Option ((ℤ × SoapIncoming) × W)
      → Option (Slice B W)
  unfolding answered_of
  slice_of read lib buf none = none
  slice_of read lib buf (some ((ret, dat), w)) =
      if same_int ret lib.codes.success
      then some (read buf (answered_of dat) w)
      else some (record { ret = ret; buf = buf; didread = pos 0; total = pos 0; world = w })

  -- `readDirSlice`
  unfoldable pub read_dir_slice :
      (Bytes → B → B) → Lib W → Service → Bytes → ℕ → ℕ → B → W → Option (Slice B W)
  unfolding ask_slice slice_of
  read_dir_slice parse lib s object_id offset count buf w = slice_of (browsed parse lib) lib buf (
      ask_slice lib s (codes "Browse")
        ((codes "ObjectID", object_id)
          ∷ (codes "BrowseFlag", codes "BrowseDirectChildren")
          ∷ (codes "Filter", codes "*")
          ∷ (codes "SortCriteria", [])
          ∷ [])
        (i2s (pos offset)) (i2s (pos count)) w)

  -- `searchSlice`
  unfoldable pub search_slice :
      (Bytes → B → B) → Lib W → Service → Bytes → Bytes → ℕ → ℕ → B → W → Option (Slice B W)
  unfolding ask_slice slice_of
  search_slice parse lib s object_id ss offset count buf w = slice_of (searched parse lib) lib buf (
      ask_slice lib s (codes "Search")
        ((codes "ContainerID", object_id)
          ∷ (codes "SearchCriteria", ss)
          ∷ (codes "Filter", codes "*")
          ∷ (codes "SortCriteria", [])
          ∷ [])
        (i2s (pos offset)) (i2s (pos count)) w)

-- `total == 0 || offset < total`
abbrev pub more_there : ℕ → ℤ → Bool
more_there offset (pos t) = t == 0 || ltb offset t
more_there offset (negsuc t) = false

-- What reading a container gives: the result and the buffer.
pub record Dir (B W : Type 0) : Type 0 where
  pub ret : ℤ
  pub buf : B
  pub world : W

module _ {B W : Type 0} where
  -- The position behind a slice, from which the loop goes on if the slice was a full one. `readDir` adds
  -- to the position before it looks at that, `search` after it.
  abbrev pub behind :
      Bool → (ℕ → ℤ → B → W → Option (Dir B W)) → ℕ → ℕ → ℤ → ℤ → B → W → ℤ → Option (Dir B W)
  behind adds_first rest rdreqcnt offset (pos n) total buf w success =
      let next = rest (offset + n) total buf w in
      let fits = ltb (offset + n) (2 ^ 31) in
      if n == rdreqcnt
      then (if fits then next else none)
      else if adds_first && not fits
      then none
      else some (record { ret = success; buf = buf; world = w })
  behind adds_first rest rdreqcnt offset (negsuc n) total buf w success =
      some (record { ret = success; buf = buf; world = w })

  abbrev pub after_slice :
      Bool
      → Lib W
      → (ℕ → ℤ → B → W → Option (Dir B W))
      → ℕ
      → ℕ
      → Option (Slice B W)
      → Option (Dir B W)
  after_slice adds_first lib rest rdreqcnt offset none = none
  after_slice adds_first lib rest rdreqcnt offset (some r) =
      if same_int r.ret lib.codes.success
      then behind adds_first rest rdreqcnt offset r.didread r.total r.buf r.world lib.codes.success
      else some (record { ret = r.ret; buf = r.buf; world = r.world })

  -- The loop of `readDir` and `search`, over their slices.
  pub dir_loop :
      Bool → Lib W → (ℕ → B → W → Option (Slice B W)) → ℕ → ℕ → ℕ → ℤ → B → W → Option (Dir B W)
  dir_loop adds_first lib slice rdreqcnt zero offset total buf w = none
  dir_loop adds_first lib slice rdreqcnt (suc fuel) offset total buf w =
      if more_there offset total
      then after_slice adds_first lib (dir_loop adds_first lib slice rdreqcnt fuel) rdreqcnt offset
          (slice offset buf w)
      else some (record { ret = lib.codes.success; buf = buf; world = w })

  -- `readDir`; `search` goes on from a full slice in the same way.
  unfoldable pub read_dir :
      (Bytes → B → B) → Lib W → Service → ℕ → ℕ → Bytes → B → W → Option (Dir B W)
  unfolding dir_loop read_dir_slice
  read_dir parse lib s rdreqcnt fuel object_id buf w =
      dir_loop true lib (λ offset b v. read_dir_slice parse lib s object_id offset rdreqcnt b v)
        rdreqcnt fuel 0 (pos 0) buf w

  unfoldable pub search :
      (Bytes → B → B) → Lib W → Service → ℕ → ℕ → Bytes → Bytes → B → W → Option (Dir B W)
  unfolding dir_loop search_slice
  search parse lib s rdreqcnt fuel object_id ss buf w =
      dir_loop false lib (λ offset b v. search_slice parse lib s object_id ss offset rdreqcnt b v)
        rdreqcnt fuel 0 (pos 0) buf w
