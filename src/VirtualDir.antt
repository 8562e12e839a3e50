-- ===== src/VirtualDir.antt =====
-- libupnpp/device/vdir.cxx, and the path functions of libupnpp/upnpplib.cxx: the virtual directory
-- that a device serves its files from. libupnp calls `vdgetinfo`, `vdopen`, `vdread`, `vdseek` and
-- `vdclose` with the paths of requests. A handle refers to the entry in the map, not to a copy, so it
-- holds the keys here. The operations of an `addVDir` directory are the client's, and act on the
-- client's world `W`. The outcome `none` is behaviour that C++ leaves undefined: a read before the
-- start of the content, or a call of an empty function.
pub mod Paths
pub mod Handles
pub mod Files
pub mod Reads
mod Tests
use libupnpp.Prelude.{
  ℕ, zero, suc, ◌+◌, ◌-◌, ◌*◌, ◌%◌, ◌^◌, Bool, true, false, not, List, [], ◌∷◌, ◌++◌, Option, none,
  some, ltb, leb, ◌==◌, if◌then◌else◌, ◌&&◌, ◌||◌, length, take, drop, Bytes, codes, pop_back, find,
  assign,
}
use libupnpp.Prelude.Int.{ℤ, pos, negsuc, ◌+ℤ◌, ◌-ℤ◌, sub_ℕ}

-- The last byte is a slash.
abbrev pub slash_ends : Bytes → Bool
slash_ends [] = false
slash_ends (c ∷ []) = c == 47
slash_ends (c ∷ d ∷ s) = slash_ends (d ∷ s)

unfoldable pub path_catslash : Bytes → Bytes
path_catslash s = if slash_ends s then s else s ++ 47 ∷ []

-- `rfind('/')`: the text before and after the last slash.
abbrev pub split_here : ℕ → Bytes → Option (Bytes × Bytes) → Option (Bytes × Bytes)
split_here c s (some (a, b)) = some (c ∷ a, b)
split_here c s none = if c == 47 then some ([], s) else none

abbrev pub last_slash : Bytes → Option (Bytes × Bytes)
last_slash [] = none
last_slash (c ∷ s) = split_here c s (last_slash s)

abbrev father_of : Option (Bytes × Bytes) → Bytes
father_of none = codes "./"
father_of (some (a, b)) = path_catslash a

unfoldable pub path_getfather : Bytes → Bytes
path_getfather [] = codes "./"
path_getfather (c ∷ s) =
    if slash_ends (c ∷ s)
    then (if length (c ∷ s) == 1 then c ∷ s else father_of (last_slash (pop_back (c ∷ s))))
    else father_of (last_slash (c ∷ s))

abbrev simple_of : Bytes → Option (Bytes × Bytes) → Bytes
simple_of s none = s
simple_of s (some (a, b)) = b

unfoldable pub path_getsimple : Bytes → Bytes
path_getsimple s = simple_of s (last_slash s)

pub record FileEnt : Type 0 where
  pub mtime : ℕ
  pub mimetype : Bytes
  pub content : Bytes

pub record FileInfo : Type 0 where
  pub file_length : ℕ
  pub last_modified : ℕ
  pub is_directory : Bool
  pub is_readable : Bool
  pub mime : Bytes

-- What a client gives `addVDir`: `H` is its handle, `W` its world.
pub record FileOps (H W : Type 0) : Type 0 where
  pub getinfo : Bytes → W → ℤ × FileInfo × W
  pub open_file : Bytes → W → Option H × W
  pub read : H → ℕ → W → ℤ × Bytes × W
  pub seek : H → ℤ → ℤ → W → ℤ × W
  pub close : H → W → W

pub record DirEnt (H W : Type 0) : Type 0 where
  pub isvd : Bool
  pub files : List (Bytes × FileEnt)
  pub ops : Option (FileOps H W)

-- `available` says that `getVirtualDir` has an object to give; `registered` is what libupnp was told
-- by `UpnpAddVirtualDir`, in order.
pub record Dirs (H W : Type 0) : Type 0 where
  pub available : Bool
  pub dirs : List (Bytes × DirEnt H W)
  pub registered : List Bytes

pub record Handle (H : Type 0) : Type 0 where
  pub entry : Option (Bytes × Bytes)
  pub dir : Option Bytes
  pub vhandle : Option H
  pub offset : ℤ

-- `int(n)`
abbrev pub as_int : ℕ → ℤ
as_int n = let r = n % 2 ^ 32 in if ltb r (2 ^ 31) then pos r else negsuc (2 ^ 32 - 1 - r)

-- `memcpy` from the content at the offset, for a buffer of `n` bytes.
unfoldable pub read_at : Bytes → ℤ → ℕ → Option (ℕ × Bytes)
read_at content (pos o) n =
    if leb (length content) o
    then some (0, [])
    else let k = if ltb (length content - o) n then length content - o else n in
      some (k, take k (drop o content))
read_at content (negsuc o) n = none

-- The entry and the directory that `vdgetentry` finds, with their keys.
pub data Found (H W : Type 0) : Type 0 where
  nothing : Found H W
  virtual : Bytes → DirEnt H W → Found H W
  no_file : Bytes → DirEnt H W → Found H W
  file : Bytes → Bytes → FileEnt → Found H W

-- `vdgetinfo`: the returned number, and the information that it sets.
abbrev no_info : {W : Type 0} → ℤ × FileInfo × W → ℤ × Option FileInfo × W
no_info (pos n, info, w) = (pos n, some info, w)
no_info (negsuc n, info, w) = (negsuc n, none, w)

abbrev info_of : FileEnt → FileInfo
info_of e = record {
  file_length = length e.content;
  last_modified = e.mtime;
  is_directory = false;
  is_readable = true;
  mime = e.mimetype;
}

module _ {H W : Type 0} where
  -- `m_dirs[path]`, which is made if it is missing.
  abbrev pub dir_or : Bool → Option (DirEnt H W) → DirEnt H W
  dir_or vd (some d) = d
  dir_or vd none = record { isvd = vd; files = []; ops = none }

  abbrev pub register : Bytes → Option (DirEnt H W) → List Bytes → List Bytes
  register path (some d) r = r
  register path none r = r ++ path ∷ []

  -- The clock's reading is an argument.
  unfoldable pub add_file : ℕ → Bytes → Bytes → Bytes → Bytes → Dirs H W → Bool × Dirs H W
  add_file now _path name content mimetype s =
      let path = path_catslash _path in
      let old = find path s.dirs in
      let d = dir_or false old in
      let ent : FileEnt = record { mtime = now; mimetype = mimetype; content = content } in
      (
        true,
        record s {
          dirs = assign path (record d { files = assign name ent d.files }) s.dirs;
          registered = register path old s.registered;
        },
      )

  unfoldable pub add_vdir : Bytes → FileOps H W → Dirs H W → Bool × Dirs H W
  add_vdir _path fops s =
      let path = path_catslash _path in
      let old = find path s.dirs in
      (
        true,
        record s {
          dirs = assign path (record (dir_or true old) { ops = some fops }) s.dirs;
          registered = register path old s.registered;
        },
      )

  abbrev found_file : Bytes → DirEnt H W → Bytes → Option FileEnt → Found H W
  found_file path d name none = no_file path d
  found_file path d name (some e) = file path name e

  abbrev found_dir : Bytes → Bytes → Option (DirEnt H W) → Found H W
  found_dir path name none = nothing
  found_dir path name (some d) =
      if d.isvd then virtual path d else found_file path d name (find name d.files)

  unfoldable pub vdgetentry : Bytes → Dirs H W → Found H W
  vdgetentry pathname s =
      let path = path_catslash (path_getfather pathname) in
      if not s.available
      then nothing
      else found_dir path (path_getsimple pathname) (find path s.dirs)

  abbrev call_getinfo : Option (FileOps H W) → Bytes → W → Option (ℤ × Option FileInfo × W)
  call_getinfo none path w = none
  call_getinfo (some o) path w = some (no_info (o.getinfo path w))

  abbrev info_found : Found H W → Bytes → W → Option (ℤ × Option FileInfo × W)
  info_found nothing path w = some (negsuc 0, none, w)
  info_found (virtual k d) path w = call_getinfo d.ops path w
  info_found (no_file k d) path w = some (negsuc 0, none, w)
  info_found (file k name e) path w = some (pos 0, some (info_of e), w)

  unfoldable pub vdgetinfo : Bytes → Dirs H W → W → Option (ℤ × Option FileInfo × W)
  vdgetinfo path s w = info_found (vdgetentry path s) path w
