-- ===== src/VirtualDir/Handles.antt =====
-- libupnpp/device/vdir.cxx: a file of the virtual directory is opened, read, sought in and closed.
use libupnpp.Prelude.{
  ℕ, zero, suc, Bool, false, List, [], Option, none, some, ◌==◌, if◌then◌else◌, length, Bytes, find,
}
use libupnpp.Prelude.Int.{ℤ, pos, negsuc, ◌+ℤ◌}
use libupnpp.VirtualDir.{
  FileEnt, FileOps, DirEnt, Dirs, Handle, as_int, read_at, Found, nothing, virtual, no_file, file,
  vdgetentry,
}

abbrev same_int : ℤ → ℤ → Bool
same_int (pos a) (pos b) = a == b
same_int (negsuc a) (negsuc b) = a == b
same_int _ _ = false

module _ {H W : Type 0} where
  -- `vdopen`: no handle stands for NULL.
  abbrev opened : Bytes → Option H × W → Option (Handle H) × W
  opened k (none, w) = (none, w)
  opened k (some h, w) =
      (some (record { entry = none; dir = some k; vhandle = some h; offset = pos 0 }), w)

  abbrev call_open : Bytes → Option (FileOps H W) → Bytes → W → Option (Option (Handle H) × W)
  call_open k none path w = none
  call_open k (some o) path w = some (opened k (o.open_file path w))

  abbrev open_found : Found H W → Bytes → W → Option (Option (Handle H) × W)
  open_found nothing path w = some (none, w)
  open_found (virtual k d) path w = call_open k d.ops path w
  open_found (no_file k d) path w = some (none, w)
  open_found (file k name e) path w =
      some (some (record { entry = some (k, name); dir = none; vhandle = none; offset = pos 0 }), w)

  unfoldable pub vdopen : Bytes → Dirs H W → W → Option (Option (Handle H) × W)
  vdopen path s w = open_found (vdgetentry path s) path w

  -- What the handle's pointers lead to.
  abbrev pub files_of : Option (DirEnt H W) → List (Bytes × FileEnt)
  files_of none = []
  files_of (some d) = d.files

  abbrev pub entry_at : Option (Bytes × Bytes) → Dirs H W → Option FileEnt
  entry_at none s = none
  entry_at (some (k, name)) s = find name (files_of (find k s.dirs))

  abbrev pub entry_of : Handle H → Dirs H W → Option FileEnt
  entry_of h s = entry_at h.entry s

  abbrev dir_ops : Option (DirEnt H W) → Option (FileOps H W)
  dir_ops none = none
  dir_ops (some d) = d.ops

  abbrev pub ops_of : Option Bytes → Dirs H W → Option (FileOps H W)
  ops_of none s = none
  ops_of (some k) s = dir_ops (find k s.dirs)

  -- `vdread`: the returned number, the bytes put into the buffer, and the handle after it.
  abbrev local_read : Handle H → W → Option (ℕ × Bytes) → Option (ℤ × Bytes × Handle H × W)
  local_read h w none = none
  local_read h w (some (k, out)) = some (as_int k, out, record h { offset = h.offset +ℤ pos k }, w)

  abbrev read_entry : Option FileEnt → Handle H → ℕ → W → Option (ℤ × Bytes × Handle H × W)
  read_entry none h n w = none
  read_entry (some e) h n w = local_read h w (read_at e.content h.offset n)

  abbrev kept : Handle H → ℤ × Bytes × W → ℤ × Bytes × Handle H × W
  kept h (r, out, w) = (r, out, h, w)

  abbrev call_read : Option (FileOps H W) → Handle H → H → ℕ → W → Option (ℤ × Bytes × Handle H × W)
  call_read none h v n w = none
  call_read (some o) h v n w = some (kept h (o.read v n w))

  abbrev read_handle : Option H → Handle H → ℕ → Dirs H W → W → Option (ℤ × Bytes × Handle H × W)
  read_handle none h n s w = read_entry (entry_of h s) h n w
  read_handle (some v) h n s w = call_read (ops_of h.dir s) h v n w

  unfoldable pub vdread : Handle H → ℕ → Dirs H W → W → Option (ℤ × Bytes × Handle H × W)
  vdread h n s w = if n == 0 then some (pos 0, [], h, w) else read_handle h.vhandle h n s w

  -- `vdseek`. The error number is libupnp's.
  abbrev sought : ℤ → ℤ → Handle H → ℤ × W → ℤ × Handle H × W
  sought invalid offset h (r, w) = (if same_int r offset then pos 0 else invalid, h, w)

  abbrev call_seek : ℤ → Option (FileOps H W) → Handle H → H → ℤ → ℤ → W → Option (ℤ × Handle H × W)
  call_seek invalid none h v offset origin w = none
  call_seek invalid (some o) h v offset origin w =
      some (sought invalid offset h (o.seek v offset origin w))

  abbrev seek_end : Option FileEnt → Handle H → ℤ → W → Option (ℤ × Handle H × W)
  seek_end none h offset w = none
  seek_end (some e) h offset w =
      some (pos 0, record h { offset = pos (length e.content) +ℤ offset }, w)

  abbrev seek_local : ℤ → Handle H → ℤ → ℤ → Dirs H W → W → Option (ℤ × Handle H × W)
  seek_local invalid h offset (pos zero) s w = some (pos 0, record h { offset = offset }, w)
  seek_local invalid h offset (pos (suc zero)) s w =
      some (pos 0, record h { offset = h.offset +ℤ offset }, w)
  seek_local invalid h offset (pos (suc (suc zero))) s w = seek_end (entry_of h s) h offset w
  seek_local invalid h offset _ s w = some (invalid, h, w)

  abbrev seek_handle : ℤ → Option H → Handle H → ℤ → ℤ → Dirs H W → W → Option (ℤ × Handle H × W)
  seek_handle invalid none h offset origin s w = seek_local invalid h offset origin s w
  seek_handle invalid (some v) h offset origin s w =
      call_seek invalid (ops_of h.dir s) h v offset origin w

  unfoldable pub vdseek : ℤ → Handle H → ℤ → ℤ → Dirs H W → W → Option (ℤ × Handle H × W)
  vdseek invalid h offset origin s w = seek_handle invalid h.vhandle h offset origin s w

  -- `vdclose`: the client's part; the handle is freed.
  abbrev call_close : Option (FileOps H W) → H → W → Option (ℤ × W)
  call_close none v w = none
  call_close (some o) v w = some (pos 0, o.close v w)

  abbrev close_handle : Option H → Handle H → Dirs H W → W → Option (ℤ × W)
  close_handle none h s w = some (pos 0, w)
  close_handle (some v) h s w = call_close (ops_of h.dir s) v w

  unfoldable pub vdclose : Handle H → Dirs H W → W → Option (ℤ × W)
  vdclose h s w = close_handle h.vhandle h s w
