-- ===== src/VirtualDir/Files.antt =====
-- Files and directories that a device adds are what the library's server finds.
use libupnpp.Prelude.{
  ℕ, Bool, true, false, List, [], ◌∷◌, ◌++◌, ◌≡◌, ◌≢◌, refl, sym, ap, ◌∙◌, Option, none, some,
  length, if◌then◌else◌, Bytes, Lacks, find, assign, find-assign, beq, beq→eq, beq_refl, Bool-cases,
  inl, inr,
}
use libupnpp.Prelude.Int.{pos}
use libupnpp.VirtualDir.{
  slash_ends, path_catslash, FileEnt, FileOps, DirEnt, Dirs, Handle, dir_or, register, add_file,
  add_vdir, vdgetentry, vdgetinfo,
}
use libupnpp.VirtualDir.Handles.{entry_of, files_of}
use libupnpp.VirtualDir.Paths.{path_getfather-path_getsimple, path_catslash_ended}

pub find_assigned {ℓ} :
    {V : Type ℓ} (k : Bytes) (v : V) (m : List (Bytes × V)) → find k (assign k v m) ≡ some v
find_assigned k v m = rw (find-assign k k v m, beq_refl k) refl

-- The keys of a map, and those after an assignment.
abbrev pub keys {ℓ} : {V : Type ℓ} → List (Bytes × V) → List Bytes
keys [] = []
keys ((k, v) ∷ m) = k ∷ keys m

abbrev key_added {ℓ} : {V : Type ℓ} → Bytes → Option V → List Bytes → List Bytes
key_added k none ks = ks ++ k ∷ []
key_added k (some v) ks = ks

keys-assign_step {ℓ} :
    {V : Type ℓ} (k j : Bytes) (o : Option V) (ks ls : List Bytes)
    → ls ≡ key_added k o ks
    → j ∷ ls ≡ key_added k o (j ∷ ks)
keys-assign_step k j none ks ls e = ap (◌∷◌ j) e
keys-assign_step k j (some v) ks ls e = ap (◌∷◌ j) e

keys-assign {ℓ} :
    {V : Type ℓ} (k : Bytes) (v : V) (m : List (Bytes × V))
    → keys (assign k v m) ≡ key_added k (find k m) (keys m)
unfolding assign find
keys-assign k v [] = refl
keys-assign k v ((j, w) ∷ m) = elim (Bool-cases (beq j k)) [
  | inl e ↦ rw e (ap (λ h. h ∷ keys m) (sym (beq→eq j k e)))
  | inr e ↦ rw e (keys-assign_step k j (find k m) (keys m) _ (keys-assign k v m))
]

module _ {H W : Type 0} where
  abbrev pub virtual_dir : Option (DirEnt H W) → Bool
  virtual_dir none = false
  virtual_dir (some d) = d.isvd

  dir_or-isvd : (d : Option (DirEnt H W)) → virtual_dir d ≡ false → (dir_or false d).isvd ≡ false
  dir_or-isvd none h = refl
  dir_or-isvd (some d) h = h

  -- A file added to a directory that is not an `addVDir` one, under a name that is not empty and has no
  -- slash, is what a lookup of its path finds, and `vdgetinfo` gives its length, date and type, whether
  -- the directory was named with its final slash or without.
  pub vdgetinfo-add_file :
      (now : ℕ) (p dir name content mimetype : Bytes) (s : Dirs H W) (w : W)
      → slash_ends p ≡ false
      → path_catslash dir ≡ p ++ 47 ∷ []
      → name ≢ []
      → Lacks 47 name
      → s.available ≡ true
      → virtual_dir (find (p ++ 47 ∷ []) s.dirs) ≡ false
      → vdgetinfo (p ++ 47 ∷ name) (add_file now dir name content mimetype s).1 w
        ≡ some (
          pos 0,
          some (record {
            file_length = length content;
            last_modified = now;
            is_directory = false;
            is_readable = true;
            mime = mimetype;
          }),
          w,
        )
  unfolding vdgetinfo vdgetentry add_file
  vdgetinfo-add_file now p dir name content mimetype s w hp hd hn hl av hv =
      let cut = path_getfather-path_getsimple p name hp hn hl in
      let new : FileEnt = record { mtime = now; mimetype = mimetype; content = content } in
      let old = dir_or false (find (p ++ 47 ∷ []) s.dirs) in
      rw
        (
          cut.0,
          cut.1,
          path_catslash_ended p,
          hd,
          av,
          find_assigned (p ++ 47 ∷ []) (record old { files = assign name new old.files }) s.dirs,
          dir_or-isvd (find (p ++ 47 ∷ []) s.dirs) hv,
          find_assigned name new old.files,
        )
        refl

  register_lem :
      (k : Bytes) (o : Option (DirEnt H W)) (r : List Bytes) → register k o r ≡ key_added k o r
  register_lem k none r = refl
  register_lem k (some d) r = refl

  -- The directories that libupnp was told of.
  abbrev pub IsRegistered : Dirs H W → Type 0
  IsRegistered s = s.registered ≡ keys s.dirs

  -- `addFile` and `addVDir` keep libupnp's list of virtual directories equal to the keys of the map:
  -- each directory is announced once, when it is made, and never again.
  pub add_file-add_vdir-IsRegistered :
      (now : ℕ) (dir name content mimetype : Bytes) (fops : FileOps H W) (s : Dirs H W)
      → IsRegistered s
      → IsRegistered (add_file now dir name content mimetype s).1
        × IsRegistered (add_vdir dir fops s).1
  unfolding add_file add_vdir
  add_file-add_vdir-IsRegistered now dir name content mimetype fops s v =
      let k = path_catslash dir in
      let same = register_lem k (find k s.dirs) s.registered ∙ ap (key_added k (find k s.dirs)) v in
      (same ∙ sym (keys-assign k _ s.dirs), same ∙ sym (keys-assign k _ s.dirs))

  -- A handle that is open on a file sees what a later `addFile` puts in its place: the handle refers to
  -- the entry of the map. Other files of the directory are not touched.
  pub entry_of-add_file :
      (now : ℕ) (dir name other content mimetype : Bytes) (s : Dirs H W) (h : Handle H)
      → h.entry ≡ some (path_catslash dir, other)
      → entry_of h (add_file now dir name content mimetype s).1 ≡ (
          if beq name other
          then some (record { mtime = now; mimetype = mimetype; content = content })
          else entry_of h s)
  unfolding add_file find
  entry_of-add_file now dir name other content mimetype s h e =
      let k = path_catslash dir in
      let new : FileEnt = record { mtime = now; mimetype = mimetype; content = content } in
      let old = dir_or false (find k s.dirs) in
      rw
        (
          e,
          find_assigned k (record old { files = assign name new old.files }) s.dirs,
          find-assign name other new old.files,
        )
        (ap (λ r. if beq name other then some new else r) (same_files (find k s.dirs)))
    where
      same_files :
          (o : Option (DirEnt H W)) → find other (dir_or false o).files ≡ find other (files_of o)
      same_files none = refl
      same_files (some d) = refl
