-- ===== src/VirtualDir/Tests.antt =====
-- The theorems on the virtual directory at a directory with one file.
use libupnpp.Prelude.{
  ℕ, true, false, [], ◌∷◌, ◌++◌, ◌≡◌, ◌↔◌, refl, arith, none, some, codes, find, assign,
}
use libupnpp.Prelude.Int.{pos, negsuc}
use libupnpp.VirtualDir.{FileEnt, FileOps, Dirs, add_file, vdgetinfo, path_catslash}
use libupnpp.VirtualDir.Handles.{vdread, vdseek, entry_of}
use libupnpp.VirtualDir.Files.{vdgetinfo-add_file, IsRegistered}
use libupnpp.VirtualDir.Reads.{handle_at, is_negative, vdread-vdseek}

abbrev no_dirs : Dirs ℕ ℕ
no_dirs = record { available = true; dirs = []; registered = [] }

abbrev hello : FileEnt
hello = record { mtime = 9; mimetype = codes "text/plain"; content = codes "hello" }

abbrev one_file : Dirs ℕ ℕ
one_file = (add_file 9 (codes "/d") (codes "a") (codes "hello") (codes "text/plain") no_dirs).1

abbrev idle_ops : FileOps ℕ ℕ
idle_ops = record {
  getinfo = λ path w. (
    negsuc 0,
    record {
      file_length = 0;
      last_modified = 0;
      is_directory = false;
      is_readable = false;
      mime = [];
    },
    w,
  );
  open_file = λ path w. (none, w);
  read = λ h n w. (pos 0, [], w);
  seek = λ h o whence w. (pos 0, w);
  close = λ h w. w;
}

catslash_run : path_catslash (codes "/d") ≡ codes "/d/"
unfolding path_catslash
catslash_run = refl

entry_run :
    entry_of {W = ℕ} (handle_at {H = ℕ} (codes "/d/") (codes "a") (pos 0)) one_file ≡ some hello
unfolding add_file path_catslash find assign
entry_run = refl

vdgetinfo-add_file_example :
    vdgetinfo (codes "/d" ++ 47 ∷ codes "a") one_file 3
    ≡ some (
      pos 0,
      some (record {
        file_length = 5;
        last_modified = 9;
        is_directory = false;
        is_readable = true;
        mime = codes "text/plain";
      }),
      3,
    )
unfolding find
vdgetinfo-add_file_example =
    vdgetinfo-add_file 9 (codes "/d") (codes "/d") (codes "a") (codes "hello") (codes "text/plain")
      no_dirs 3 refl catslash_run (λ e. cc) (omega arith, tt) refl refl

IsRegistered-run : IsRegistered one_file
unfolding add_file path_catslash find assign
IsRegistered-run = refl

vdread-vdseek_example :
    (vdseek
        (negsuc 100)
        (handle_at {H = ℕ} (codes "/d/") (codes "a") (pos 0))
        (negsuc 3)
        (pos 0)
        one_file
        3
      ≡ some (pos 0, handle_at (codes "/d/") (codes "a") (negsuc 3), 3))
    × ((vdread (handle_at {H = ℕ} (codes "/d/") (codes "a") (negsuc 3)) 2 one_file 3 ≡ none)
        ↔ (is_negative (negsuc 3) ≡ true))
vdread-vdseek_example =
    vdread-vdseek (negsuc 100) (codes "/d/") (codes "a") hello (pos 0) (negsuc 3) 2 one_file 3
      entry_run (omega arith)
