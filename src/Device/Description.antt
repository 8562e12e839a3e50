-- ===== src/Device/Description.antt =====
-- What libupnp's web server finds of a device in the virtual directory.
use libupnpp.Prelude.{
  ℕ, ◌<◌, ◌^◌, ◌==◌, Bool-cases, inl, inr, true, false, [], ◌∷◌, ◌++◌, ◌≡◌, ◌≢◌, refl, sym, ap, ◌∙◌,
  arith, subst, Option, some, some-injective, Bytes, codes, length, append_assoc, find, Avoids,
  Lacks,
}
use libupnpp.Prelude.Int.{ℤ, pos, negsuc}
use libupnpp.Text.Decimal.Print.{atoi-i2s}
use libupnpp.Text.Trim.Laws.{neutchars-Avoids}
use libupnpp.VirtualDir.{Dirs, FileInfo, vdgetinfo, add_file}
use libupnpp.VirtualDir.Files.{vdgetinfo-add_file, virtual_dir}
use libupnpp.VirtualDir.Paths.{slash_ends-Lacks, path_catslash_ended}
use libupnpp.Device.{UpnpDevice, replchars, subdir_of, device_subdir}
use libupnpp.Device.Start.{Server, Started, description, start, ipv4tostrurl, set_up, add_vfile}

Avoids-Lacks : (s : Bytes) → Avoids replchars s → Lacks 47 s
unfolding replchars
Avoids-Lacks [] h = tt
Avoids-Lacks (c ∷ s) (h, hs) = (λ e. absurd (cc), Avoids-Lacks s hs)

abbrev pub found : {V : Type 0} → ℕ → Bytes → Bytes → V → Option (ℤ × Option FileInfo × V)
found now content mime v = some (
  pos 0,
  some (record {
    file_length = length content;
    last_modified = now;
    is_directory = false;
    is_readable = true;
    mime = mime;
  }),
  v,
)

module _ {H V : Type 0} where
  subdir_serves :
      (now : ℕ) (r name content mime : Bytes) (s : Dirs H V) (v : V)
      → r ≢ []
      → Avoids replchars r
      → name ≢ []
      → Lacks 47 name
      → s.available ≡ true
      → virtual_dir (find (codes "/" ++ (r ++ codes "/")) s.dirs) ≡ false
      → vdgetinfo
          ((codes "/" ++ (r ++ codes "/")) ++ name)
          (add_file now (codes "/" ++ (r ++ codes "/")) name content mime s).1
          v
        ≡ found now content mime v
  subdir_serves now r name content mime s v hr ha hn hl av hv =
      ap (λ p. vdgetinfo p (add_file now (codes "/" ++ (r ++ codes "/")) name content mime s).1 v)
        (append_assoc (47 ∷ r) (47 ∷ []) name)
      ∙ vdgetinfo-add_file now (47 ∷ r) (47 ∷ (r ++ 47 ∷ [])) name content mime s v
          (slash_ends-Lacks [] r hr (Avoids-Lacks r ha)) (path_catslash_ended (47 ∷ r)) hn hl av hv

  -- The same for any directory made from a device's id.
  device_serves :
      (now : ℕ) (id dir name content mime : Bytes) (s : Dirs H V) (v : V)
      → device_subdir id ≡ some dir
      → dir ≢ codes "//"
      → name ≢ []
      → Lacks 47 name
      → s.available ≡ true
      → virtual_dir (find dir s.dirs) ≡ false
      → vdgetinfo (dir ++ name) (add_file now dir name content mime s).1 v
        ≡ found now content mime v
  unfolding device_subdir
  device_serves now id dir name content mime s v hd hs hn hl av hv =
      let (r, er, ha) = neutchars-Avoids id replchars b'-' (unfold replchars in refl) in
      let e : codes "/" ++ (r ++ codes "/") ≡ dir =
        some-injective _ _ (sym (ap subdir_of er) ∙ hd) in
      subst
        (λ d.
          vdgetinfo (d ++ name) (add_file now d name content mime s).1 v ≡ found now content mime v)
        e
        (subdir_serves now r name content mime s v
          (λ z. hs (sym e ∙ ap (λ t. codes "/" ++ (t ++ codes "/")) z)) ha hn hl av
          (ap (λ d. virtual_dir (find d s.dirs)) e ∙ hv))

description_name : Lacks 47 (codes "description.xml")
description_name = omega arith

module _ {H V W : Type 0} where
  set_up-dirs :
      (server : Server W) (d : UpnpDevice W) (r : ℤ × W) (dirs : Dirs H V)
      → (set_up server d r dirs).dirs ≡ dirs
  set_up-dirs server d (pos n, w) dirs = elim (Bool-cases (n == 0)) [
    | inl e ↦ rw e refl
    | inr e ↦ rw e refl
  ]
  set_up-dirs server d (negsuc n, w) dirs = refl

  -- `start` of a root device comes to an end, and whatever libupnp answers to it, the web server's
  -- lookup of `description.xml` in the device's directory finds the description, with its length, the
  -- date and the type `text/xml`. The device's id must leave a name after the replacement, and the
  -- directory must not be one with its own functions.
  pub start-vdgetinfo :
      (now : ℕ) (server : Server W) (d : UpnpDevice W) (s : Dirs H V) (w : W) (v : V)
      → server.port < 2 ^ 16
      → device_subdir d.device_id ≡ some d.devsubd
      → d.devsubd ≢ codes "//"
      → s.available ≡ true
      → virtual_dir (find d.devsubd s.dirs) ≡ false
      → (r : Started H V W) × (start now server false d s w ≡ some r)
        × (vdgetinfo (d.devsubd ++ codes "description.xml") r.dirs v
            ≡ found now (description d) (codes "text/xml") v)
  unfolding start ipv4tostrurl
  start-vdgetinfo now server d s w v hp hd hs av hv =
      let (port, ep, back) = atoi-i2s (pos server.port) (omega arith) (omega arith) in
      let dirs =
        (add_file now d.devsubd (codes "description.xml") (description d) (codes "text/xml") s).1 in
      let answer =
        server.setup_web_server
          ((codes "http://" ++ (server.host ++ (codes ":" ++ port)))
            ++ (d.devsubd ++ codes "description.xml"))
          w in
      (
        set_up server d answer dirs,
        rw (av, ep) refl,
        ap (λ t. vdgetinfo (d.devsubd ++ codes "description.xml") t v)
              (set_up-dirs server d answer dirs)
            ∙ device_serves now d.device_id d.devsubd (codes "description.xml") (description d)
                (codes "text/xml") s v hd hs (λ e. absurd (cc)) description_name av hv,
      )

  -- The path that `addVFile` gives back is one at which the web server finds the contents.
  pub add_vfile-vdgetinfo :
      (now : ℕ) (name contents mime : Bytes) (d : UpnpDevice W) (s : Dirs H V) (v : V)
      → device_subdir d.device_id ≡ some d.devsubd
      → d.devsubd ≢ codes "//"
      → name ≢ []
      → Lacks 47 name
      → s.available ≡ true
      → virtual_dir (find d.devsubd s.dirs) ≡ false
      → (path : Bytes) × ((add_vfile now name contents mime d s).0 ≡ some path)
        × (vdgetinfo path (add_vfile now name contents mime d s).1 v ≡ found now contents mime v)
  unfolding add_vfile
  add_vfile-vdgetinfo now name contents mime d s v hd hs hn hl av hv = (
    d.devsubd ++ name,
    rw av (unfold add_file in refl),
    simp (av) (device_serves now d.device_id d.devsubd name contents mime s v hd hs hn hl av hv),
  )
