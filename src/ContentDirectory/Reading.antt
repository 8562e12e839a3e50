-- ===== src/ContentDirectory/Reading.antt =====
-- What `readDir` brings of a container.
use libupnpp.Prelude.{
  ℕ, zero, suc, ◌+◌, ◌≤◌, ◌<◌, ◌^◌, ◌==◌, true, false, List, [], ◌∷◌, ◌++◌, ◌≡◌, refl, sym, ap,
  subst, ◌∙◌, arith, append-nil, Option, some, if◌then◌else◌, ltb, leb, Bool-cases, inl, inr, Bytes,
  length, take, drop, length-drop, take_all,
}
use libupnpp.Prelude.Int.{ℤ, pos}
use libupnpp.VirtualDir.Reads.{drop_past, drop-drop}
use libupnpp.Control.{Service, Lib}
use libupnpp.Control.Actions.{same_int_refl}
use libupnpp.ContentDirectory.Serving.{at_most, length-take, Serves, read_dir_slice-Serves}
use libupnpp.ContentDirectory.{
  Slice, Dir, more_there, behind, after_slice, dir_loop, read_dir_slice, read_dir,
}

rejoin {ℓ} : {A : Type ℓ} (n : ℕ) (xs : List A) → take n xs ++ drop (length (take n xs)) xs ≡ xs
rejoin zero xs = refl
rejoin (suc n) [] = refl
rejoin (suc n) (x ∷ xs) = ap (◌∷◌ x) (rejoin n xs)

abbrev pub joined : {E : Type 0} → List (List E) → List E
joined [] = []
joined (xs ∷ slices) = xs ++ joined slices

-- The slices are put into the buffer one after another.
abbrev pub put_all : {E B : Type 0} → (List E → B → B) → List (List E) → B → B
put_all put [] buf = buf
put_all put (xs ∷ slices) buf = put_all put slices (put xs buf)

module _ {B W : Type 0} where
  slice_read :
      (lib : Lib W) (slice : ℕ → B → W → Option (Slice B W)) (rq fuel offset : ℕ) (total : ℤ)
      (buf next : B) (k n : ℕ) (w v : W)
      → more_there offset total ≡ true
      → slice offset buf w
        ≡ some (record {
          ret = lib.codes.success;
          buf = next;
          didread = pos k;
          total = pos n;
          world = v;
        })
      → dir_loop true lib slice rq (suc fuel) offset total buf w
        ≡ behind true
            (dir_loop true lib slice rq fuel)
            rq
            offset
            (pos k)
            (pos n)
            next
            v
            lib.codes.success
  unfolding dir_loop
  slice_read lib slice rq fuel offset total buf next k n w v more e =
      ap
        (λ b.
          if b
          then after_slice true lib (dir_loop true lib slice rq fuel) rq offset (slice offset buf w)
          else some (record { ret = lib.codes.success; buf = buf; world = w }))
        more
      ∙ ap (after_slice true lib (dir_loop true lib slice rq fuel) rq offset) e
      ∙ rw (same_int_refl lib.codes.success) refl

  last_slice :
      (lib : Lib W) (rest : ℕ → ℤ → B → W → Option (Dir B W)) (rq offset c : ℕ) (total : ℤ)
      (buf : B) (v : W)
      → (c == rq) ≡ false
      → ltb (offset + c) (2 ^ 31) ≡ true
      → behind true rest rq offset (pos c) total buf v lib.codes.success
        ≡ some (record { ret = lib.codes.success; buf = buf; world = v })
  last_slice lib rest rq offset c total buf v h fits = rw (h, fits) refl

  full_slice :
      (lib : Lib W) (rest : ℕ → ℤ → B → W → Option (Dir B W)) (rq offset c : ℕ) (total : ℤ)
      (buf : B) (v : W)
      → (c == rq) ≡ true
      → ltb (offset + c) (2 ^ 31) ≡ true
      → behind true rest rq offset (pos c) total buf v lib.codes.success
        ≡ rest (offset + c) total buf v
  full_slice lib rest rq offset c total buf v h fits = rw (h, fits) refl

module _ {B E W : Type 0} where
  -- A slice from any position on holds the next `size` entries, or all that are left.
  abbrev Gives : (List E → B → B) → ℕ → Lib W → (ℕ → B → W → Option (Slice B W)) → List E → Type 0
  Gives put size lib slice kids =
      (offset : ℕ) (buf : B) (w : W)
      → offset < length kids
      → (v : W) × (slice offset buf w
          ≡ some (record {
            ret = lib.codes.success;
            buf = put (take size (drop offset kids)) buf;
            didread = pos (length (take size (drop offset kids)));
            total = pos (length kids);
            world = v;
          }))

  -- The reading ended with success, after slices that hold these entries in order.
  abbrev pub Reads : (List E → B → B) → Lib W → List E → B → Option (Dir B W) → Type 0
  Reads put lib kids buf o =
      (v : W) × (slices : List (List E)) × (joined slices ≡ kids)
      × (o ≡ some (record { ret = lib.codes.success; buf = put_all put slices buf; world = v }))

  loop_full :
      (put : List E → B → B) (lib : Lib W) (slice : ℕ → B → W → Option (Slice B W)) (rq : ℕ)
      (kids : List E) (fuel offset : ℕ) (total : ℤ) (buf : B) (w : W)
      → Gives put rq lib slice kids
      → 0 < rq
      → 0 < length kids
      → length kids < 2 ^ 31
      → offset ≤ length kids
      → length kids < offset + fuel
      → more_there offset total ≡ ltb offset (length kids)
      → Reads put lib (drop offset kids) buf (dir_loop true lib slice rq fuel offset total buf w)
  unfolding dir_loop
  loop_full put lib slice rq kids zero offset total buf w gives pr pk small ho hf more =
      absurd (omega (arith, ho, hf))
  loop_full put lib slice rq kids (suc fuel) offset total buf w gives pr pk small ho hf more =
      elim (Bool-cases (ltb offset (length kids))) [
        | inl e ↦
            let r = drop offset kids in
            let c = length (take rq r) in
            let next = put (take rq r) buf in
            let (v, run) = gives offset buf w (ground (arith, e)) in
            let step =
              slice_read lib slice rq fuel offset total buf next c (length kids) w v (more ∙ e)
                run in
            let within : offset + c ≤ length kids =
              ground (arith, length-take rq r, length-drop offset kids, e) in
            let fits : ltb (offset + c) (2 ^ 31) ≡ true = ground (arith, within, small) in
            elim (Bool-cases (c == rq)) [
              | inl f ↦
                  let (u, slices, j, g) =
                    loop_full put lib slice rq kids fuel (offset + c) (pos (length kids)) next v
                      gives pr pk small within (ground (arith, f, hf, pr)) (ground (arith, pk)) in
                  (
                    u,
                    take rq r ∷ slices,
                    ap (take rq r ++◌) (j ∙ sym (drop-drop kids offset c)) ∙ rejoin rq r,
                    step
                        ∙ full_slice lib (dir_loop true lib slice rq fuel) rq offset c
                            (pos (length kids)) next v f fits
                        ∙ g,
                  )
              | inr f ↦ (
                v,
                take rq r ∷ [],
                append-nil (take rq r) ∙ take_all r rq (ground (arith, length-take rq r, f)),
                step
                    ∙ last_slice lib (dir_loop true lib slice rq fuel) rq offset c
                        (pos (length kids)) next v f fits,
              )
            ]
        | inr e ↦ (w, [], sym (drop_past kids offset (ground (arith, e))), rw (more ∙ e) refl)
      ]

  loop_short :
      (put : List E → B → B) (lib : Lib W) (slice : ℕ → B → W → Option (Slice B W)) (rq size : ℕ)
      (kids : List E) (fuel : ℕ) (buf : B) (w : W)
      → Gives put size lib slice kids
      → size < rq
      → 0 < length kids
      → length kids < 2 ^ 31
      → Reads put lib (take size kids) buf (dir_loop true lib slice rq (suc fuel) 0 (pos 0) buf w)
  loop_short put lib slice rq size kids fuel buf w gives less pk small =
      let (v, run) = gives 0 buf w pk in
      let c = length (take size kids) in
      let next = put (take size kids) buf in
      (
        v,
        take size kids ∷ [],
        append-nil (take size kids),
        slice_read lib slice rq fuel 0 (pos 0) buf next c (length kids) w v refl run
            ∙ last_slice lib (dir_loop true lib slice rq fuel) rq 0 c (pos (length kids)) next v
                (ground (arith, length-take size kids, less))
                (ground (arith, length-take size kids, small)),
      )

  -- `readDir` of a container that is not empty, from a server that answers a call of Browse by as many
  -- entries as were asked for and are there, but by no more than `most`, comes to an end with success.
  -- What it parses into the buffer, one after another, are the texts that the server wrote of slices
  -- which together are all entries, each once and in order, if `most` is not below the number that is
  -- asked for at a time, and only the first `most` entries if it is. The fuel is more than the number of
  -- entries. The library must be there, and the numbers must be `int`s.
  pub read_dir-Serves :
      (parse : Bytes → B → B) (write : List E → Bytes) (lib : Lib W) (s : Service)
      (rdreqcnt most : ℕ) (kids : List E) (fuel : ℕ) (object_id : Bytes) (buf : B) (w : W)
      → lib.present ≡ true
      → Serves lib s object_id most write kids
      → 0 < most
      → 0 < rdreqcnt
      → rdreqcnt < 2 ^ 31
      → 0 < length kids
      → length kids < 2 ^ 31
      → length kids < fuel
      → Reads
          (λ xs b. parse (write xs) b)
          lib
          (if leb rdreqcnt most then kids else take most kids)
          buf
          (read_dir parse lib s rdreqcnt fuel object_id buf w)
  unfolding read_dir
  read_dir-Serves parse write lib s rdreqcnt most kids zero object_id buf w there serves pm pr
        small_rq pk small hf =
      absurd (omega (arith, hf))
  read_dir-Serves parse write lib s rdreqcnt most kids (suc fuel) object_id buf w there serves pm pr
        small_rq pk small hf =
      let put : List E → B → B = λ xs b. parse (write xs) b in
      let slice : ℕ → B → W → Option (Slice B W) =
        λ offset b v. read_dir_slice parse lib s object_id offset rdreqcnt b v in
      let gives : Gives put (at_most most rdreqcnt) lib slice kids = λ offset b v h.
        read_dir_slice-Serves parse write lib s object_id most offset rdreqcnt kids b v there serves
          pm pr small_rq h small in
      elim (Bool-cases (leb rdreqcnt most)) [
        | inl e ↦ rw e (
            loop_full put lib slice rdreqcnt kids (suc fuel) 0 (pos 0) buf w
              (subst (λ b. Gives put (if b then rdreqcnt else most) lib slice kids) e gives) pr pk
              small (omega arith) (omega (arith, hf)) (ground (arith, pk)))
        | inr e ↦ rw e (
            loop_short put lib slice rdreqcnt most kids fuel buf w
              (subst (λ b. Gives put (if b then rdreqcnt else most) lib slice kids) e gives)
              (ground (arith, e)) pk small)
      ]
