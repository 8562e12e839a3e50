-- ===== src/VirtualDir/Reads.antt =====
-- Reading and seeking in a file that is served.
use libupnpp.Prelude.{
  ℕ, zero, suc, ◌+◌, ◌<◌, ◌≤◌, Bool, true, false, List, [], ◌∷◌, ◌++◌, ◌≡◌, ◌↔◌, refl, ap, arith,
  Option, none, some, length, ◌==◌, leb, Bytes, take, drop, Bool-cases, inl, inr,
}
use libupnpp.Prelude.Int.{ℤ, pos, negsuc, ◌+ℤ◌}
use libupnpp.VirtualDir.{FileEnt, Dirs, Handle, read_at}
use libupnpp.VirtualDir.Handles.{vdread, vdseek, entry_of}

pub drop_past {ℓ} : {A : Type ℓ} (xs : List A) (o : ℕ) → length xs ≤ o → drop o xs ≡ []
drop_past [] zero h = refl
drop_past [] (suc o) h = refl
drop_past (x ∷ xs) zero h = absurd (omega arith)
drop_past (x ∷ xs) (suc o) h = drop_past xs o (omega arith)

pub drop-drop {ℓ} : {A : Type ℓ} (xs : List A) (o k : ℕ) → drop k (drop o xs) ≡ drop (o + k) xs
drop-drop xs zero k = rw (zero_add k) refl
  where
    zero_add : (k : ℕ) → 0 + k ≡ k
    zero_add k = omega arith
drop-drop [] (suc o) zero = rw (suc_add o 0) refl
  where
    suc_add : (o k : ℕ) → suc o + k ≡ suc (o + k)
    suc_add o k = omega arith
drop-drop [] (suc o) (suc k) = rw (suc_add o k) refl
  where
    suc_add : (o k : ℕ) → suc o + suc k ≡ suc (o + suc k)
    suc_add o k = omega arith
drop-drop (x ∷ xs) (suc o) k = rw (suc_add o k) (drop-drop xs o k)
  where
    suc_add : (o k : ℕ) → suc o + k ≡ suc (o + k)
    suc_add o k = omega arith

length-take {ℓ} : {A : Type ℓ} (k : ℕ) (xs : List A) → k ≤ length xs → length (take k xs) ≡ k
length-take zero xs h = refl
length-take (suc k) [] h = absurd (omega arith)
length-take (suc k) (x ∷ xs) h = ap suc (length-take k xs (omega arith))

pub pos_add : (o k : ℕ) → pos o +ℤ pos k ≡ pos (o + k)
unfolding ◌+ℤ◌
pos_add o k = ground arith

-- A handle on a file, at an offset.
abbrev pub handle_at : {H : Type 0} → Bytes → Bytes → ℤ → Handle H
handle_at path name o = record { entry = some (path, name); dir = none; vhandle = none; offset = o }

abbrev pub is_negative : ℤ → Bool
is_negative (pos n) = false
is_negative (negsuc n) = true

abbrev joined : Bytes → Option Bytes → Option Bytes
joined out none = none
joined out (some more) = some (out ++ more)

module _ {H W : Type 0} where
  -- A client that reads with a buffer of `n` bytes until the number that it is told is zero, and takes as
  -- many bytes out of the buffer as it is told. A number below zero is an error. The fuel bounds the
  -- calls.
  abbrev read_next : (Handle H → Option Bytes) → Option (ℤ × Bytes × Handle H × W) → Option Bytes
  read_next rest none = none
  read_next rest (some (pos zero, out, h, w)) = some []
  read_next rest (some (pos (suc k), out, h, w)) = joined (take (suc k) out) (rest h)
  read_next rest (some (negsuc k, out, h, w)) = none

  pub read_all : ℕ → Handle H → ℕ → Dirs H W → W → Option Bytes
  unfolding vdread
  read_all zero h n s w = none
  read_all (suc fuel) h n s w = read_next (λ k. read_all fuel k n s w) (vdread h n s w)

  -- `vdseek` from the start of a file sets any offset, also a negative one, and says that all went well.
  -- The next `vdread` with a buffer copies memory from before the content exactly if the offset is
  -- negative, and is well defined if it is not.
  pub vdread-vdseek :
      (invalid : ℤ) (path name : Bytes) (e : FileEnt) (o target : ℤ) (n : ℕ) (s : Dirs H W) (w : W)
      → entry_of {W = W} (handle_at path name o) s ≡ some e
      → 0 < n
      → (vdseek invalid (handle_at path name o) target (pos 0) s w
          ≡ some (pos 0, handle_at path name target, w))
        × ((vdread (handle_at path name target) n s w ≡ none) ↔ (is_negative target ≡ true))
  unfolding vdseek vdread read_at
  vdread-vdseek invalid path name e o (negsuc m) n s w he hn =
      (refl, rw (not_zero, he) ((λ _. refl), (λ _. refl)))
    where
      not_zero : (n == 0) ≡ false
      not_zero = ground arith
  vdread-vdseek invalid path name e o (pos m) n s w he hn =
      elim (Bool-cases (leb (length e.content) m)) [
        | inl past ↦ (refl, rw (not_zero, he, past) ((λ h. cc), (λ h. cc)))
        | inr inside ↦ (refl, rw (not_zero, he, inside) ((λ h. cc), (λ h. cc)))
      ]
    where
      not_zero : (n == 0) ≡ false
      not_zero = ground arith
