-- ===== src/Discovery/Callbacks.antt =====
-- The indices by which a client deletes its visitors again.
use libupnpp.Prelude.{
  ℕ, zero, suc, ◌-◌, ◌%◌, ◌^◌, ◌<◌, List, [], ◌∷◌, ◌++◌, ◌≡◌, refl, ap, arith, false, ltb, leb,
  if◌then◌else◌, length, length-append, get_elem?,
}
use libupnpp.Discovery.{Visitor, Directory, remove, add_callback, del_callback}

module _ {A : Type 0} where
  remove-append : (l : List A) (v : A) → remove (length l) (l ++ v ∷ []) ≡ l
  remove-append [] v = refl
  remove-append (x ∷ l) v = ap (◌∷◌ x) (remove-append l v)

  get_elem?-remove :
      (i j : ℕ) (l : List A)
      → i < length l
      → get_elem? (remove i l) j ≡ (if ltb j i then get_elem? l j else get_elem? l (suc j))
  get_elem?-remove i j [] h = absurd (omega arith)
  get_elem?-remove zero j (x ∷ l) h = ground arith
  get_elem?-remove (suc i) zero (x ∷ l) h = ground arith
  get_elem?-remove (suc i) (suc j) (x ∷ l) h = ground (arith, get_elem?-remove i j l)

module _ {S W : Type 0} where
  -- While fewer than 2^32 visitors are registered, deleting the index that `addCallback` has just returned
  -- gives back the visitors of before. Deleting an index moves every later visitor down by one, so that
  -- the indices returned for those name other visitors from then on.
  pub del_callback-add_callback :
      (v : Visitor S W) (s : Directory S W) (w : W) (i j : ℕ)
      → length s.callbacks < 2 ^ 32
      → i < length s.callbacks
      → ((del_callback (add_callback v s w).0 (add_callback v s w).1).callbacks ≡ s.callbacks)
        × (get_elem? (del_callback i s).callbacks j
            ≡ (if ltb j i then get_elem? s.callbacks j else get_elem? s.callbacks (suc j)))
  unfolding add_callback del_callback
  del_callback-add_callback v s w i j small h = (
    rw (index, outside, remove-append s.callbacks v) refl,
    rw inside (get_elem?-remove i j s.callbacks h),
  )
    where
      index : (length (s.callbacks ++ v ∷ []) - 1) % 2 ^ 32 ≡ length s.callbacks
      index = omega (arith, length-append s.callbacks (v ∷ []))

      outside : leb (length (s.callbacks ++ v ∷ [])) (length s.callbacks) ≡ false
      outside = ground (arith, length-append s.callbacks (v ∷ []))

      inside : leb (length s.callbacks) i ≡ false
      inside = ground arith
