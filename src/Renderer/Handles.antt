-- ===== src/Renderer/Handles.antt =====
-- Which service objects a renderer gives.
use libupnpp.Prelude.{
  ℕ, Bool, true, false, List, [], ◌∷◌, ◌≡◌, refl, sym, ◌∙◌, ap, Option, none, some, ◌++◌,
  append-nil, append_assoc, arith, ◌⊎◌, inl, inr, ◌||◌, Bool-cases, subst, zero, suc,
}
use libupnpp.Discovery.{services}
use libupnpp.Description.{ServiceDesc}
use libupnpp.Renderer.{
  Slot, MediaRenderer, fits, slot_number, same_slot, lock, first_fitting, Make, made, held_or_made,
  handle, resubs_one, and_rest, resubs_slots, resubs_order, re_subscribe_all,
}

same_slot_refl : (k : Slot) → same_slot k k ≡ true
same_slot_refl k = ground arith

module _ {W : Type 0} (alive : ℕ → Bool) (make : Make W) where
  lock-made :
      (k : Slot) (r : MediaRenderer) (w : W) (s : Option ServiceDesc) (h : ℕ)
      → (made k r make w s).0 ≡ some h
      → alive h ≡ true
      → lock alive ((made k r make w s).1.slots k) ≡ some h
  lock-made k r w none h e a = cc
  lock-made k r w (some s) h e a =
      rw (same_slot_refl k) (let same : (make k r.dev s w).0 ≡ h = cc in rw same (rw a refl))

  lock-held_or_made :
      (k : Slot) (r : MediaRenderer) (w : W) (found : Option ℕ) (h : ℕ)
      → lock alive (r.slots k) ≡ found
      → (held_or_made k r make w found).0 ≡ some h
      → alive h ≡ true
      → lock alive ((held_or_made k r make w found).1.slots k) ≡ some h
  lock-held_or_made k r w (some g) h e same a = e ∙ same
  lock-held_or_made k r w none h e same a =
      lock-made k r w (first_fitting (fits k) (services r.dev)) h same a

  -- A service that a renderer gave, and that is still held, is given again: no second object is made,
  -- and neither the renderer nor the world changes.
  pub handle-again :
      (k : Slot) (r : MediaRenderer) (w w2 : W) (h : ℕ)
      → (handle k alive make r w).0 ≡ some h
      → alive h ≡ true
      → handle k alive make (handle k alive make r w).1 w2
        ≡ (some h, (handle k alive make r w).1, w2)
  unfolding handle
  handle-again k r w w2 h same a =
      ap (held_or_made k (handle k alive make r w).1 make w2)
        (lock-held_or_made k r w (lock alive (r.slots k)) h refl same a)

  made_other :
      (k j : Slot) (r : MediaRenderer) (w : W) (s : Option ServiceDesc)
      → same_slot k j ≡ false
      → (made k r make w s).1.slots j ≡ r.slots j
  made_other k j r w none e = rw e refl
  made_other k j r w (some s) e = rw e refl

  held_or_made_other :
      (k j : Slot) (r : MediaRenderer) (w : W) (found : Option ℕ)
      → same_slot k j ≡ false
      → (held_or_made k r make w found).1.slots j ≡ r.slots j
  held_or_made_other k j r w (some h) e = refl
  held_or_made_other k j r w none e = made_other k j r w (first_fitting (fits k) (services r.dev)) e

  -- Giving one service leaves the weak pointers to the others.
  pub handle_other :
      (k j : Slot) (r : MediaRenderer) (w : W)
      → same_slot k j ≡ false
      → (handle k alive make r w).1.slots j ≡ r.slots j
  unfolding handle
  handle_other k j r w e = held_or_made_other k j r w (lock alive (r.slots k)) e

abbrev pub and_held : Option ℕ → List ℕ → List ℕ
and_held none hs = hs
and_held (some h) hs = h ∷ hs

-- The held services among some slots, in their order.
abbrev pub held : (ℕ → Bool) → MediaRenderer → List Slot → List ℕ
held alive r [] = []
held alive r (k ∷ ks) = and_held (lock alive (r.slots k)) (held alive r ks)

-- A client that notes what is subscribed again, where some services work.
abbrev pub noting : (ℕ → Bool) → ℕ → List ℕ → Bool × List ℕ
noting works h done = (works h, done ++ h ∷ [])

module _ (works : ℕ → Bool) (rest : List ℕ → Bool × List ℕ) (hs : List ℕ)
    (ih : (done : List ℕ) → (rest done).0 ≡ true → (rest done).1 ≡ done ++ hs) where
  and_rest-true :
      (b : Bool) (done : List ℕ)
      → (and_rest (b, done) rest).0 ≡ true
      → (and_rest (b, done) rest).1 ≡ done ++ hs
  and_rest-true true done e = ih done e
  and_rest-true false done e = cc

  resubs_one-held :
      (found : Option ℕ) (done : List ℕ)
      → (and_rest (resubs_one (noting works) found done) rest).0 ≡ true
      → (and_rest (resubs_one (noting works) found done) rest).1 ≡ done ++ and_held found hs
  resubs_one-held none done e = ih done e
  resubs_one-held (some h) done e =
      and_rest-true (works h) (done ++ h ∷ []) e ∙ append_assoc done (h ∷ []) hs

resubs_slots-held :
    (alive works : ℕ → Bool) (r : MediaRenderer) (ks : List Slot) (done : List ℕ)
    → (resubs_slots alive (noting works) r ks done).0 ≡ true
    → (resubs_slots alive (noting works) r ks done).1 ≡ done ++ held alive r ks
resubs_slots-held alive works r [] done e = sym (append-nil done)
resubs_slots-held alive works r (k ∷ ks) done e =
    resubs_one-held works (resubs_slots alive (noting works) r ks) (held alive r ks)
      (λ before f. resubs_slots-held alive works r ks before f) (lock alive (r.slots k)) done e

abbrev pub IsIn : ℕ → List ℕ → Type 0
IsIn h [] = ⊥
IsIn h (x ∷ xs) = (h ≡ x) ⊎ IsIn h xs

abbrev has : Slot → List Slot → Bool
has k [] = false
has k (j ∷ ks) = same_slot k j || has k ks

-- The slot with a number.
abbrev slot_of : ℕ → Slot
slot_of zero = Slot.rdc_slot
slot_of (suc zero) = Slot.avt_slot
slot_of (suc (suc zero)) = Slot.cnm_slot
slot_of (suc (suc (suc zero))) = Slot.ohpr_slot
slot_of (suc (suc (suc (suc zero)))) = Slot.ohpl_slot
slot_of (suc (suc (suc (suc (suc zero))))) = Slot.ohtm_slot
slot_of (suc (suc (suc (suc (suc (suc zero)))))) = Slot.ohvl_slot
slot_of (suc (suc (suc (suc (suc (suc (suc zero))))))) = Slot.ohrc_slot
slot_of (suc (suc (suc (suc (suc (suc (suc (suc zero)))))))) = Slot.ohrd_slot
slot_of (suc (suc (suc (suc (suc (suc (suc (suc (suc zero))))))))) = Slot.ohif_slot
slot_of (suc (suc (suc (suc (suc (suc (suc (suc (suc (suc n)))))))))) = Slot.ohsn_slot

slot_of-slot_number : (k : Slot) → slot_of (slot_number k) ≡ k
slot_of-slot_number Slot.rdc_slot = refl
slot_of-slot_number Slot.avt_slot = refl
slot_of-slot_number Slot.cnm_slot = refl
slot_of-slot_number Slot.ohpr_slot = refl
slot_of-slot_number Slot.ohpl_slot = refl
slot_of-slot_number Slot.ohtm_slot = refl
slot_of-slot_number Slot.ohvl_slot = refl
slot_of-slot_number Slot.ohrc_slot = refl
slot_of-slot_number Slot.ohrd_slot = refl
slot_of-slot_number Slot.ohif_slot = refl
slot_of-slot_number Slot.ohsn_slot = refl

same_slot_eq : (k j : Slot) → same_slot k j ≡ true → k ≡ j
same_slot_eq k j e =
    let same : slot_number k ≡ slot_number j = ground arith in
    sym (slot_of-slot_number k) ∙ ap slot_of same ∙ slot_of-slot_number j

and_held_more : (o : Option ℕ) (h : ℕ) (hs : List ℕ) → IsIn h hs → IsIn h (and_held o hs)
and_held_more none h hs i = i
and_held_more (some x) h hs i = inr i

held-has :
    (alive : ℕ → Bool) (r : MediaRenderer) (k : Slot) (h : ℕ) (ks : List Slot)
    → lock alive (r.slots k) ≡ some h
    → has k ks ≡ true
    → IsIn h (held alive r ks)
held-has alive r k h [] e i = cc
held-has alive r k h (j ∷ ks) e i = elim (Bool-cases (same_slot k j)) [
  | inl same ↦
      subst (λ o. IsIn h (and_held o (held alive r ks)))
        (sym e ∙ ap (λ x. lock alive (r.slots x)) (same_slot_eq k j same)) (inl refl)
  | inr other ↦
      and_held_more (lock alive (r.slots j)) h (held alive r ks)
        (held-has alive r k h ks e (ground (arith, other, i)))
]

has_every : (k : Slot) → has k resubs_order ≡ true
has_every Slot.rdc_slot = refl
has_every Slot.avt_slot = refl
has_every Slot.cnm_slot = refl
has_every Slot.ohpr_slot = refl
has_every Slot.ohpl_slot = refl
has_every Slot.ohtm_slot = refl
has_every Slot.ohvl_slot = refl
has_every Slot.ohrc_slot = refl
has_every Slot.ohrd_slot = refl
has_every Slot.ohif_slot = refl
has_every Slot.ohsn_slot = refl

-- When the renewal of a renderer's subscriptions says that it succeeded, the service of every slot that
-- holds one was subscribed again, and no service but those, in the order of the slots.
pub re_subscribe_all-held :
    (alive works : ℕ → Bool) (r : MediaRenderer)
    → (re_subscribe_all alive (noting works) r []).0 ≡ true
    → ((k : Slot) (h : ℕ)
        → lock alive (r.slots k) ≡ some h
        → IsIn h (re_subscribe_all alive (noting works) r []).1)
      × ((re_subscribe_all alive (noting works) r []).1 ≡ held alive r resubs_order)
unfolding re_subscribe_all
re_subscribe_all-held alive works r e =
    let all_noted = resubs_slots-held alive works r resubs_order [] e in
    (
      λ k h l. subst (IsIn h) (sym all_noted) (held-has alive r k h resubs_order l (has_every k)),
      all_noted,
    )
