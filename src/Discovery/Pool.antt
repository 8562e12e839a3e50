-- ===== src/Discovery/Pool.antt =====
-- The pool below a map: what the tasks of discovery and the expiry of devices make of it.
use libupnpp.Prelude.{
  true, false, List, [], ◌∷◌, ◌≡◌, refl, arith, none, some, if◌then◌else◌, Bytes, beq, beq_iff,
  beq→eq, find, erase, Bool-cases, inl, inr, subst,
}
use libupnpp.Discovery.{less, store}

pub find-store :
    {V : Type 0} (k j : Bytes) (v : V) (m : List (Bytes × V))
    → find j (store k v m) ≡ (if beq k j then some v else find j m)
unfolding find store
find-store k j v [] = refl
find-store k j v ((i, w) ∷ m) =
    ground (arith, beq_iff k j, beq_iff i k, beq_iff i j, find-store k j v m)

less_trans : (a b c : Bytes) → less a b ≡ true → less b c ≡ true → less a c ≡ true
less_trans [] [] c h k = cc
less_trans [] (y ∷ b) [] h k = cc
less_trans [] (y ∷ b) (z ∷ c) h k = refl
less_trans (x ∷ a) [] c h k = cc
less_trans (x ∷ a) (y ∷ b) [] h k = cc
less_trans (x ∷ a) (y ∷ b) (z ∷ c) h k = ground (arith, less_trans a b c)

less_total : (a b : Bytes) → beq b a ≡ false → less a b ≡ false → less b a ≡ true
less_total [] [] e h = cc
less_total [] (y ∷ b) e h = cc
less_total (x ∷ a) [] e h = refl
less_total (x ∷ a) (y ∷ b) e h = ground (arith, less_total a b)

pub less_irrefl : (a : Bytes) → less a a ≡ false
less_irrefl [] = refl
less_irrefl (x ∷ a) = ground (arith, less_irrefl a)

module _ {V : Type 0} where
  abbrev pub Above : Bytes → List (Bytes × V) → Type 0
  Above k [] = Unit
  Above k ((j, v) ∷ m) = (less k j ≡ true) × Above k m

  -- The keys stand in the map's order, each once.
  abbrev pub IsSorted : List (Bytes × V) → Type 0
  IsSorted [] = Unit
  IsSorted ((k, v) ∷ m) = Above k m × IsSorted m

  Above-lower : (k j : Bytes) (m : List (Bytes × V)) → less k j ≡ true → Above j m → Above k m
  Above-lower k j [] h a = tt
  Above-lower k j ((i, v) ∷ m) h (a, below) = (less_trans k j i h a, Above-lower k j m h below)

  pub find-Above : (k : Bytes) (m : List (Bytes × V)) → Above k m → find k m ≡ none
  unfolding find
  find-Above k [] a = refl
  find-Above k ((j, v) ∷ m) (a, below) = elim (Bool-cases (beq j k)) [
    | inl e ↦ absurd (same e)
    | inr e ↦ rw e (find-Above k m below)
  ]
    where
      same : beq j k ≡ true → ⊥
      same e =
          let f = subst (λ i. less k i ≡ true) (beq→eq j k e) a in ground (arith, f, less_irrefl k)

  Above-store :
      (i k : Bytes) (v : V) (m : List (Bytes × V))
      → less i k ≡ true
      → Above i m
      → Above i (store k v m)
  unfolding store
  Above-store i k v [] h a = (h, tt)
  Above-store i k v ((j, w) ∷ m) h (a, below) = ground (arith, Above-store i k v m)

  pub store-IsSorted :
      (k : Bytes) (v : V) (m : List (Bytes × V)) → IsSorted m → IsSorted (store k v m)
  unfolding store
  store-IsSorted k v [] h = (tt, tt)
  store-IsSorted k v ((j, w) ∷ m) (a, s) = elim (Bool-cases (beq j k)) [
    | inl e ↦ rw e (subst (λ i. Above i m) (beq→eq j k e) a, s)
    | inr e ↦ elim (Bool-cases (less k j)) [
      | inl l ↦ rw (e, l) ((l, Above-lower k j m l a), (a, s))
      | inr l ↦ rw (e, l) (Above-store j k v m (less_total k j e l) a, store-IsSorted k v m s)
    ]
  ]

  Above-erase : (i k : Bytes) (m : List (Bytes × V)) → Above i m → Above i (erase k m)
  unfolding erase
  Above-erase i k [] a = tt
  Above-erase i k ((j, w) ∷ m) (a, below) = ground (arith, Above-erase i k m)

  pub erase-IsSorted : (k : Bytes) (m : List (Bytes × V)) → IsSorted m → IsSorted (erase k m)
  unfolding erase
  erase-IsSorted k [] h = tt
  erase-IsSorted k ((j, w) ∷ m) (a, s) = ground (arith, erase-IsSorted k m, Above-erase j k m)
