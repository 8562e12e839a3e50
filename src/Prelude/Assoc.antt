-- ===== src/Prelude/Assoc.antt =====
-- `std::map` and `std::unordered_map` with text keys, as association lists. A new key is added at
-- the end, and a key is held once. Entries are walked in the order in which they were added; the
-- program's statements do not depend on the order.
use mathlib.Core.Path.{◌≡◌, refl}
use mathlib.Core.List.{List, [], ◌∷◌}
use mathlib.Core.Option.{Option, none, some}
use native.Mathlib.Omega.{arith}
use libupnpp.Prelude.Tests.{if◌then◌else◌}
use libupnpp.Prelude.Text.{Bytes, beq, beq_iff}

module _ {ℓ} {V : Type ℓ} where
  -- `m.find(k)`
  unfoldable pub find : Bytes → List (Bytes × V) → Option V
  find k [] = none
  find k ((j, v) ∷ m) = if beq j k then some v else find k m

  -- `m[k] = v`
  unfoldable pub assign : Bytes → V → List (Bytes × V) → List (Bytes × V)
  assign k v [] = (k, v) ∷ []
  assign k v ((j, w) ∷ m) = if beq j k then (k, v) ∷ m else (j, w) ∷ assign k v m

  -- `m.erase(k)`
  unfoldable pub erase : Bytes → List (Bytes × V) → List (Bytes × V)
  erase k [] = []
  erase k ((j, w) ∷ m) = if beq j k then erase k m else (j, w) ∷ erase k m

  pub find-assign :
      (k j : Bytes) (v : V) (m : List (Bytes × V))
      → find j (assign k v m) ≡ (if beq k j then some v else find j m)
  unfolding find assign
  find-assign k j v [] = refl
  find-assign k j v ((i, w) ∷ m) =
      ground (arith, beq_iff k j, beq_iff i k, beq_iff i j, find-assign k j v m)

  pub find-erase :
      (k j : Bytes) (m : List (Bytes × V))
      → find j (erase k m) ≡ (if beq k j then none else find j m)
  unfolding find erase
  find-erase k j [] = ground arith
  find-erase k j ((i, w) ∷ m) =
      ground (arith, beq_iff k j, beq_iff i k, beq_iff i j, find-erase k j m)
