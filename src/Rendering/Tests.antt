-- ===== src/Rendering/Tests.antt =====
-- The theorems on the volume at a device with 20 steps of 2.
use libupnpp.Prelude.{ℕ, ◌+◌, ◌*◌, ◌/◌, true, [], ◌∷◌, arith, some, codes}
use libupnpp.Prelude.Int.{ℤ, pos, negsuc}
use libupnpp.Rendering.{VolParams, Doubles}
use libupnpp.Rendering.Events.{AllInScale, evt_callback, evt_callback-InScale}

-- Exact arithmetic, but for a rough division.
abbrev up_to : ℤ → ℕ → ℤ
up_to (pos r) v = pos ((r * v + 99) / 100)
up_to (negsuc r) v = pos 0

abbrev down_to : ℤ → ℕ → ℤ
down_to (pos r) v = pos (r * v / 100)
down_to (negsuc r) v = pos 0

abbrev exact : Doubles
exact = record { per_cent = λ r v. 100; scaled_ceil = up_to; scaled_floor = down_to }

abbrev twenty : VolParams
twenty = record { volmin = 10; volmax = 50; volstep = 2 }

evt_callback-InScale_example : AllInScale (
    evt_callback
      (λ s. some ((codes "Volume", codes "30") ∷ []))
      exact
      twenty
      true
      ((codes "LastChange", codes "x") ∷ []))
evt_callback-InScale_example =
    evt_callback-InScale exact twenty (λ r v h k. omega arith) (omega arith)
      (λ s. some ((codes "Volume", codes "30") ∷ [])) true ((codes "LastChange", codes "x") ∷ [])
