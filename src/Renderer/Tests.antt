-- ===== src/Renderer/Tests.antt =====
-- A renderer with one service.
use libupnpp.Prelude.{ℕ, Bool, true, [], ◌∷◌, ◌≡◌, refl, none, some, codes}
use libupnpp.Discovery.{device, no_more}
use libupnpp.Description.{clear_desc, clear_service}
use libupnpp.Renderer.{
  lock, Slot, MediaRenderer, Make, handle, re_subscribe_all, resubs_order, set_slot,
}
use libupnpp.OpenHome.Product.{is_oh_pr_service}
use libupnpp.Renderer.Handles.{IsIn, noting, held, handle-again, re_subscribe_all-held}

abbrev renderer : MediaRenderer
renderer = record {
  dev =
      device clear_desc
        (record clear_service { service_type = codes "urn:av-openhome-org:service:Product:1" } ∷ [])
        no_more;
  slots = λ k. none;
}

abbrev all_alive : ℕ → Bool
all_alive h = true

-- The next number is the next object.
abbrev next_number : Make ℕ
next_number k dev s w = (w, w)

made : (handle Slot.ohpr_slot all_alive next_number renderer 5).0 ≡ some 5
unfolding handle is_oh_pr_service
made = refl

handle-again_example :
    handle Slot.ohpr_slot all_alive next_number
      (handle Slot.ohpr_slot all_alive next_number renderer 5).1
      6
    ≡ (some 5, (handle Slot.ohpr_slot all_alive next_number renderer 5).1, 6)
handle-again_example = handle-again all_alive next_number Slot.ohpr_slot renderer 5 6 5 made refl

renewed :
    (re_subscribe_all all_alive (noting all_alive) (set_slot Slot.ohvl_slot (some 9) renderer) []).0
    ≡ true
unfolding re_subscribe_all
renewed = refl

re_subscribe_all-held_example :
    ((k : Slot) (h : ℕ)
      → lock all_alive ((set_slot Slot.ohvl_slot (some 9) renderer).slots k) ≡ some h
      → IsIn h
          (re_subscribe_all all_alive
            (noting all_alive)
            (set_slot Slot.ohvl_slot (some 9) renderer)
            []).1)
    × ((re_subscribe_all all_alive
          (noting all_alive)
          (set_slot Slot.ohvl_slot (some 9) renderer)
          []).1
        ≡ held all_alive (set_slot Slot.ohvl_slot (some 9) renderer) resubs_order)
re_subscribe_all-held_example =
    re_subscribe_all-held all_alive all_alive (set_slot Slot.ohvl_slot (some 9) renderer) renewed
