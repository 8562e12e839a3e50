-- ===== src/Library/Handlers.antt =====
-- To which handler an event of libupnp goes.
use libupnpp.Prelude.{
  Bool, true, false, List, ◌≡◌, refl, ap, ◌∙◌, Option, none, some, if◌then◌else◌, Bytes, beq, find,
  find-assign, find-erase,
}
use libupnpp.Prelude.Int.{ℤ}
use libupnpp.Library.{register_handler, call_handler, o_callback}

module _ {W E : Type 0} where
  call_handler-if :
      (success : ℤ) (b : Bool) (o p : Option (E → W → ℤ × W)) (ev : E) (w : W)
      → call_handler success (if b then o else p) ev w
        ≡ (if b then call_handler success o ev w else call_handler success p ev w)
  call_handler-if success true o p ev w = refl
  call_handler-if success false o p ev w = refl

  -- After a handler is registered for a type of events, or taken away by a null one, events of this type
  -- go to it, or nowhere with the result success, and events of the other types where they went.
  pub o_callback-register_handler :
      (success : ℤ) (et et' : Bytes) (h : Option (E → W → ℤ × W)) (ev : E)
      (handlers : List (Bytes × (E → W → ℤ × W))) (w : W)
      → o_callback success et' ev (register_handler et h handlers) w
        ≡ (if beq et et' then call_handler success h ev w else o_callback success et' ev handlers w)
  unfolding o_callback register_handler
  o_callback-register_handler success et et' none ev handlers w =
      ap (λ o. call_handler success o ev w) (find-erase et et' handlers)
      ∙ call_handler-if success (beq et et') none (find et' handlers) ev w
  o_callback-register_handler success et et' (some h) ev handlers w =
      ap (λ o. call_handler success o ev w) (find-assign et et' h handlers)
      ∙ call_handler-if success (beq et et') (some h) (find et' handlers) ev w
