-- ===== src/Control/Lifetime.antt =====
-- A service object from its construction to its destruction: what it leaves in the static map.
use libupnpp.Prelude.{
  true, false, List, ◌≡◌, ◌⊎◌, inl, inr, refl, sym, ap, ◌∙◌, Option, none, some, Bool-cases,
  if◌then◌else◌, Bytes, beq, beq→eq, find, erase, find-assign, find-erase,
}
use libupnpp.Prelude.Int.{ℤ}
use libupnpp.Device.Dispatch.{same_int}
use libupnpp.Control.{Conn, Lib, EvtCbFunc, is_empty}
use libupnpp.Control.Subscribing.{
  subscribe, subscribed, note_callback, register_callback, unregister_callback, re_subscribe,
  subscribe_again,
}
use libupnpp.Control.Events.{unregister_callback_run}

module _ {W : Type 0} where
  -- libupnp's answers to a subscription: an id that no other service has, or none and the id is left.
  abbrev pub GoodAnswer : Lib W → List (Bytes × EvtCbFunc W) → Bytes → (ℤ × Bytes) × W → Type 0
  GoodAnswer lib others old ((ret, sid), w) =
      ((same_int ret lib.codes.success ≡ true) × (is_empty sid ≡ false) × (find sid others ≡ none))
      ⊎ ((same_int ret lib.codes.success ≡ false) × (sid ≡ old))

  abbrev pub FreshIds : Lib W → List (Bytes × EvtCbFunc W) → Type 0
  FreshIds lib others =
      (url sid : Bytes) (t : ℤ) (w : W)
      → GoodAnswer lib others sid (lib.client.subscribe url t sid w)

  -- What the program does with a service. A registration is asked for only while there is none.
  pub data Step (lib : Lib W) : Conn W → Conn W → Type 0 where
    registers :
        (c : EvtCbFunc W) (s : Conn W)
        → is_empty s.serv.sid ≡ true
        → Step lib s (register_callback lib c s).1
    unregisters : (s : Conn W) → Step lib s (unregister_callback lib s)
    resubscribes : (s : Conn W) → Step lib s (re_subscribe lib s).1
    world_moves : (s : Conn W) (w : W) → Step lib s (record s { world = w })

  pub data Steps (lib : Lib W) : Conn W → Conn W → Type 0 where
    done : (s : Conn W) → Steps lib s s
    also : (s t u : Conn W) → Step lib s t → Steps lib t u → Steps lib s u

  -- The map holds what the others hold and, at most, one entry of the service, under its own id.
  abbrev pub IsClean : List (Bytes × EvtCbFunc W) → Conn W → Type 0
  IsClean others s =
      ((k : Bytes)
        → ((is_empty s.serv.sid ≡ true) ⊎ (beq s.serv.sid k ≡ false))
        → find k s.calls ≡ find k others)
      × (is_empty s.serv.sid ≡ false → find s.serv.sid others ≡ none)

  note_callback-IsClean :
      (lib : Lib W) (others : List (Bytes × EvtCbFunc W)) (c : EvtCbFunc W) (s : Conn W)
      (a : (ℤ × Bytes) × W)
      → is_empty s.serv.sid ≡ true
      → GoodAnswer lib others s.serv.sid a
      → IsClean others s
      → IsClean others (note_callback c (subscribed lib s a)).1
  note_callback-IsClean lib others c s ((ret, sid), w) h (inl (ok, full, free)) (same, mine) =
      rw ok (
        λ k d. elim d [
          | inl e ↦ absurd (cc (e, full))
          | inr e ↦
              find-assign sid k c s.calls
              ∙ ap (λ b. if b then some c else find k s.calls) e
              ∙ same k (inl h)
        ],
        λ e. free,
      )
  note_callback-IsClean lib others c s ((ret, sid), w) h (inr (ok, left)) (same, mine) =
      rw ok (λ k d. same k (inl h), λ e. absurd (cc (ap is_empty left ∙ h, e)))

  register_callback-IsClean :
      (lib : Lib W) (others : List (Bytes × EvtCbFunc W)) (c : EvtCbFunc W) (s : Conn W)
      → FreshIds lib others
      → is_empty s.serv.sid ≡ true
      → IsClean others s
      → IsClean others (register_callback lib c s).1
  unfolding register_callback subscribe
  register_callback-IsClean lib others c s fresh h v = elim (Bool-cases lib.present) [
    | inl e ↦ rw e (
        note_callback-IsClean lib others c s
          (lib.client.subscribe s.serv.event_url lib.subs_timeout s.serv.sid s.world) h
          (fresh s.serv.event_url s.serv.sid lib.subs_timeout s.world) v)
    | inr e ↦ rw e v
  ]

  erased-find :
      (mine k : Bytes) (calls others : List (Bytes × EvtCbFunc W))
      → find mine others ≡ none
      → (beq mine k ≡ false → find k calls ≡ find k others)
      → find k (erase mine calls) ≡ find k others
  erased-find mine k calls others h f = find-erase mine k calls ∙ elim (Bool-cases (beq mine k)) [
    | inl e ↦
        ap (λ b. if b then none else find k calls) e
        ∙ sym h
        ∙ ap (λ j. find j others) (beq→eq mine k e)
    | inr e ↦ ap (λ b. if b then none else find k calls) e ∙ f e
  ]

  -- A service that is unregistered has no id and the map is the one of the others.
  unregister_callback-IsClean :
      (lib : Lib W) (others : List (Bytes × EvtCbFunc W)) (s : Conn W)
      → IsClean others s
      → (is_empty (unregister_callback lib s).serv.sid ≡ true)
        × ((k : Bytes) → find k (unregister_callback lib s).calls ≡ find k others)
  unregister_callback-IsClean lib others s (same, mine) = elim (Bool-cases (is_empty s.serv.sid)) [
    | inl e ↦ (
      ap (λ t. is_empty t.serv.sid) (kept e) ∙ e,
      λ k. ap (λ t. find k t.calls) (kept e) ∙ same k (inl e),
    )
    | inr e ↦
        let (none_left, run) = unregister_callback_run lib s e in
        (
          ap is_empty none_left,
          λ k.
              ap (find k) run
              ∙ erased-find s.serv.sid k s.calls others (mine e) (λ f. same k (inr f)),
        )
  ]
    where
      kept : is_empty s.serv.sid ≡ true → unregister_callback lib s ≡ s
      kept e = unfold unregister_callback in rw e refl

  IsClean-empty :
      (others : List (Bytes × EvtCbFunc W)) (s : Conn W)
      → is_empty s.serv.sid ≡ true
      → ((k : Bytes) → find k s.calls ≡ find k others)
      → IsClean others s
  IsClean-empty others s h f = (λ k d. f k, λ e. absurd (cc (h, e)))

  again-IsClean :
      (lib : Lib W) (others : List (Bytes × EvtCbFunc W)) (s : Conn W) (o : Option (EvtCbFunc W))
      → FreshIds lib others
      → IsClean others s
      → IsClean others (subscribe_again lib s o).1
  unfolding subscribe_again
  again-IsClean lib others s none fresh v = v
  again-IsClean lib others s (some c) fresh v =
      let (h, f) = unregister_callback-IsClean lib others s v in
      let t = unregister_callback lib s in
      register_callback-IsClean lib others c t fresh h (IsClean-empty others t h f)

  Step-IsClean :
      (lib : Lib W) (others : List (Bytes × EvtCbFunc W)) (s t : Conn W)
      → FreshIds lib others
      → Step lib s t
      → IsClean others s
      → IsClean others t
  unfolding re_subscribe
  Step-IsClean lib others s _ fresh (Step.registers c _ h) v =
      register_callback-IsClean lib others c s fresh h v
  Step-IsClean lib others s _ fresh (Step.unregisters _) v =
      let (h, f) = unregister_callback-IsClean lib others s v in
      IsClean-empty others (unregister_callback lib s) h f
  Step-IsClean lib others s _ fresh (Step.resubscribes _) v =
      elim (Bool-cases (is_empty s.serv.sid)) [
        | inl e ↦ rw e v
        | inr e ↦ rw e (again-IsClean lib others s (find s.serv.sid s.calls) fresh v)
      ]
  Step-IsClean lib others s _ fresh (Step.world_moves _ w) v = v

  Steps-IsClean :
      (lib : Lib W) (others : List (Bytes × EvtCbFunc W)) (s t : Conn W)
      → FreshIds lib others
      → Steps lib s t
      → IsClean others s
      → IsClean others t
  Steps-IsClean lib others s _ fresh (Steps.done _) v = v
  Steps-IsClean lib others s u fresh (Steps.also _ t _ step steps) v =
      Steps-IsClean lib others t u fresh steps (Step-IsClean lib others s t fresh step v)

  -- A service object that starts with no subscription, registers, renews and drops them in any order,
  -- never asking for one while it has one, and is then destroyed, leaves the map of callbacks as it
  -- was: no event can reach the destroyed object. libupnp's ids must not be those of other services.
  pub Steps-unregister_callback :
      (lib : Lib W) (others : List (Bytes × EvtCbFunc W)) (s t : Conn W) (k : Bytes)
      → FreshIds lib others
      → is_empty s.serv.sid ≡ true
      → s.calls ≡ others
      → Steps lib s t
      → find k (unregister_callback lib t).calls ≡ find k others
  Steps-unregister_callback lib others s t k fresh h e steps =
      let start = IsClean-empty others s h (λ j. ap (find j) e) in
      (unregister_callback-IsClean lib others t (Steps-IsClean lib others s t fresh steps start)).1
        k
