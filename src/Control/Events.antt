-- ===== src/Control/Events.antt =====
-- To which callback an event goes after the subscriptions of a service have changed.
use libupnpp.Prelude.{
  Bool, true, false, List, [], ◌≡◌, inl, inr, refl, sym, ap, ◌∙◌, subst, Option, none, some,
  Bool-cases, if◌then◌else◌, Bytes, beq, find, assign, erase, find-assign, find-erase,
}
use libupnpp.Control.{Conn, Lib, EvtCbFunc, is_empty}
use libupnpp.Control.Subscribing.{
  SubEvent, deliver, srv_cb, subscribe, un_subscribe, note_callback, register_callback, forget_sid,
  unregister_callback, re_subscribe, subscribe_again,
}

module _ {W : Type 0} where
  deliver-if :
      (ev : SubEvent) (b : Bool) (o p : Option (EvtCbFunc W)) (w : W)
      → deliver ev (if b then o else p) w ≡ (if b then deliver ev o w else deliver ev p w)
  deliver-if ev true o p w = refl
  deliver-if ev false o p w = refl

  deliver-none : (ev : SubEvent) (w : W) → deliver {W = W} ev none w ≡ w
  deliver-none SubEvent.autorenewal_failed w = refl
  deliver-none (SubEvent.event_received vars) w = refl
  deliver-none SubEvent.other_type w = refl

  -- After the operation an event for `mine` goes to `o`, and any other as before.
  abbrev pub Reroutes :
      Bytes
      → Option (EvtCbFunc W)
      → List (Bytes × EvtCbFunc W)
      → List (Bytes × EvtCbFunc W)
      → Type 0
  Reroutes mine o before after =
      (ev : SubEvent) (sid : Bytes) (w : W)
      → srv_cb ev sid after w ≡ (if beq mine sid then deliver ev o w else srv_cb ev sid before w)

  assign-Reroutes :
      (mine : Bytes) (c : EvtCbFunc W) (calls : List (Bytes × EvtCbFunc W))
      → Reroutes mine (some c) calls (assign mine c calls)
  unfolding srv_cb
  assign-Reroutes mine c calls ev sid w =
      ap (λ o. deliver ev o w) (find-assign mine sid c calls)
      ∙ deliver-if ev (beq mine sid) (some c) (find sid calls) w

  erase-Reroutes :
      (mine : Bytes) (calls : List (Bytes × EvtCbFunc W))
      → Reroutes mine none calls (erase mine calls)
  unfolding srv_cb
  erase-Reroutes mine calls ev sid w =
      ap (λ o. deliver ev o w) (find-erase mine sid calls)
      ∙ deliver-if ev (beq mine sid) none (find sid calls) w

  pub subscribe-calls : (lib : Lib W) (s : Conn W) → (subscribe lib s).1.calls ≡ s.calls
  unfolding subscribe
  subscribe-calls lib s = elim (Bool-cases lib.present) [ inl e ↦ rw e refl | inr e ↦ rw e refl ]

  pub un_subscribe-calls :
      (lib : Lib W) (s : Conn W)
      → ((un_subscribe lib s).1.calls ≡ s.calls) × ((un_subscribe lib s).1.serv ≡ s.serv)
  unfolding un_subscribe
  un_subscribe-calls lib s = elim (Bool-cases lib.present) [
    | inl e ↦ elim (Bool-cases (is_empty s.serv.sid)) [
      | inl f ↦ rw (e, f) (refl, refl)
      | inr f ↦ rw (e, f) (refl, refl)
    ]
    | inr e ↦ rw e (refl, refl)
  ]

  note_callback-Reroutes :
      (c : EvtCbFunc W) (calls : List (Bytes × EvtCbFunc W)) (r : Bool × Conn W)
      → r.0 ≡ true
      → r.1.calls ≡ calls
      → ((note_callback c r).0 ≡ true)
        × Reroutes (note_callback c r).1.serv.sid (some c) calls (note_callback c r).1.calls
  note_callback-Reroutes c calls (false, s) h e = absurd (cc)
  note_callback-Reroutes c calls (true, s) h e = (
    refl,
    subst (λ l. Reroutes s.serv.sid (some c) l (assign s.serv.sid c s.calls)) e
        (assign-Reroutes s.serv.sid c s.calls),
  )

  -- A callback that was registered, libupnp having accepted the subscription, is what later events with
  -- the new subscription id are given to, with their variables; the events of every other subscription
  -- go where they went.
  pub srv_cb-register_callback :
      (lib : Lib W) (c : EvtCbFunc W) (s : Conn W)
      → (subscribe lib s).0 ≡ true
      → ((register_callback lib c s).0 ≡ true)
        × Reroutes
            (register_callback lib c s).1.serv.sid
            (some c)
            s.calls
            (register_callback lib c s).1.calls
  unfolding register_callback
  srv_cb-register_callback lib c s h =
      note_callback-Reroutes c s.calls (subscribe lib s) h (subscribe-calls lib s)

  pub unregister_callback_run :
      (lib : Lib W) (s : Conn W)
      → is_empty s.serv.sid ≡ false
      → ((unregister_callback lib s).serv.sid ≡ [])
        × ((unregister_callback lib s).calls ≡ erase s.serv.sid s.calls)
  unfolding unregister_callback
  unregister_callback_run lib s h =
      let (ec, es) = un_subscribe-calls lib s in
      (
        ap (λ b. (if b then s else forget_sid (un_subscribe lib s).1).serv.sid) h,
        ap (λ b. (if b then s else forget_sid (un_subscribe lib s).1).calls) h
            ∙ ap (λ v. erase v.sid (un_subscribe lib s).1.calls) es
            ∙ ap (erase s.serv.sid) ec,
      )

  -- A service that was subscribed and is unregistered has no subscription any more, whatever libupnp says
  -- to that; the events of its old one go nowhere, and those of the others where they went.
  pub srv_cb-unregister_callback :
      (lib : Lib W) (s : Conn W)
      → is_empty s.serv.sid ≡ false
      → ((unregister_callback lib s).serv.sid ≡ [])
        × Reroutes s.serv.sid none s.calls (unregister_callback lib s).calls
  srv_cb-unregister_callback lib s h =
      let (e, f) = unregister_callback_run lib s h in
      (e, subst (Reroutes s.serv.sid none s.calls) (sym f) (erase-Reroutes s.serv.sid s.calls))

  pub re_subscribe_run :
      (lib : Lib W) (c : EvtCbFunc W) (s : Conn W)
      → is_empty s.serv.sid ≡ false
      → find s.serv.sid s.calls ≡ some c
      → re_subscribe lib s ≡ (true, (register_callback lib c (unregister_callback lib s)).1)
  unfolding re_subscribe
  re_subscribe_run lib c s h f =
      ap (λ b. if b then (false, s) else subscribe_again lib s (find s.serv.sid s.calls)) h
      ∙ ap (subscribe_again lib s) f

  -- A new subscription in place of an old one, which libupnp accepts: the events with the new id go to
  -- the callback that had those with the old id, these go nowhere unless the ids are the same, and the
  -- events of the other subscriptions go where they went.
  pub srv_cb-re_subscribe :
      (lib : Lib W) (c : EvtCbFunc W) (s : Conn W) (ev : SubEvent) (sid : Bytes) (w : W)
      → is_empty s.serv.sid ≡ false
      → find s.serv.sid s.calls ≡ some c
      → (subscribe lib (unregister_callback lib s)).0 ≡ true
      → ((re_subscribe lib s).0 ≡ true)
        × (srv_cb ev sid (re_subscribe lib s).1.calls w ≡ (
            if beq (re_subscribe lib s).1.serv.sid sid
            then deliver ev (some c) w
            else if beq s.serv.sid sid
            then w
            else srv_cb ev sid s.calls w))
  srv_cb-re_subscribe lib c s ev sid w h f ok =
      let t = unregister_callback lib s in
      let r = (register_callback lib c t).1 in
      let e = re_subscribe_run lib c s h f in
      let (k, new) = srv_cb-register_callback lib c t ok in
      let (l, old) = srv_cb-unregister_callback lib s h in
      (
        ap (λ p. p.0) e,
        ap (λ p. srv_cb ev sid p.1.calls w) e
            ∙ new ev sid w
            ∙ ap (λ v. if beq r.serv.sid sid then deliver ev (some c) w else v) (old ev sid w)
            ∙ ap
                (λ v.
                  if beq r.serv.sid sid
                  then deliver ev (some c) w
                  else if beq s.serv.sid sid
                  then v
                  else srv_cb ev sid s.calls w)
                (deliver-none ev w)
            ∙ ap
                (λ p.
                  if beq p.1.serv.sid sid
                  then deliver ev (some c) w
                  else if beq s.serv.sid sid
                  then w
                  else srv_cb ev sid s.calls w)
                (sym e),
      )
