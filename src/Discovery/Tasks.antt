-- ===== src/Discovery/Tasks.antt =====
-- What the tasks of discovery and the expiry of devices make of the pool.
use libupnpp.Prelude.{
  ℕ, ◌+◌, ◌*◌, ◌^◌, Bool, true, false, not, List, [], ◌∷◌, ◌≡◌, ◌⊎◌, refl, sym, ap, ◌∙◌, Option,
  none, some, ltb, if◌then◌else◌, ◌&&◌, ◌||◌, Bytes, beq, beq→eq, find, find-erase, Bool-cases, inl,
  inr, subst,
}
use libupnpp.Discovery.{
  Device, desc_of, Visitor, Descriptor, Task, Directory, expired, call_all, expire_walk,
  expire_devices, explore, search, searched, after_walk, say_bye,
}
use libupnpp.Discovery.Pool.{
  Above, IsSorted, find-Above, find-store, store-IsSorted, erase-IsSorted,
}

module _ {S : Type 0} where
  -- The task is one that changes the entry of its device: a departure, or an arrival whose description
  -- could be parsed.
  abbrev counts : Task → Device S → Bool
  counts tsk d = not tsk.alive || (desc_of d).ok

  -- What the pool has under the task's device after it.
  abbrev entry_after : ℕ → Task → Device S → Option (Descriptor S)
  entry_after now tsk d =
      if tsk.alive then some (record { dev = d; last_seen = now; expires = tsk.expires }) else none

  -- What the pool has under a key after the walk.
  abbrev pub alive_entry : ℕ → Option (Descriptor S) → Option (Descriptor S)
  alive_entry now none = none
  alive_entry now (some d) = if expired now d then none else some d

  find_head_gone :
      (now : ℕ) (k j : Bytes) (d : Descriptor S) (m : List (Bytes × Descriptor S))
      → expired now d ≡ true
      → Above k m
      → alive_entry now (find j m) ≡ alive_entry now (find j ((k, d) ∷ m))
  unfolding find
  find_head_gone now k j d m e a = elim (Bool-cases (beq k j)) [
    | inl f ↦
        ap (alive_entry now) (subst (λ i. find i m ≡ none) (beq→eq k j f) (find-Above k m a))
        ∙ rw (f, e) refl
    | inr f ↦ rw f refl
  ]

  find_head_kept :
      (now : ℕ) (k j : Bytes) (d : Descriptor S) (m l : List (Bytes × Descriptor S))
      → expired now d ≡ false
      → find j l ≡ alive_entry now (find j m)
      → find j ((k, d) ∷ l) ≡ alive_entry now (find j ((k, d) ∷ m))
  unfolding find
  find_head_kept now k j d m l e h = elim (Bool-cases (beq k j)) [
    | inl f ↦ rw (f, e) refl
    | inr f ↦ rw f h
  ]

module _ {S W : Type 0} where
  bye_find :
      (k j : Bytes) (o : Option (Descriptor S)) (s : Directory S W) (w : W)
      → find k s.devices ≡ o
      → find j (say_bye k o s w).0.devices ≡ (if beq k j then none else find j s.devices)
  bye_find k j none s w h = same (Bool-cases (beq k j))
    where
      same :
          ((beq k j ≡ true) ⊎ (beq k j ≡ false))
          → find j s.devices ≡ (if beq k j then none else find j s.devices)
      same (inl e) = rw e (subst (λ i. find i s.devices ≡ none) (beq→eq k j e) h)
      same (inr e) = rw e refl
  bye_find k j (some d) s w h = find-erase k j s.devices

  -- A task that discovery takes changes the entry of its own device and no other: a departure removes
  -- it, an arrival puts the new description, date and validity there, and an arrival whose description
  -- does not parse changes nothing.
  pub find-explore :
      (parse : Bytes → Bytes → Device S) (now : ℕ) (tsk : Task) (j : Bytes) (s : Directory S W)
      (w : W)
      → find j (explore parse now tsk s w).0.devices ≡ (
          if beq tsk.device_id j && counts tsk (parse tsk.url tsk.description)
          then entry_after now tsk (parse tsk.url tsk.description)
          else find j s.devices)
  unfolding explore
  find-explore parse now tsk j s w = elim (Bool-cases tsk.alive) [
    | inr e ↦ rw e (
        bye_find tsk.device_id j (find tsk.device_id s.devices) s w refl
        ∙ and_true (beq tsk.device_id j) none (find j s.devices))
    | inl e ↦ elim (Bool-cases (desc_of (parse tsk.url tsk.description)).ok) [
      | inl f ↦
          rw (e, f)
            (find-store tsk.device_id j _ s.devices
              ∙ and_true (beq tsk.device_id j) _ (find j s.devices))
      | inr f ↦ rw (e, f) (and_false (beq tsk.device_id j) _ (find j s.devices))
    ]
  ]
    where
      and_true :
          (b : Bool) (x y : Option (Descriptor S))
          → (if b then x else y) ≡ (if b && true then x else y)
      and_true true x y = refl
      and_true false x y = refl

      and_false : (b : Bool) (x y : Option (Descriptor S)) → y ≡ (if b && false then x else y)
      and_false true x y = refl
      and_false false x y = refl

  bye_IsSorted :
      (k : Bytes) (o : Option (Descriptor S)) (s : Directory S W) (w : W)
      → IsSorted s.devices
      → IsSorted (say_bye k o s w).0.devices
  bye_IsSorted k none s w h = h
  bye_IsSorted k (some d) s w h = erase-IsSorted k s.devices h

  -- The pool stays in the order of `std::map`, each key once, whatever task is processed.
  pub explore-IsSorted :
      (parse : Bytes → Bytes → Device S) (now : ℕ) (tsk : Task) (s : Directory S W) (w : W)
      → IsSorted s.devices
      → IsSorted (explore parse now tsk s w).0.devices
  unfolding explore
  explore-IsSorted parse now tsk s w h = elim (Bool-cases tsk.alive) [
    | inr e ↦ rw e (bye_IsSorted tsk.device_id (find tsk.device_id s.devices) s w h)
    | inl e ↦ elim (Bool-cases (desc_of (parse tsk.url tsk.description)).ok) [
      | inl f ↦ rw (e, f) (store-IsSorted tsk.device_id _ s.devices h)
      | inr f ↦ rw (e, f) h
    ]
  ]

  abbrev walked :
      List (Visitor S W) → ℕ → List (Bytes × Descriptor S) → W → List (Bytes × Descriptor S)
  walked cbs now m w = (expire_walk cbs now m w).0.1

  Above-walk :
      (cbs : List (Visitor S W)) (now : ℕ) (i : Bytes) (m : List (Bytes × Descriptor S)) (w : W)
      → Above i m
      → Above i (walked cbs now m w)
  unfolding expire_walk
  Above-walk cbs now i [] w a = tt
  Above-walk cbs now i ((k, d) ∷ m) w (a, below) = elim (Bool-cases (expired now d)) [
    | inl e ↦ rw (e, Above) (Above-walk cbs now i m (call_all cbs d.dev w) below)
    | inr e ↦ rw (e, Above) (a, Above-walk cbs now i m w below)
  ]

  walk-IsSorted :
      (cbs : List (Visitor S W)) (now : ℕ) (m : List (Bytes × Descriptor S)) (w : W)
      → IsSorted m
      → IsSorted (walked cbs now m w)
  unfolding expire_walk
  walk-IsSorted cbs now [] w h = tt
  walk-IsSorted cbs now ((k, d) ∷ m) w (a, h) = elim (Bool-cases (expired now d)) [
    | inl e ↦ rw (e, IsSorted) (walk-IsSorted cbs now m (call_all cbs d.dev w) h)
    | inr e ↦ rw (e, IsSorted) (Above-walk cbs now k m w a, walk-IsSorted cbs now m w h)
  ]

  walked_gone :
      (cbs : List (Visitor S W)) (now : ℕ) (k : Bytes) (d : Descriptor S)
      (m : List (Bytes × Descriptor S)) (w : W)
      → expired now d ≡ true
      → walked cbs now ((k, d) ∷ m) w ≡ walked cbs now m (call_all cbs d.dev w)
  unfolding expire_walk
  walked_gone cbs now k d m w e = rw (e, walked) refl

  walked_kept :
      (cbs : List (Visitor S W)) (now : ℕ) (k : Bytes) (d : Descriptor S)
      (m : List (Bytes × Descriptor S)) (w : W)
      → expired now d ≡ false
      → walked cbs now ((k, d) ∷ m) w ≡ (k, d) ∷ walked cbs now m w
  unfolding expire_walk
  walked_kept cbs now k d m w e = rw (e, walked) refl

  find-walk :
      (cbs : List (Visitor S W)) (now : ℕ) (m : List (Bytes × Descriptor S)) (w : W) (j : Bytes)
      → IsSorted m
      → find j (walked cbs now m w) ≡ alive_entry now (find j m)
  unfolding expire_walk find
  find-walk cbs now [] w j h = refl
  find-walk cbs now ((k, d) ∷ m) w j (a, h) = elim (Bool-cases (expired now d)) [
    | inl e ↦
        ap (find j) (walked_gone cbs now k d m w e)
        ∙ find-walk cbs now m (call_all cbs d.dev w) j h
        ∙ find_head_gone now k j d m e a
    | inr e ↦
        ap (find j) (walked_kept cbs now k d m w e)
        ∙ find_head_kept now k j d m (walked cbs now m w) e (find-walk cbs now m w j h)
  ]

  -- A search changes nothing but the record of searches.
  search_devices :
      (answer : Option Bool) (now stamp : ℕ) (s : Directory S W)
      → (search answer now stamp s).1.devices ≡ s.devices
  unfolding search
  search_devices answer now stamp s =
      elim (Bool-cases (ltb now (s.last_search + s.search_timeout * 10 ^ 9))) [
        | inl e ↦ rw e refl
        | inr e ↦ rw e (done answer)
      ]
    where
      done : (a : Option Bool) → (searched a stamp s).1.devices ≡ s.devices
      done none = refl
      done (some false) = refl
      done (some true) = refl

  after_walk_devices :
      (answer : Option Bool) (t1 t2 t3 : ℕ) (s : Directory S W)
      (r : (Bool × List (Bytes × Descriptor S)) × W)
      → (after_walk answer t1 t2 t3 s r).0.devices ≡ r.0.1
  after_walk_devices answer t1 t2 t3 s ((did, m), w) =
      elim (Bool-cases (did || ltb (s.last_search + 5 * 10 ^ 9) t1)) [
        | inl e ↦ rw e (search_devices answer t2 t3 (record s { devices = m }))
        | inr e ↦ rw e refl
      ]

  -- `expireDevices` removes exactly the devices whose validity has run out: on a pool in the map's order
  -- every key keeps what it had if that has not expired, and has nothing if it has. The order is kept.
  -- No answer of libupnp to the search that may follow changes the pool.
  pub find-expire_devices :
      (answer : Option Bool) (now t1 t2 t3 : ℕ) (s : Directory S W) (w : W) (j : Bytes)
      → IsSorted s.devices
      → (find j (expire_devices answer now t1 t2 t3 s w).0.devices
          ≡ alive_entry now (find j s.devices))
        × IsSorted (expire_devices answer now t1 t2 t3 s w).0.devices
  unfolding expire_devices
  find-expire_devices answer now t1 t2 t3 s w j h =
      let same =
        after_walk_devices answer t1 t2 t3 s (expire_walk s.lost_callbacks now s.devices w) in
      (
        ap (find j) same ∙ find-walk s.lost_callbacks now s.devices w j h,
        subst IsSorted (sym same) (walk-IsSorted s.lost_callbacks now s.devices w h),
      )
