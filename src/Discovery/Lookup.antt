-- ===== src/Discovery/Lookup.antt =====
-- What `getDevBySelector` finds, and how long it waits.
use libupnpp.Prelude.{
  ℕ, zero, suc, ◌+◌, ◌*◌, ◌≤◌, Bool, false, not, List, [], ◌∷◌, ◌++◌, ◌≡◌, ◌↔◌, refl, sym, ap, ◌∙◌,
  arith, Option, none, some, if◌then◌else◌, Bytes, beq, beq_iff, Bool-cases, inl, inr,
  some-injective, subst,
}
use libupnpp.Discovery.{
  Device, Devices, no_more, and_more, desc_of, embedded, Descriptor, Directory,
}
use libupnpp.Discovery.Selector.{
  select, select_embedded, cmp_udn, cmp_fname, get_dev_by_selector, Selected, found, not_found,
  waits, remaining_ms, remaining_delay, clamp_window, round,
}

module _ {S : Type 0} where
  -- The devices that a search looks at, in order: each root device, then those embedded in it.
  abbrev listed : Devices S → List (Device S)
  listed no_more = []
  listed (and_more d ds) = d ∷ listed ds

  abbrev pub candidates : List (Bytes × Descriptor S) → List (Device S)
  candidates [] = []
  candidates ((k, d) ∷ m) = d.dev ∷ listed (embedded d.dev) ++ candidates m

  pub first : (Device S → Bytes → Bool) → Bytes → List (Device S) → Option (Device S)
  first cmp value [] = none
  first cmp value (d ∷ ds) = if not (cmp d value) then some d else first cmp value ds

  select_embedded-first :
      (cmp : Device S → Bytes → Bool) (value : Bytes) (ds : Devices S) (rest : List (Device S))
      → select_embedded cmp value ds (first cmp value rest) ≡ first cmp value (listed ds ++ rest)
  unfolding select_embedded first
  select_embedded-first cmp value no_more rest = refl
  select_embedded-first cmp value (and_more d ds) rest =
      ap (λ o. if not (cmp d value) then some d else o) (select_embedded-first cmp value ds rest)

  -- One search of the pool gives the first device that matches, a root device before those embedded in
  -- it, in the order of the pool; it gives none exactly when no device of the pool matches.
  pub select-first :
      (cmp : Device S → Bytes → Bool) (value : Bytes) (m : List (Bytes × Descriptor S))
      → select cmp value m ≡ first cmp value (candidates m)
  unfolding select first
  select-first cmp value [] = refl
  select-first cmp value ((k, d) ∷ m) =
      ap
        (λ o.
          if not (cmp d.dev value)
          then some d.dev
          else select_embedded cmp value (embedded d.dev) o)
        (select-first cmp value m)
      ∙ ap (λ o. if not (cmp d.dev value) then some d.dev else o)
          (select_embedded-first cmp value (embedded d.dev) (candidates m))

  first-cmp :
      (cmp : Device S → Bytes → Bool) (value : Bytes) (ds : List (Device S)) (d : Device S)
      → first cmp value ds ≡ some d
      → cmp d value ≡ false
  unfolding first
  first-cmp cmp value [] d h = cc
  first-cmp cmp value (e ∷ ds) d h = elim (Bool-cases (cmp e value)) [
    | inl f ↦ first-cmp cmp value ds d (rw f at h)
    | inr f ↦ ap (λ x. cmp x value) (sym (some-injective _ _ (rw f at h))) ∙ f
  ]

abbrev pub CmpGood : {S : Type 0} → (Device S → Bytes → Bool) → Bytes → Selected S → Type 0
CmpGood cmp value (found d) = cmp d value ≡ false
CmpGood cmp value not_found = Unit
CmpGood cmp value waits = Unit

not-beq : (a b : Bytes) → not (beq a b) ≡ false → a ≡ b
not-beq a b h = ground (arith, beq_iff a b)

module _ {S : Type 0} where
  round_good :
      (cmp : Device S → Bytes → Bool) (value : Bytes) (o : Option (Device S)) (ms : ℕ)
      (rest : Selected S)
      → ((d : Device S) → o ≡ some d → cmp d value ≡ false)
      → CmpGood cmp value rest
      → CmpGood cmp value (round o ms rest)
  round_good cmp value (some d) ms rest h k = h d refl
  round_good cmp value none zero rest h k = tt
  round_good cmp value none (suc ms) rest h k = k

module _ {S W : Type 0} where
  get_good :
      (cmp : Device S → Bytes → Bool) (value : Bytes) (rs : List (ℕ × Directory S W))
      → CmpGood cmp value (get_dev_by_selector cmp value rs)
  unfolding get_dev_by_selector
  get_good cmp value [] = tt
  get_good cmp value ((now, s) ∷ rs) =
      round_good cmp value (select cmp value s.devices) (remaining_ms now s)
        (get_dev_by_selector cmp value rs)
        (λ d e.
          first-cmp cmp value (candidates s.devices) d (sym (select-first cmp value s.devices) ∙ e))
        (get_good cmp value rs)

  -- A device that is looked up by UDN and found, after however many waits, has that UDN, and one that is
  -- looked up by friendly name has that name.
  pub get_dev_by_selector-found :
      (udn name : Bytes) (rs qs : List (ℕ × Directory S W)) (d e : Device S)
      → get_dev_by_selector cmp_udn udn rs ≡ found d
      → get_dev_by_selector cmp_fname name qs ≡ found e
      → ((desc_of d).udn ≡ udn) × ((desc_of e).friendly_name ≡ name)
  unfolding cmp_udn cmp_fname
  get_dev_by_selector-found udn name rs qs d e h k = (
    not-beq _ _ (subst (CmpGood cmp_udn udn) h (get_good cmp_udn udn rs)),
    not-beq _ _ (subst (CmpGood cmp_fname name) k (get_good cmp_fname name qs)),
  )

  -- The remaining delay in seconds is zero exactly when that in milliseconds is: rounding never ends the
  -- waiting early. Before the initial search is done, and when the last search is not in the future, it
  -- is at most the search window and the grace of 200 ms.
  pub remaining_delay_bounds :
      (now : ℕ) (s : Directory S W)
      → s.last_search ≤ now
      → ((remaining_delay now s ≡ 0) ↔ (remaining_ms now s ≡ 0))
        × (remaining_ms now s ≤ s.search_timeout * 1000 + 200)
  unfolding remaining_delay remaining_ms
  remaining_delay_bounds now s h = ground arith

-- The search window is within its bounds, and is the one asked for exactly if that is.
pub clamp_window_bounds :
    (n : ℕ)
    → (2 ≤ clamp_window n) × (clamp_window n ≤ 80) × ((clamp_window n ≡ n) ↔ ((2 ≤ n) × (n ≤ 80)))
unfolding clamp_window
clamp_window_bounds n = ground arith
