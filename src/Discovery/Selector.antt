-- ===== src/Discovery/Selector.antt =====
-- `getDevBySelector` of libupnpp/control/discovery.cxx: the search of the pool, with its waits, and the
-- delays that it uses.
use libupnpp.Prelude.{
  ℕ, zero, suc, ◌+◌, ◌-◌, ◌*◌, ◌/◌, ◌^◌, Bool, not, List, [], ◌∷◌, Option, none, some, ltb, leb,
  if◌then◌else◌, Bytes, beq,
}
use libupnpp.Discovery.{
  Device, Devices, no_more, and_more, desc_of, embedded, Descriptor, Directory,
}

-- `waits`: the thread still waits after the last round.
pub data Selected (S : Type 0) : Type 0 where
  found : Device S → Selected S
  not_found : Selected S
  waits : Selected S

module _ {S : Type 0} where
  -- One search of the pool by `getDevBySelector`. As in the code, `cmp` is true on a device that is
  -- not the one.
  unfoldable pub select_embedded :
      (Device S → Bytes → Bool) → Bytes → Devices S → Option (Device S) → Option (Device S)
  select_embedded cmp value no_more rest = rest
  select_embedded cmp value (and_more d ds) rest =
      if not (cmp d value) then some d else select_embedded cmp value ds rest

  unfoldable pub select :
      (Device S → Bytes → Bool) → Bytes → List (Bytes × Descriptor S) → Option (Device S)
  select cmp value [] = none
  select cmp value ((k, d) ∷ m) =
      if not (cmp d.dev value)
      then some d.dev
      else select_embedded cmp value (embedded d.dev) (select cmp value m)

  unfoldable pub cmp_fname : Device S → Bytes → Bool
  cmp_fname d fname = not (beq (desc_of d).friendly_name fname)

  unfoldable pub cmp_udn : Device S → Bytes → Bool
  cmp_udn d value = not (beq (desc_of d).udn value)

  abbrev pub round : Option (Device S) → ℕ → Selected S → Selected S
  round (some d) ms rest = found d
  round none zero rest = not_found
  round none (suc ms) rest = rest

module _ {S W : Type 0} where
  -- `getRemainingDelayMs` and `getRemainingDelay`.
  unfoldable pub remaining_ms : ℕ → Directory S W → ℕ
  remaining_ms now s =
      if s.initial_search_done
      then 0
      else (s.search_timeout * 10 ^ 9 + 200 * 10 ^ 6 + s.last_search - now) / 10 ^ 6

  unfoldable pub remaining_delay : ℕ → Directory S W → ℕ
  remaining_delay now s =
      let millis = remaining_ms now s in
      if leb millis 0 then 0 else if leb 1000 millis then millis / 1000 else 1

  -- The rounds of `getDevBySelector`, after its `expireDevices`: the directory and the clock of each.
  unfoldable pub get_dev_by_selector :
      (Device S → Bytes → Bool) → Bytes → List (ℕ × Directory S W) → Selected S
  get_dev_by_selector cmp value [] = waits
  get_dev_by_selector cmp value ((now, s) ∷ rs) =
      round (select cmp value s.devices) (remaining_ms now s) (get_dev_by_selector cmp value rs)

-- `UPnPDeviceDirectory::UPnPDeviceDirectory`: the search window, kept within bounds.
unfoldable pub clamp_window : ℕ → ℕ
clamp_window n = if ltb n 2 then 2 else if ltb 80 n then 80 else n
