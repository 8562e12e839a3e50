-- ===== src/Device/Events.antt =====
-- How often the event loop polls: early wake-ups are held back, but not for long.
use libupnpp.Prelude.{
  ℕ, ◌-◌, ◌≤◌, Bool, true, false, List, [], ◌∷◌, arith, ltb, Bool-cases, inl, inr,
}
use libupnpp.Device.Loop.{Wake, early, normal, LoopState, on_wake}

abbrev keep_polled : Bool → Wake → List Wake → List Wake
keep_polled true w ws = w ∷ ws
keep_polled false w ws = ws

-- The waits after which the loop polls, in order.
unfoldable pub polls : List Wake → LoopState → List Wake
polls [] s = []
polls (w ∷ ws) s = keep_polled (on_wake w s).0 w (polls ws (on_wake w s).1)

-- From an early poll at `p` on: a later early one, with no normal one between, is a second behind.
abbrev AfterEarly : ℕ → List Wake → Type 0
AfterEarly p [] = Unit
AfterEarly p (normal t ∷ ws) = Unit
AfterEarly p (early t ∷ ws) = 1000 ≤ t - p

abbrev pub Spaced : List Wake → Type 0
Spaced [] = Unit
Spaced (normal t ∷ ws) = Spaced ws
Spaced (early t ∷ ws) = AfterEarly t ws × Spaced ws

polls-AfterEarly :
    (ws : List Wake) (p : ℕ) → AfterEarly p (polls ws (record { didearly = true; earlytime = p }))
unfolding polls on_wake
polls-AfterEarly [] p = tt
polls-AfterEarly (normal t ∷ ws) p = tt
polls-AfterEarly (early t ∷ ws) p = elim (Bool-cases (ltb (t - p) 1000)) [
  | inl e ↦ rw e (polls-AfterEarly ws p)
  | inr e ↦ rw e (ground arith)
]

-- Two polls after early wake-ups, with no poll after a normal wait between them, are at least a second
-- apart, for every sequence of waits.
pub polls-Spaced : (ws : List Wake) (s : LoopState) → Spaced (polls ws s)
unfolding polls on_wake
polls-Spaced [] s = tt
polls-Spaced (normal t ∷ ws) s = polls-Spaced ws (record s { didearly = false })
polls-Spaced (early t ∷ ws) s = elim (Bool-cases s.didearly) [
  | inl d ↦ elim (Bool-cases (ltb (t - s.earlytime) 1000)) [
    | inl e ↦ rw (d, e) (polls-Spaced ws (record { didearly = true; earlytime = s.earlytime }))
    | inr e ↦
        rw (d, e)
          (polls-AfterEarly ws t, polls-Spaced ws (record { didearly = true; earlytime = t }))
  ]
  | inr d ↦
      rw d (polls-AfterEarly ws t, polls-Spaced ws (record { didearly = true; earlytime = t }))
]
