-- ===== src/Text/Prefix/Greatest.antt =====
-- The shared prefix is the greatest one.
use libupnpp.Prelude.{◌++◌, ◌≡◌, Bytes}

-- The first text is a prefix of the second.
abbrev pub IsPrefix : Bytes → Bytes → Type 0
IsPrefix p s = (r : Bytes) × (s ≡ p ++ r)
