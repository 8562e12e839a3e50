-- ===== src/Transport/Modes.antt =====
-- The texts of modes and targets, as the device reads them.
use libupnpp.Prelude.{
  suc, ◌+◌, ◌*◌, ◌≤◌, leb, true, false, ◌<◌, ◌^◌, ◌≡◌, refl, ap, ◌∙◌, arith, Option, some, lt→ltb,
  Bytes,
}
use libupnpp.Prelude.Int.{ℤ, pos, negsuc}
use libupnpp.Text.Decimal.{i2s, atoi, upnpduration, upnpdurationtos}
use libupnpp.Text.Decimal.Print.{atoi-i2s}
use libupnpp.Text.Decimal.Duration.{signed_of, upnpdurationtos-upnpduration}
use libupnpp.Transport.{SeekMode, seek_target, time_text}

-- How a device reads the target of a seek: a time in the two time units, a number in the others.
abbrev pub read_target : SeekMode → Bytes → ℤ
read_target SeekMode.seek_track_nr t = atoi t
read_target SeekMode.seek_abs_time t = upnpdurationtos t
read_target SeekMode.seek_rel_time t = upnpdurationtos t
read_target SeekMode.seek_abs_count t = atoi t
read_target SeekMode.seek_rel_count t = atoi t
read_target SeekMode.seek_channel_freq t = atoi t
read_target SeekMode.seek_tape_index t = atoi t
read_target SeekMode.seek_frame t = atoi t
read_target SeekMode.seek_other t = atoi t

abbrev ReadsAs : (Bytes → ℤ) → ℤ → Option Bytes → Type 0
ReadsAs read z o = (t : Bytes) × (o ≡ some t) × (read t ≡ z)

-- The target in milliseconds is an `int`.
abbrev pub FitsInt : ℤ → Type 0
FitsInt (pos n) = n * 1000 < 2 ^ 31
FitsInt (negsuc n) = n * 1000 + 1000 ≤ 2 ^ 31

number_read : (z : ℤ) → FitsInt z → ReadsAs atoi z (i2s z)
number_read (pos n) h = atoi-i2s (pos n) (omega (arith, h)) (omega arith)
number_read (negsuc n) h = atoi-i2s (negsuc n) (omega arith) (omega (arith, h))

time_read : (z : ℤ) → FitsInt z → ReadsAs upnpdurationtos z (time_text z)
unfolding time_text
time_read (pos n) h = (
  upnpduration (pos (n * 1000)),
  rw (lt→ltb (n * 1000) (2 ^ 31) h) refl,
  upnpdurationtos-upnpduration false (n * 1000) (omega (arith, h)) ∙ ap pos (omega arith),
)
time_read (negsuc n) h =
    let within : leb (n * 1000 + 1000) (2 ^ 31) ≡ true = ground (arith, h) in
    (
      upnpduration (negsuc (n * 1000 + 999)),
      rw within refl,
      upnpdurationtos-upnpduration true (suc (n * 1000 + 999)) (omega (arith, h))
          ∙ ap (signed_of true) {y = suc n} (omega arith),
    )

-- The target of a seek, in whatever unit and of either sign, is read back by the device as it was given:
-- in seconds for the times, and as a number for the others, if the target in milliseconds is an `int`.
pub read_target-seek_target :
    (mode : SeekMode) (target : ℤ)
    → FitsInt target
    → (t : Bytes) × (seek_target mode target ≡ some t) × (read_target mode t ≡ target)
unfolding seek_target
read_target-seek_target SeekMode.seek_track_nr z h = number_read z h
read_target-seek_target SeekMode.seek_abs_time z h = time_read z h
read_target-seek_target SeekMode.seek_rel_time z h = time_read z h
read_target-seek_target SeekMode.seek_abs_count z h = number_read z h
read_target-seek_target SeekMode.seek_rel_count z h = number_read z h
read_target-seek_target SeekMode.seek_channel_freq z h = number_read z h
read_target-seek_target SeekMode.seek_tape_index z h = number_read z h
read_target-seek_target SeekMode.seek_frame z h = number_read z h
read_target-seek_target SeekMode.seek_other z h = number_read z h
