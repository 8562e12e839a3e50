-- ===== src/Transport/Tests.antt =====
-- The theorem on seeking, at a time before the current one.
use libupnpp.Prelude.{◌≡◌, refl, arith, some, Bytes, codes}
use libupnpp.Prelude.Int.{negsuc}
use libupnpp.Text.Decimal.{upnpduration}
use libupnpp.Transport.{SeekMode, seek_target}
use libupnpp.Transport.Modes.{read_target, read_target-seek_target}

read_target-seek_target_example :
    (t : Bytes) × (seek_target SeekMode.seek_rel_time (negsuc 94) ≡ some t)
    × (read_target SeekMode.seek_rel_time t ≡ negsuc 94)
read_target-seek_target_example =
    read_target-seek_target SeekMode.seek_rel_time (negsuc 94) (omega arith)

-- Every field of a negative duration has its sign.
before_zero : upnpduration (negsuc 94999) ≡ codes "0:-1:-35"
unfolding upnpduration
before_zero = refl
