-- ===== src/Datetime/Zone.antt =====
-- src/cymo_datetime.c: `get_timezone_offset`, as it is compiled for Linux. What `localtime_r` stores is
-- an argument. `cm_timezone_update` only calls the system.
use libcymo.Common.{◌+◌, ◌/◌}
use libcymo.Common.Int.{ℤ, pos, negsuc, sub_ℕ}

-- The division of C by 60, which rounds towards zero.
abbrev pub div_60 : ℤ → ℤ
div_60 (pos n) = pos (n / 60)
div_60 (negsuc n) = sub_ℕ 0 ((n + 1) / 60)

-- The field `tm_gmtoff` has the seconds east of UTC.
unfoldable pub get_timezone_offset : ℤ → ℤ
get_timezone_offset tm_gmtoff = div_60 tm_gmtoff
