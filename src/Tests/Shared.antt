-- ===== src/Tests/Shared.antt =====
-- Options, keys and errors at concrete inputs.
use nyro.Base.{◌≡◌, refl}
use nyro.Base.Duration.{negsuc}
use nyro.Base.Text.{bytes}
use nyro.Keys.{int, to_string}
use nyro.Keys.Decimal.{format_uint, format_int}

negative_number : to_string (int (negsuc 41)) ≡ bytes "-42"
unfolding to_string format_uint format_int
negative_number = refl
