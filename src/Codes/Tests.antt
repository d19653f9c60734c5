-- ===== src/Codes/Tests.antt =====
-- src/sip.c: a code and its name.
use sngrep.Common.{ℕ, ◌≡◌, refl, some, List}
use sngrep.Common.Int.{ℤ, pos}
use sngrep.Codes.{codes, sip_method_str, sip_method_from_str}
use sngrep.Codes.RoundTrip.{sip_method_from_str-sip_method_str}

abbrev atoi_0 : List ℕ → ℤ
atoi_0 t = pos 0

busy_name : sip_method_str 486 ≡ some (codes "486 Busy Here")
unfolding sip_method_str
busy_name = refl

sip_method_from_str-sip_method_str_example :
    sip_method_from_str atoi_0 (codes "486 Busy Here") ≡ pos 486
sip_method_from_str-sip_method_str_example =
    sip_method_from_str-sip_method_str atoi_0 486 (codes "486 Busy Here") busy_name
