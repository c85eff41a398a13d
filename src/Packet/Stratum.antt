-- ===== src/Packet/Stratum.antt =====
-- crates/heeler-core/src/packet.rs, `Stratum`: byte 1 of a packet. The wrapped byte is the number.
use heeler.Common.{ℕ, Bool, leb, ◌==◌, if◌then◌else◌, Result, ok, err}
use heeler.Errors.{ConfigError, stratum_zero, stratum_too_high}

abbrev pub kiss_of_death : ℕ
kiss_of_death = 0

abbrev pub unsynchronised : ℕ
unsynchronised = 16

-- A configured server stratum.
unfoldable pub for_server : ℕ → Result ConfigError ℕ
for_server value =
    if value == 0
    then err stratum_zero
    else if leb value 15
    then ok value
    else err (stratum_too_high value)

unfoldable pub is_kiss_of_death : ℕ → Bool
is_kiss_of_death value = value == 0
