-- ===== src/Packet/Display.antt =====
-- crates/heeler-core/src/packet.rs and timestamp.rs: the `Display` of a packet's field types. Text is
-- the list of its characters, all of which are ASCII. A version and a stratum are shown as numbers.
use heeler.Common.{
  ℕ, ◌-◌, ◌≡◌, refl, Bool, true, false, not, ◌&&◌, ◌||◌, ◌==◌, if◌then◌else◌, ok, List, [], ◌∷◌,
  ◌++◌, length, all, codes, replicate, arith,
}
use heeler.Common.Decimal.{show, digits_before}
use heeler.Common.Lines.{show_hex, IsLine, append-IsLine, show_hex-IsLine}
use heeler.Timestamp.{NtpTimestamp}
use heeler.Packet.LeapIndicator
use heeler.Packet.LeapIndicator.{LeapIndicator}
use heeler.Packet.Mode
use heeler.Packet.Mode.{Mode}
use heeler.Packet.ReferenceId.{ReferenceId, printable, from_bytes, as_bytes, from_config}

-- A number and its name, `{} ({text})`.
abbrev numbered : ℕ → List ℕ → List ℕ
numbered n text = show n ++ (codes " (" ++ (text ++ codes ")"))

abbrev leap_name : LeapIndicator → List ℕ
leap_name LeapIndicator.no_warning = codes "no warning"
leap_name LeapIndicator.last_minute_61 = codes "last minute has 61 seconds"
leap_name LeapIndicator.last_minute_59 = codes "last minute has 59 seconds"
leap_name LeapIndicator.unsynchronised = codes "unsynchronised"

unfoldable pub show_leap : LeapIndicator → List ℕ
unfolding LeapIndicator.to_bits show
show_leap leap = numbered (LeapIndicator.to_bits leap) (leap_name leap)

abbrev mode_name : Mode → List ℕ
mode_name Mode.reserved = codes "reserved"
mode_name Mode.symmetric_active = codes "symmetric active"
mode_name Mode.symmetric_passive = codes "symmetric passive"
mode_name Mode.client = codes "client"
mode_name Mode.server = codes "server"
mode_name Mode.broadcast = codes "broadcast"
mode_name Mode.control = codes "control"
mode_name Mode.private = codes "private"

unfoldable pub show_mode : Mode → List ℕ
unfolding Mode.to_bits show
show_mode mode = numbered (Mode.to_bits mode) (mode_name mode)

-- `{}.{:010}`.
unfoldable pub show_timestamp : NtpTimestamp → List ℕ
unfolding show
show_timestamp t =
    let fraction = show t.fraction in
    show t.seconds ++ (b'.' ∷ (replicate (10 - length fraction) b'0' ++ fraction))

-- `take_while` up to the first zero.
abbrev pub until_zero : List ℕ → List ℕ
until_zero [] = []
until_zero (b ∷ bytes) = if b == 0 then [] else b ∷ until_zero bytes

abbrev pub or_zero : ℕ → Bool
or_zero b = printable b || b == 0

-- The bytes up to a zero if all are printable or zero and the first is not, else all four in
-- hexadecimal.
unfoldable pub show_reference_id : ReferenceId → List ℕ
unfolding as_bytes
show_reference_id id =
    if all or_zero (as_bytes id) && not (id.b0 == 0)
    then until_zero (as_bytes id)
    else codes "0x"
      ++ (show_hex 2 id.b0 ++ (show_hex 2 id.b1 ++ (show_hex 2 id.b2 ++ show_hex 2 id.b3)))

-- A configured reference identifier is displayed as the text that was configured.
pub show_reference_id-from_config :
    (text : List ℕ) (id : ReferenceId) → from_config text ≡ ok id → show_reference_id id ≡ text
unfolding show_reference_id from_config as_bytes from_bytes
show_reference_id-from_config [] id e = ground arith
show_reference_id-from_config (a ∷ []) id e = ground arith
show_reference_id-from_config (a ∷ b ∷ []) id e = ground arith
show_reference_id-from_config (a ∷ b ∷ c ∷ []) id e = ground arith
show_reference_id-from_config (a ∷ b ∷ c ∷ d ∷ []) id e = ground arith
show_reference_id-from_config (a ∷ b ∷ c ∷ d ∷ f ∷ text) id e = ground arith

pub show_leap-IsLine : (leap : LeapIndicator) → IsLine (show_leap leap)
unfolding show_leap LeapIndicator.to_bits show digits_before
show_leap-IsLine LeapIndicator.no_warning = refl
show_leap-IsLine LeapIndicator.last_minute_61 = refl
show_leap-IsLine LeapIndicator.last_minute_59 = refl
show_leap-IsLine LeapIndicator.unsynchronised = refl

pub show_mode-IsLine : (mode : Mode) → IsLine (show_mode mode)
unfolding show_mode Mode.to_bits show digits_before
show_mode-IsLine Mode.reserved = refl
show_mode-IsLine Mode.symmetric_active = refl
show_mode-IsLine Mode.symmetric_passive = refl
show_mode-IsLine Mode.client = refl
show_mode-IsLine Mode.server = refl
show_mode-IsLine Mode.broadcast = refl
show_mode-IsLine Mode.control = refl
show_mode-IsLine Mode.private = refl

until_zero-IsLine : (bytes : List ℕ) → all or_zero bytes ≡ true → IsLine (until_zero bytes)
until_zero-IsLine [] e = refl
until_zero-IsLine (b ∷ bytes) e = ground (arith, e, until_zero-IsLine bytes)

if_true-IsLine :
    (test : Bool) (k l : List ℕ)
    → (test ≡ true → IsLine k)
    → IsLine l
    → IsLine (if test then k else l)
if_true-IsLine true k l h i = h refl
if_true-IsLine false k l h i = i

pub show_reference_id-IsLine : (id : ReferenceId) → IsLine (show_reference_id id)
unfolding show_reference_id
show_reference_id-IsLine id =
    if_true-IsLine (all or_zero (as_bytes id) && not (id.b0 == 0)) (until_zero (as_bytes id)) _
      (λ e. until_zero-IsLine (as_bytes id) (ground (arith, e)))
      (append-IsLine (show_hex 2 id.b0) _ (show_hex-IsLine 2 id.b0) (
        append-IsLine (show_hex 2 id.b1) _ (show_hex-IsLine 2 id.b1)
          (append-IsLine (show_hex 2 id.b2) _ (show_hex-IsLine 2 id.b2) (show_hex-IsLine 2 id.b3))))
