-- ===== src/Packet/ReferenceId.antt =====
-- crates/heeler-core/src/packet.rs, `ReferenceId` and `KissCode`: four bytes. A configured text is
-- the list of its UTF-8 bytes.
use heeler.Common.{
  ℕ, Bool, not, ◌&&◌, ◌||◌, leb, ◌==◌, if◌then◌else◌, Result, ok, err, List, [], ◌∷◌, length,
  get_or, all, IsByte,
}
use heeler.Errors.{ConfigError, invalid_reference_id}

-- `[u8; 4]`.
pub record ReferenceId : Type 0 where
  pub b0 : ℕ
  pub b1 : ℕ
  pub b2 : ℕ
  pub b3 : ℕ

pub record IsReferenceId (r : ReferenceId) : Type 0 where
  pub first : IsByte r.b0
  pub second : IsByte r.b1
  pub third : IsByte r.b2
  pub fourth : IsByte r.b3

unfoldable pub from_bytes : ℕ → ℕ → ℕ → ℕ → ReferenceId
from_bytes a b c d = record { b0 = a; b1 = b; b2 = c; b3 = d }

unfoldable pub as_bytes : ReferenceId → List ℕ
as_bytes r = r.b0 ∷ r.b1 ∷ r.b2 ∷ r.b3 ∷ []

-- `is_ascii_graphic`, from `!` to `~`, or a space.
abbrev pub printable : ℕ → Bool
printable b = (leb 33 b && leb b 126) || b == 32

-- The bytes of the text, padded with zeros on the right.
unfoldable pub from_config : List ℕ → Result ConfigError ReferenceId
unfolding from_bytes
from_config text =
    let valid = not (length text == 0) && leb (length text) 4 && all printable text in
    if not valid
    then err (invalid_reference_id text)
    else ok (from_bytes (get_or text 0 0) (get_or text 1 0) (get_or text 2 0) (get_or text 3 0))

pub data KissCode : Type 0 where
  rate deny restrict : KissCode

-- `RATE`, `DENY`, `RSTR`.
unfoldable pub reference_id : KissCode → ReferenceId
unfolding from_bytes
reference_id rate = from_bytes b'R' b'A' b'T' b'E'
reference_id deny = from_bytes b'D' b'E' b'N' b'Y'
reference_id restrict = from_bytes b'R' b'S' b'T' b'R'
