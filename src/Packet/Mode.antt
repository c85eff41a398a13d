-- ===== src/Packet/Mode.antt =====
-- crates/heeler-core/src/packet.rs, `Mode`: the low three bits of a packet's first byte.
use heeler.Common.{
  ℕ, ◌%◌, ◌<◌, ◌≡◌, refl, ◌==◌, if◌then◌else◌, bit_and, arith, Bool, IsByte, ◌↔◌, true,
}
use heeler.Common.Words.{mask_seven}

pub data Mode : Type 0 where
  reserved symmetric_active symmetric_passive client server broadcast control private : Mode

unfoldable pub from_bits : ℕ → Mode
from_bits bits =
    let b = bit_and bits 0b111 in
    if b == 0
    then reserved
    else if b == 1
    then symmetric_active
    else if b == 2
    then symmetric_passive
    else if b == 3
    then client
    else if b == 4
    then server
    else if b == 5
    then broadcast
    else if b == 6
    then control
    else private

unfoldable pub to_bits : Mode → ℕ
to_bits reserved = 0
to_bits symmetric_active = 1
to_bits symmetric_passive = 2
to_bits client = 3
to_bits server = 4
to_bits broadcast = 5
to_bits control = 6
to_bits private = 7

-- The derived equality.
unfoldable pub mode_eq : Mode → Mode → Bool
unfolding to_bits
mode_eq a b = to_bits a == to_bits b

pub to_bits-lt : (m : Mode) → to_bits m < 8
unfolding to_bits
to_bits-lt m = ground arith

pub from_bits-to_bits : (m : Mode) → from_bits (to_bits m) ≡ m
unfolding from_bits to_bits
from_bits-to_bits reserved = refl
from_bits-to_bits symmetric_active = refl
from_bits-to_bits symmetric_passive = refl
from_bits-to_bits client = refl
from_bits-to_bits server = refl
from_bits-to_bits broadcast = refl
from_bits-to_bits control = refl
from_bits-to_bits private = refl

pub to_bits-from_bits : (b : ℕ) → IsByte b → to_bits (from_bits b) ≡ b % 8
unfolding from_bits to_bits
to_bits-from_bits b h = ground (arith, mask_seven b h)

pub mode_eq_iff : (a b : Mode) → (mode_eq a b ≡ true) ↔ (a ≡ b)
unfolding mode_eq
mode_eq_iff a b = ground (arith, from_bits-to_bits a, from_bits-to_bits b)
