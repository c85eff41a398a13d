-- ===== src/Config/Binds.antt =====
-- config.rs, `public_bind_addresses`: which configured addresses accept traffic from outside. Of std
-- the code uses `is_loopback`, `is_private` and `is_link_local`, which are blocks of addresses.
use heeler.Common.{
  ℕ, ◌+◌, ◌*◌, ◌/◌, ◌^◌, ◌≤◌, ◌<◌, ◌≡◌, ◌⊎◌, ◌↔◌, Bool, false, not, ◌||◌, ◌==◌, bit_and, List,
  filter, arith,
}
use heeler.Access.{IpAddr, SocketAddr, v4, v6}
use heeler.Config.{Config}

abbrev octet : ℕ → ℕ
octet a = a / 2 ^ 24

abbrev is_loopback_v4 : ℕ → Bool
is_loopback_v4 a = octet a == 127

-- 10.0.0.0/8, 172.16.0.0/12 and 192.168.0.0/16.
abbrev is_private_v4 : ℕ → Bool
is_private_v4 a = octet a == 10 || (a / 2 ^ 20 == 172 * 16 + 1 || a / 2 ^ 16 == 192 * 256 + 168)

abbrev is_link_local_v4 : ℕ → Bool
is_link_local_v4 a = a / 2 ^ 16 == 169 * 256 + 254

-- `segments()[0]`, the high 16 bits.
abbrev first_segment : ℕ → ℕ
first_segment a = a / 2 ^ 112

unfoldable pub is_public_address : IpAddr → Bool
is_public_address (v4 a) = not (is_loopback_v4 a || (is_private_v4 a || is_link_local_v4 a))
is_public_address (v6 a) =
    let is_ula = bit_and (first_segment a) 0xfe00 == 0xfc00 in
    let is_link_local = bit_and (first_segment a) 0xffc0 == 0xfe80 in
    not (a == 1 || (is_ula || is_link_local))

unfoldable pub public_bind_addresses : Config → List SocketAddr
unfolding is_public_address
public_bind_addresses c = filter (λ addr. is_public_address addr.ip) c.server.bind

-- An IPv4 address is public exactly if it lies outside 127.0.0.0/8, 10.0.0.0/8, 172.16.0.0/12,
-- 192.168.0.0/16 and 169.254.0.0/16; an unspecified address is public.
pub is_public_address_v4 :
    (a : ℕ)
    → (is_public_address (v4 a) ≡ false) ↔ (
        (127 * 2 ^ 24 ≤ a × a < 128 * 2 ^ 24)
        ⊎ (10 * 2 ^ 24 ≤ a × a < 11 * 2 ^ 24)
        ⊎ (172 * 2 ^ 24 + 16 * 2 ^ 16 ≤ a × a < 172 * 2 ^ 24 + 32 * 2 ^ 16)
        ⊎ (192 * 2 ^ 24 + 168 * 2 ^ 16 ≤ a × a < 192 * 2 ^ 24 + 169 * 2 ^ 16)
        ⊎ (169 * 2 ^ 24 + 254 * 2 ^ 16 ≤ a × a < 169 * 2 ^ 24 + 255 * 2 ^ 16))
unfolding is_public_address
is_public_address_v4 a = (λ e. ground arith, λ h. ground arith)
