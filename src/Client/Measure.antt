-- ===== src/Client/Measure.antt =====
-- client.rs: what the measured delay and offset say of the two clocks.
use heeler.Common.{ℕ, ◌+◌, ◌*◌, ◌≤◌, ◌≡◌, ok, arith}
use heeler.Common.Int.{
  ℤ, pos, negsuc, ◌+ℤ◌, ◌-ℤ◌, ◌≤ℤ◌, pos_part, neg_part, div_trunc, int_laws, parts_of_eq,
}
use heeler.Timestamp.{
  NtpInstant, NtpTimestamp, to_timestamp, unfold_era, nanos_per_second, nanos_since,
}
use heeler.Timestamp.Era.{half_era, unfold_era-to_timestamp}
use heeler.Client.{delay, offset}

-- Half of a sum, truncated toward zero, in parts.
half_parts :
    (a : ℤ)
    → let q = div_trunc a 2 in
      (2 * pos_part q + neg_part a ≤ pos_part a + 2 * neg_part q + 1)
      × (pos_part a + 2 * neg_part q ≤ 2 * pos_part q + neg_part a + 1)
unfolding div_trunc
half_parts (pos n) = ground arith
half_parts (negsuc n) = ground arith

-- The readings of one exchange: the server's clock is `theta` ahead of the client's, the request is
-- under way for `a`, the reply for `b`, all in nanoseconds.
pub record IsExchange (t1 i2 i3 t4 : NtpInstant) (theta : ℤ) (a b : ℕ) : Type 0 where
  pub there : i2.nanos ≡ t1.nanos +ℤ pos a +ℤ theta
  pub back : t4.nanos +ℤ theta ≡ i3.nanos +ℤ pos b

pub record IsNear (i pivot : NtpInstant) : Type 0 where
  pub not_after : i.nanos +ℤ pos nanos_per_second ≤ℤ pivot.nanos +ℤ pos half_era
  pub not_before : pivot.nanos +ℤ pos nanos_per_second ≤ℤ i.nanos +ℤ pos half_era

-- The arithmetic, on the counts of nanoseconds.
module _ (x1 x2 x3 x4 y2 y3 theta : ℤ) (a b : ℕ) (there : y2 ≡ x1 +ℤ pos a +ℤ theta)
    (back : x4 +ℤ theta ≡ y3 +ℤ pos b) (late2 : x2 ≤ℤ y2) (early2 : y2 ≤ℤ x2 +ℤ pos 1)
    (late3 : x3 ≤ℤ y3) (early3 : y3 ≤ℤ x3 +ℤ pos 1) where
  delay_close :
      let d = (x4 -ℤ x1) -ℤ (x3 -ℤ x2) in (d ≤ℤ pos (a + b + 1)) × (pos (a + b) ≤ℤ d +ℤ pos 1)
  delay_close =
      let e = parts_of_eq _ _ there in
      let f = parts_of_eq _ _ back in (omega int_laws, omega int_laws)

  offset_close :
      let o = div_trunc ((x2 -ℤ x1) +ℤ (x3 -ℤ x4)) 2 in
      (o +ℤ o +ℤ pos b ≤ℤ theta +ℤ theta +ℤ pos (a + 1))
      × (theta +ℤ theta +ℤ pos a ≤ℤ o +ℤ o +ℤ pos (b + 3))
  offset_close =
      let e = parts_of_eq _ _ there in
      let f = parts_of_eq _ _ back in
      let h = half_parts ((x2 -ℤ x1) +ℤ (x3 -ℤ x4)) in (omega int_laws, omega int_laws)

-- Let the server's clock be `theta` ahead of the client's, and let the request travel for `a` and the
-- reply for `b` nanoseconds. Where the server's readings are within half an era, less a second, of the
-- client's, the client measures a delay that is `a + b` to within one nanosecond, and an offset that
-- is off by half the difference of the two ways, to within two nanoseconds.
pub exchange_measured :
    (t1 i2 i3 t4 : NtpInstant) (theta : ℤ) (a b : ℕ) (w2 w3 : NtpTimestamp)
    → IsExchange t1 i2 i3 t4 theta a b
    → IsNear i2 t1
    → IsNear i3 t1
    → to_timestamp i2 ≡ ok w2
    → to_timestamp i3 ≡ ok w3
    → let t2 = unfold_era w2 t1 in
      let t3 = unfold_era w3 t1 in
      let d = delay t1 t2 t3 t4 in
      let o = offset t1 t2 t3 t4 in
      (d ≤ℤ pos (a + b + 1))
      × (pos (a + b) ≤ℤ d +ℤ pos 1)
      × (o +ℤ o +ℤ pos b ≤ℤ theta +ℤ theta +ℤ pos (a + 1))
      × (theta +ℤ theta +ℤ pos a ≤ℤ o +ℤ o +ℤ pos (b + 3))
unfolding delay offset nanos_since
exchange_measured t1 i2 i3 t4 theta a b w2 w3 e n2 n3 s2 s3 =
    let (l2, e2) = unfold_era-to_timestamp i2 t1 w2 s2 n2.not_after n2.not_before in
    let (l3, e3) = unfold_era-to_timestamp i3 t1 w3 s3 n3.not_after n3.not_before in
    let t2 = unfold_era w2 t1 in
    let t3 = unfold_era w3 t1 in
    let d =
      delay_close t1.nanos t2.nanos t3.nanos t4.nanos i2.nanos i3.nanos theta a b e.there e.back l2
        e2 l3 e3 in
    let o =
      offset_close t1.nanos t2.nanos t3.nanos t4.nanos i2.nanos i3.nanos theta a b e.there e.back l2
        e2 l3 e3 in
    (d.0, d.1, o.0, o.1)
