-- ===== src/RateLimit/Keys.antt =====
-- The client table: a table whose keys are among some addresses is no longer than their list.
use heeler.Common.{
  suc, ◌≤◌, ◌≡◌, refl, sym, Bool, true, false, not, ◌||◌, none, some, List, [], ◌∷◌, length, filter,
  arith, Bool-cases, inl, inr,
}
use heeler.Access.{IpAddr, ip_eq}
use heeler.RateLimit.Client.{ClientEntry}
use heeler.RateLimit.Table.{Table, lookup, Distinct, ip_eq_iff, filter-Distinct, lookup-filter-none}

abbrev pub is_among : List IpAddr → IpAddr → Bool
is_among [] k = false
is_among (a ∷ known) k = ip_eq a k || is_among known k

-- Every address with an entry is one of the list.
abbrev pub Known : List IpAddr → Table → Type 0
Known known t = (k : IpAddr) (v : ClientEntry) → lookup k t ≡ some v → is_among known k ≡ true

abbrev pub without : IpAddr → Table → Table
without a t = filter (λ (kv : IpAddr × ClientEntry). not (ip_eq a kv.0)) t

without_absent : (a : IpAddr) (t : Table) → lookup a t ≡ none → without a t ≡ t
unfolding lookup
without_absent a [] e = refl
without_absent a ((j, v) ∷ t) e = ground (arith, ip_eq_iff a j, ip_eq_iff j a, without_absent a t)

length-without : (a : IpAddr) (t : Table) → Distinct t → length t ≤ suc (length (without a t))
unfolding lookup
length-without a [] d = omega arith
length-without a ((j, v) ∷ t) (n, d) = elim (Bool-cases (ip_eq a j)) [
  | inr e ↦ rw e (omega (arith, length-without a t d))
  | inl e ↦
      let same = (ip_eq_iff a j).0 e in
      rw (e, without_absent a t (rw (sym same) at n)) (omega arith)
]

-- What is left without an address has the entries of the others only.
lookup-without :
    (a k : IpAddr) (v : ClientEntry) (t : Table)
    → Distinct t
    → lookup k (without a t) ≡ some v
    → (ip_eq a k ≡ false) × (lookup k t ≡ some v)
unfolding lookup
lookup-without a k v [] d e = cc
lookup-without a k v ((j, u) ∷ t) (n, d) e = ground (
  arith,
  lookup-without a k v t d,
  ip_eq_iff a j,
  ip_eq_iff j k,
  ip_eq_iff a k,
  lookup-filter-none (λ (kv : IpAddr × ClientEntry). not (ip_eq a kv.0)) j t n,
)

pub length-le-Known :
    (known : List IpAddr) (t : Table) → Distinct t → Known known t → length t ≤ length known
unfolding lookup
length-le-Known [] [] d h = omega arith
length-le-Known [] ((j, v) ∷ t) d h = ground (arith, h j v, ip_eq_iff j j)
length-le-Known (a ∷ known) t d h =
    let ih = length-le-Known known (without a t) (filter-Distinct _ t d) others in
    omega (arith, ih, length-without a t d)
  where
    others : Known known (without a t)
    others k v e = let (ne, there) = lookup-without a k v t d e in ground (arith, ne, h k v there)

pub empty-Known : (known : List IpAddr) → Known known []
unfolding lookup
empty-Known known k v e = cc
