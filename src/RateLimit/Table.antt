-- ===== src/RateLimit/Table.antt =====
-- The client table: a map from addresses to entries with distinct keys.
use heeler.Common.{
  ◌≡◌, ◌≢◌, refl, ◌↔◌, inl, inr, Bool, true, if◌then◌else◌, Option, none, some, List, [], ◌∷◌,
  length, filter, arith, Bool-cases,
}
use heeler.Access.{IpAddr, v4, v6, ip_eq}
use heeler.RateLimit.Client.{ClientEntry}

unfoldable pub lookup : IpAddr → List (IpAddr × ClientEntry) → Option ClientEntry
lookup k [] = none
lookup k ((j, v) ∷ rest) = if ip_eq j k then some v else lookup k rest

-- The entry of a key that is there, written anew.
unfoldable pub replace :
    IpAddr → ClientEntry → List (IpAddr × ClientEntry) → List (IpAddr × ClientEntry)
replace k v [] = []
replace k v ((j, w) ∷ rest) = if ip_eq j k then (j, v) ∷ rest else (j, w) ∷ replace k v rest

abbrev pub Table : Type 0
Table = List (IpAddr × ClientEntry)

pub ip_eq_iff : (a b : IpAddr) → (ip_eq a b ≡ true) ↔ (a ≡ b)
ip_eq_iff (v4 a) (v4 b) = ground arith
ip_eq_iff (v4 a) (v6 b) = ground arith
ip_eq_iff (v6 a) (v4 b) = ground arith
ip_eq_iff (v6 a) (v6 b) = ground arith

pub lookup-replace_self :
    (k : IpAddr) (v w : ClientEntry) (t : Table)
    → lookup k t ≡ some w
    → lookup k (replace k v t) ≡ some v
unfolding lookup replace
lookup-replace_self k v w [] e = cc
lookup-replace_self k v w ((j, u) ∷ t) e = ground (arith, lookup-replace_self k v w t)

pub lookup-replace_ne :
    (k j : IpAddr) (v : ClientEntry) (t : Table) → k ≢ j → lookup j (replace k v t) ≡ lookup j t
unfolding lookup replace
lookup-replace_ne k j v [] h = refl
lookup-replace_ne k j v ((i, u) ∷ t) h =
    ground (arith, ip_eq_iff i k, ip_eq_iff i j, lookup-replace_ne k j v t h)

pub length-replace : (k : IpAddr) (v : ClientEntry) (t : Table) → length (replace k v t) ≡ length t
unfolding replace
length-replace k v [] = refl
length-replace k v ((j, u) ∷ t) = ground (arith, length-replace k v t)

-- A key that is not in a table is not in what is left of it.
pub lookup-filter-none :
    (p : IpAddr × ClientEntry → Bool) (k : IpAddr) (t : Table)
    → lookup k t ≡ none
    → lookup k (filter p t) ≡ none
unfolding lookup
lookup-filter-none p k [] e = refl
lookup-filter-none p k ((j, u) ∷ t) e = ground (arith, lookup-filter-none p k t)

-- Each key stands once.
abbrev pub Distinct : Table → Type 0
Distinct [] = Unit {0}
Distinct ((k, v) ∷ t) = (lookup k t ≡ none) × Distinct t

pub filter-Distinct :
    (p : IpAddr × ClientEntry → Bool) (t : Table) → Distinct t → Distinct (filter p t)
filter-Distinct p [] d = tt
filter-Distinct p ((k, v) ∷ t) (n, d) =
    ground (arith, filter-Distinct p t d, lookup-filter-none p k t n)

lookup-replace-none :
    (k j : IpAddr) (v : ClientEntry) (t : Table)
    → lookup j t ≡ none
    → lookup j (replace k v t) ≡ none
unfolding lookup replace
lookup-replace-none k j v [] e = refl
lookup-replace-none k j v ((i, u) ∷ t) e = ground (arith, lookup-replace-none k j v t)

pub replace-Distinct :
    (k : IpAddr) (v : ClientEntry) (t : Table) → Distinct t → Distinct (replace k v t)
unfolding replace
replace-Distinct k v [] d = tt
replace-Distinct k v ((j, u) ∷ t) (n, d) =
    ground (arith, replace-Distinct k v t d, lookup-replace-none k j v t n)

-- With each key once, a filter keeps an entry that passes it and drops one that does not.
pub lookup-filter :
    (p : IpAddr × ClientEntry → Bool) (k : IpAddr) (v : ClientEntry) (t : Table)
    → Distinct t
    → lookup k t ≡ some v
    → lookup k (filter p t) ≡ (if p (k, v) then some v else none)
unfolding lookup
lookup-filter p k v [] d e = cc
lookup-filter p k v ((j, u) ∷ t) (n, d) e =
    ground (arith, ip_eq_iff j k, lookup-filter p k v t d, lookup-filter-none p j t n)

-- A property of every entry, kept by what the limiter does with the table.
abbrev pub Entries {κ} : (ClientEntry → Type κ) → Table → Type κ
Entries P [] = Unit {κ}
Entries P ((k, v) ∷ t) = P v × Entries P t

pub filter-Entries {κ} :
    (P : ClientEntry → Type κ) (p : IpAddr × ClientEntry → Bool) (t : Table)
    → Entries P t
    → Entries P (filter p t)
filter-Entries P p [] h = tt
filter-Entries P p ((k, v) ∷ t) (a, h) = elim (Bool-cases (p (k, v))) [
  | inl e ↦ rw e (a, filter-Entries P p t h)
  | inr e ↦ rw e (filter-Entries P p t h)
]

pub replace-Entries {κ} :
    (P : ClientEntry → Type κ) (k : IpAddr) (v : ClientEntry) (t : Table)
    → P v
    → Entries P t
    → Entries P (replace k v t)
unfolding replace
replace-Entries P k v [] a h = tt
replace-Entries P k v ((j, u) ∷ t) a (b, h) = elim (Bool-cases (ip_eq j k)) [
  | inl e ↦ rw e (a, h)
  | inr e ↦ rw e (b, replace-Entries P k v t a h)
]
