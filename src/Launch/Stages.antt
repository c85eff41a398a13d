-- ===== src/Launch/Stages.antt =====
-- main.rs, `serve`: what each of its stages has done.
use heeler.Common.{
  ◌≡◌, refl, ap, Bool, true, false, if◌then◌else◌, List, [], ◌∷◌, ◌++◌, map, ok, err, Result-cases,
  Bool-cases, inl, inr, ◌⊎◌, arith, filter,
}
use heeler.Access.{SocketAddr}
use heeler.Config.{Config}
use heeler.Config.Binds.{is_public_address, public_bind_addresses}
use heeler.Privilege.{DropOutcome}
use heeler.Launch.{
  World, socket, Effect, bound, gave_up, listening, Logged, then_do, bind_sockets, dropped_by,
  give_up_privileges, listen_for_metrics, refuses_public,
}
use heeler.Launch.Sockets.{SocketOp, bind_socket}

-- What two computations that succeed in a row have done.
pub then_do-ok :
    {A B : Type 0} (m : Logged A) (f : A → Logged B) (log : List Effect) (b : B)
    → then_do m f ≡ (log, ok b)
    → (first : List Effect) × (a : A) × (later : List Effect) × (m ≡ (first, ok a))
      × (f a ≡ (later, ok b))
      × (log ≡ first ++ later)
then_do-ok (first, ok a) f log b e = (first, a, (f a).0, refl, ground (arith, e), ground (arith, e))
then_do-ok (first, err x) f log b e = ground (arith, e)

-- Sockets are bound in the configured order, up to the first that fails: either every address is bound,
-- or the addresses before one are, and the error names that one and the step that failed.
pub bind_sockets_exact :
    (w : World) (c : Config) (addrs : List SocketAddr)
    → (bind_sockets w c addrs ≡ (map bound addrs, ok tt))
      ⊎ ((done : List SocketAddr) × (addr : SocketAddr) × (later : List SocketAddr)
          × (op : SocketOp) × (addrs ≡ done ++ (addr ∷ later))
          × (bind_socket (w.works addr) c.server addr ≡ err op)
          × (bind_sockets w c addrs ≡ (map bound done, err (socket addr op))))
unfolding bind_sockets
bind_sockets_exact w c [] = inl refl
bind_sockets_exact w c (addr ∷ addrs) =
    elim (Result-cases (bind_socket (w.works addr) c.server addr)) [
      | inr (op, e) ↦ inr ([], addr, addrs, op, refl, e, rw (e, bind_sockets) refl)
      | inl (_, e) ↦ elim (bind_sockets_exact w c addrs) [
        | inl r ↦ inl (rw (e, r, bind_sockets) refl)
        | inr (done, a, later, op, s, f, r) ↦
            inr (addr ∷ done, a, later, op, ap (λ t. addr ∷ t) s, f, rw (e, r, bind_sockets) refl)
      ]
    ]

-- The effects of giving up privileges and of the metrics listener, as configured.
abbrev pub IsDrop : World → Config → List Effect → Type 0
IsDrop w c drops =
    ((c.security.drop_privileges ≡ false) × (drops ≡ []))
    ⊎ ((c.security.drop_privileges ≡ true)
        × (outcome : DropOutcome) × ((dropped_by w c).0 ≡ ok outcome)
        × (drops ≡ gave_up outcome ∷ []))

pub give_up_privileges-IsDrop :
    (w : World) (c : Config) (drops : List Effect)
    → give_up_privileges w c ≡ (drops, ok tt)
    → IsDrop w c drops
unfolding give_up_privileges
give_up_privileges-IsDrop w c drops e = elim (Bool-cases c.security.drop_privileges) [
  | inr f ↦ inl (f, ground (arith, f, e))
  | inl t ↦ elim (Result-cases (dropped_by w c).0) [
    | inr (x, f) ↦ ground (arith, t, f, e)
    | inl (outcome, f) ↦ inr (t, outcome, f, ground (arith, t, f, e))
  ]
]

abbrev pub listens_of : Config → List Effect
listens_of c = if c.metrics.enabled then listening c.metrics.bind ∷ [] else []

pub listen_for_metrics-log :
    (w : World) (c : Config) (log : List Effect)
    → listen_for_metrics w c ≡ (log, ok tt)
    → log ≡ listens_of c
unfolding listen_for_metrics
listen_for_metrics-log w c log e = ground (arith, e)

pub bind_sockets-ok :
    (w : World) (c : Config) (addrs : List SocketAddr) (log : List Effect)
    → bind_sockets w c addrs ≡ (log, ok tt)
    → log ≡ map bound addrs
bind_sockets-ok w c addrs log e = elim (bind_sockets_exact w c addrs) [
  | inl r ↦ ground (arith, e, r)
  | inr (done, a, later, op, s, f, r) ↦ ground (arith, e, r)
]

-- A list with an element that passes the test has a first one.
filter-some :
    (test : SocketAddr → Bool) (before later : List SocketAddr) (addr : SocketAddr)
    → test addr ≡ true
    → (first : SocketAddr) × (rest : List SocketAddr) × (filter test (before ++ (addr ∷ later))
        ≡ first ∷ rest)
filter-some test [] later addr passes = (addr, filter test later, ground (arith, passes))
filter-some test (x ∷ before) later addr passes = elim (Bool-cases (test x)) [
  | inl t ↦ (x, filter test (before ++ (addr ∷ later)), ground (arith, t))
  | inr f ↦
      let (first, rest, e) = filter-some test before later addr passes in
      (first, rest, ground (arith, f, e))
]

pub refuses_public_lem :
    (c : Config) (before later : List SocketAddr) (addr : SocketAddr)
    → c.server.strict_public_bind ≡ true
    → c.server.public_bind_acknowledged ≡ false
    → c.server.bind ≡ before ++ (addr ∷ later)
    → is_public_address addr.ip ≡ true
    → refuses_public c ≡ true
unfolding public_bind_addresses
refuses_public_lem c before later addr strict unack at_some public =
    let (first, rest, e) = filter-some (λ a. is_public_address a.ip) before later addr public in
    let found : public_bind_addresses c ≡ first ∷ rest = rw at_some e in
    rw (found, strict, unack) refl
