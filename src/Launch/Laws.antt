-- ===== src/Launch/Laws.antt =====
-- main.rs, `serve`: what was done to the system when the server starts, and when it does not.
use heeler.Common.{
  ◌*◌, ◌≡◌, refl, sym, ◌∙◌, true, false, some, List, [], ◌∷◌, ◌++◌, map, ok, err, Result-cases,
  Bool-cases, inl, inr, arith,
}
use heeler.Common.Int.{pos_part}
use heeler.Clock.System
use heeler.Clock.System.{SystemClockSource}
use heeler.Access.{SocketAddr, IpNets}
use heeler.Config.{Config}
use heeler.Config.Validate.{ValidatedConfig, validate}
use heeler.Config.Laws.{copied_lem}
use heeler.Config.Binds.{is_public_address, public_bind_addresses}
use heeler.Launch.{
  World, ServeArgs, LaunchError, invalid, bad_level, public_bind, Effect, bound, serving,
  listen_for_metrics, refuses_public, Running, started, precision_of, start, serve_valid, serve,
  load_config,
}
use heeler.Launch.Stages.{
  then_do-ok, IsDrop, give_up_privileges-IsDrop, listens_of, listen_for_metrics-log,
  bind_sockets-ok, refuses_public_lem,
}

module _ (nets : IpNets) where
  start-ok :
      (w : World) (v : ValidatedConfig nets) (log : List Effect) (l : Running nets w)
      → start nets w v ≡ (log, ok l)
      → (clock : SystemClockSource) × (System.new v.jump_policy
            (pos_part v.config.protocol.root_dispersion_ms * 1_000_000)
            (precision_of w)
            w.wall
            w.mono
          ≡ ok clock)
        × (log ≡ listens_of v.config ++ (serving ∷ []))
        × (l ≡ started nets w v clock)
  unfolding start
  start-ok w v log l e =
      let dispersion = pos_part v.config.protocol.root_dispersion_ms * 1_000_000 in
      elim (Result-cases (System.new v.jump_policy dispersion (precision_of w) w.wall w.mono)) [
        | inr (x, f) ↦ ground (arith, f, e)
        | inl (clock, f) ↦
            let (first, _, later, m, n, k) =
              then_do-ok (listen_for_metrics w v.config)
                (λ _. (serving ∷ [], ok (started nets w v clock))) log l (rw (f, start) at e) in
            let listens = listen_for_metrics-log w v.config first m in
            (clock, f, cc (k, listens, n), cc n)
      ]

  serve_valid-ok :
      (w : World) (v : ValidatedConfig nets) (log : List Effect) (l : Running nets w)
      → serve_valid nets w v ≡ (log, ok l)
      → (drops : List Effect) × (last : List Effect) × IsDrop w v.config drops
        × (log ≡ map bound v.config.server.bind ++ (drops ++ last))
        × (refuses_public v.config ≡ false)
        × (start nets w v ≡ (last, ok l))
  unfolding serve_valid
  serve_valid-ok w v log l e = elim (Bool-cases (w.is_filter v.config.logging.level)) [
    | inr f ↦ ground (arith, f, e)
    | inl f ↦ elim (Bool-cases (refuses_public v.config)) [
      | inl r ↦ ground (arith, f, r, e)
      | inr r ↦
          let (first, _, later, m, n, k) = then_do-ok _ _ log l (rw (f, r, serve_valid) at e) in
          let (drops, _, last, g, s, j) = then_do-ok _ _ later l n in
          elim (Bool-cases w.runtime_ok) [
            | inr x ↦ ground (arith, x, s)
            | inl x ↦
                let binds = bind_sockets-ok w v.config v.config.server.bind first m in
                (
                  drops,
                  last,
                  give_up_privileges-IsDrop w v.config drops g,
                  cc (binds, k, j),
                  r,
                  rw x at s,
                )
          ]
    ]
  ]

  -- `serve` on a configuration that is loaded and valid.
  pub serve-valid :
      (w : World) (args : ServeArgs) (c : Config) (v : ValidatedConfig nets)
      → load_config w args.config (some args) ≡ ok c
      → validate nets c ≡ ok v
      → serve nets w args ≡ serve_valid nets w v
  unfolding serve
  serve-valid w args c v a b = rw (a, b, serve) refl

  serve-ok :
      (w : World) (args : ServeArgs) (log : List Effect) (l : Running nets w)
      → serve nets w args ≡ (log, ok l)
      → (c : Config) × (v : ValidatedConfig nets) × (load_config w args.config (some args) ≡ ok c)
        × (validate nets c ≡ ok v)
        × (serve_valid nets w v ≡ (log, ok l))
  unfolding serve
  serve-ok w args log l e = elim (Result-cases (load_config w args.config (some args))) [
    | inr (x, f) ↦ ground (arith, f, e)
    | inl (c, f) ↦ elim (Result-cases (validate nets c)) [
      | inr (x, g) ↦ ground (arith, f, g, e)
      | inl (v, g) ↦ (c, v, f, g, sym (serve-valid w args c v f g) ∙ e)
    ]
  ]

  -- A server that starts has loaded a valid configuration; it has bound exactly the configured
  -- addresses, in order, then given up its privileges if it is configured to, then opened the metrics
  -- listener if that is enabled, and then begun to serve, and done nothing else. Its state is that of a
  -- new server on that configuration and an accepted system clock.
  pub serve-order :
      (w : World) (args : ServeArgs) (log : List Effect) (l : Running nets w)
      → serve nets w args ≡ (log, ok l)
      → (c : Config) × (v : ValidatedConfig nets) × (clock : SystemClockSource) × (drops : List
          Effect)
        × (load_config w args.config (some args) ≡ ok c)
        × (validate nets c ≡ ok v)
        × IsDrop w c drops
        × (log ≡ map bound c.server.bind ++ (drops ++ (listens_of c ++ (serving ∷ []))))
        × (System.new v.jump_policy
              (pos_part c.protocol.root_dispersion_ms * 1_000_000)
              (precision_of w)
              w.wall
              w.mono
            ≡ ok clock)
        × (l ≡ started nets w v clock)
  serve-order w args log l e =
      let (c, v, loaded, valid, s) = serve-ok w args log l e in
      let (drops, last, d, k, _, r) = serve_valid-ok w v log l s in
      let (clock, n, j, q) = start-ok w v last l r in
      let same = (copied_lem nets c v valid).0 in
      let logged : log
          ≡ map bound v.config.server.bind ++ (drops ++ (listens_of v.config ++ (serving ∷ []))) =
        cc (k, j) in
      (c, v, clock, drops, loaded, valid, rw same at d, rw same at logged, rw same at n, q)

  -- Under strict public binds, with no acknowledgement in the configuration as it was loaded, a server
  -- that is to bind some public address does nothing at all: no socket is bound, no privilege given up,
  -- and the result is an error.
  pub serve-public_bind :
      (w : World) (args : ServeArgs) (c : Config) (before later : List SocketAddr)
      (addr : SocketAddr)
      → load_config w args.config (some args) ≡ ok c
      → c.server.strict_public_bind ≡ true
      → c.server.public_bind_acknowledged ≡ false
      → c.server.bind ≡ before ++ (addr ∷ later)
      → is_public_address addr.ip ≡ true
      → (e : LaunchError) × (serve nets w args ≡ ([], err e))
  unfolding serve serve_valid
  serve-public_bind w args c before later addr loaded strict unack at_some public =
      elim (Result-cases (validate nets c)) [
        | inr (x, f) ↦ (invalid x, rw (loaded, f, serve) refl)
        | inl (v, f) ↦
            let same = (copied_lem nets c v f).0 in
            elim (Bool-cases (w.is_filter v.config.logging.level)) [
              | inr g ↦
                  (bad_level v.config.logging.level, rw (loaded, f, serve, g, serve_valid) refl)
              | inl g ↦
                  let refused =
                    refuses_public_lem v.config before later addr (rw same strict) (rw same unack)
                      (rw same at_some) public in
                  (
                    public_bind (public_bind_addresses v.config),
                    rw (loaded, f, serve, g, refused, serve_valid) refl,
                  )
            ]
      ]
