-- ===== src/Metrics/Serve.antt =====
-- metrics.rs, `serve_metrics`: the accept loop and the short-lived task of each connection. What the
-- runtime wakes the loop with is a list; a connection comes with the counters and the uptime at the time
-- that its task renders them, and with what its socket yields within five seconds.
use heeler.Common.{
  ℕ, ◌≡◌, refl, ap, ◌∙◌, sym, map, Bool, true, false, Option, none, some, List, [], ◌∷◌, ◌++◌, take,
  codes, Bool-cases, inl, inr,
}
use heeler.Common.Text.{starts_with}
use heeler.Metrics.{Metrics}
use heeler.Metrics.Render.{http_response}

-- `read`: the bytes of one read, or a failure or a timeout.
pub data Read : Type 0 where
  bytes_read : List ℕ → Read
  not_read : Read

pub record Connection : Type 0 where
  pub metrics : Metrics
  pub uptime : ℕ
  pub read : Read

pub data Accept : Type 0 where
  flag_changed : Bool → Accept
  accept_failed : Accept
  accepted : Connection → Accept

module _ (show_seconds : ℕ → List ℕ) where
  -- The task of a connection: the buffer holds 4096 bytes, and without a request nothing is written.
  abbrev pub reply_to : Metrics → ℕ → Read → Option (List ℕ)
  reply_to metrics uptime not_read = none
  reply_to metrics uptime (bytes_read bytes) =
      some (http_response show_seconds metrics uptime (take 4096 bytes))

  unfoldable pub handle_connection : Connection → Option (List ℕ)
  unfolding http_response
  handle_connection c = reply_to c.metrics c.uptime c.read

  -- What is written on each accepted connection, and whether the loop has returned.
  unfoldable pub serve_metrics : List Accept → List (Option (List ℕ)) × Bool
  unfolding handle_connection
  serve_metrics [] = ([], false)
  serve_metrics (flag_changed true ∷ events) = ([], true)
  serve_metrics (flag_changed false ∷ events) = serve_metrics events
  serve_metrics (accept_failed ∷ events) = serve_metrics events
  serve_metrics (accepted c ∷ events) =
      let (replies, returned) = serve_metrics events in (handle_connection c ∷ replies, returned)

-- What is left of an event without the text of a request: whether it asks for the metrics.
pub data Outline : Type 0 where
  flag : Bool → Outline
  failure : Outline
  connection : Metrics → ℕ → Option Bool → Outline

abbrev asks : Read → Option Bool
asks not_read = none
asks (bytes_read bytes) = some (starts_with (codes "GET /metrics ") (take 4096 bytes))

abbrev pub outline : Accept → Outline
outline (flag_changed on) = flag on
outline accept_failed = failure
outline (accepted c) = connection c.metrics c.uptime (asks c.read)

module _ (show_seconds : ℕ → List ℕ) where
  abbrev reply_of : Metrics → ℕ → Option Bool → Option (List ℕ)
  reply_of metrics uptime none = none
  reply_of metrics uptime (some true) =
      some (http_response show_seconds metrics uptime (codes "GET /metrics "))
  reply_of metrics uptime (some false) = some (http_response show_seconds metrics uptime [])

  abbrev replies_of : List Outline → List (Option (List ℕ)) × Bool
  replies_of [] = ([], false)
  replies_of (flag true ∷ events) = ([], true)
  replies_of (flag false ∷ events) = replies_of events
  replies_of (failure ∷ events) = replies_of events
  replies_of (connection metrics uptime is_get ∷ events) =
      let (replies, returned) = replies_of events in
      (reply_of metrics uptime is_get ∷ replies, returned)

  reply_to-asks :
      (metrics : Metrics) (uptime : ℕ) (read : Read)
      → reply_to show_seconds metrics uptime read ≡ reply_of metrics uptime (asks read)
  unfolding http_response
  reply_to-asks metrics uptime not_read = refl
  reply_to-asks metrics uptime (bytes_read bytes) =
      elim (Bool-cases (starts_with (codes "GET /metrics ") (take 4096 bytes))) [
        | inl e ↦ rw e (unfold starts_with in refl)
        | inr e ↦ rw e (unfold starts_with in refl)
      ]

  serve_metrics-outline :
      (events : List Accept) → serve_metrics show_seconds events ≡ replies_of (map outline events)
  unfolding serve_metrics handle_connection
  serve_metrics-outline [] = refl
  serve_metrics-outline (flag_changed true ∷ events) = refl
  serve_metrics-outline (flag_changed false ∷ events) = serve_metrics-outline events
  serve_metrics-outline (accept_failed ∷ events) = serve_metrics-outline events
  serve_metrics-outline (accepted c ∷ events) =
      rw (reply_to-asks c.metrics c.uptime c.read, serve_metrics-outline events) refl

  -- The metrics endpoint never echoes what it is sent: over any history of connections, failures and
  -- changes of the flag, what it writes, and whether it has returned, depend on a request only by
  -- whether it starts with `GET /metrics `. Two histories that agree in all else get the same bytes.
  pub serve_metrics-oblivious :
      (events others : List Accept)
      → map outline events ≡ map outline others
      → serve_metrics show_seconds events ≡ serve_metrics show_seconds others
  serve_metrics-oblivious events others same =
      serve_metrics-outline events ∙ ap replies_of same ∙ sym (serve_metrics-outline others)

  -- Nothing is written after the flag is set: the loop returns at its first change to true, whatever
  -- connections come later, and until then it goes on, over failed accepts as well.
  pub serve_metrics_returns :
      (before later : List Accept)
      → (serve_metrics show_seconds before).1 ≡ false
      → serve_metrics show_seconds (before ++ (flag_changed true ∷ later))
        ≡ ((serve_metrics show_seconds before).0, true)
  unfolding serve_metrics handle_connection
  serve_metrics_returns [] later e = refl
  serve_metrics_returns (flag_changed true ∷ before) later e = cc
  serve_metrics_returns (flag_changed false ∷ before) later e = serve_metrics_returns before later e
  serve_metrics_returns (accept_failed ∷ before) later e = serve_metrics_returns before later e
  serve_metrics_returns (accepted c ∷ before) later e =
      rw (serve_metrics_returns before later e) refl
