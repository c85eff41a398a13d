-- ===== src/Metrics/Http.antt =====
-- metrics.rs, `serve_metrics`: the answer to one request.
use heeler.Common.{
  ℕ, ◌^◌, ◌<◌, ◌≡◌, refl, true, false, some, List, ◌++◌, codes, length, arith, Bool-cases, inl, inr,
  ◌⊎◌,
}
use heeler.Common.Text.{starts_with, parse_unsigned}
use heeler.Common.Decimal.{show, parse_unsigned-show}
use heeler.Metrics.{Metrics}
use heeler.Metrics.Render.{render, http_response}

module _ (show_seconds : ℕ → List ℕ) where
  -- A request that starts with `GET /metrics ` is answered with the rendered text after a header that
  -- declares its length, if that is below 2^64; any other with an empty 404.
  pub http_response_exact :
      (m : Metrics) (uptime : ℕ) (request : List ℕ)
      → length (render show_seconds m uptime) < 2 ^ 64
      → ((starts_with (codes "GET /metrics ") request ≡ true)
          × (head : List ℕ) × (digits : List ℕ) × (http_response show_seconds m uptime request
              ≡ head
                ++ (digits
                    ++ (codes "\r\nconnection: close\r\n\r\n" ++ render show_seconds m uptime)))
          × (parse_unsigned (2 ^ 64) digits ≡ some (length (render show_seconds m uptime))))
        ⊎ ((starts_with (codes "GET /metrics ") request ≡ false)
            × (http_response show_seconds m uptime request
                ≡ codes "HTTP/1.1 404 Not Found\r\ncontent-length: 0\r\nconnection: close\r\n\r\n"))
  unfolding http_response
  http_response_exact m uptime request small =
      elim (Bool-cases (starts_with (codes "GET /metrics ") request)) [
        | inr other ↦ inr (other, rw (other, http_response) refl)
        | inl is_get ↦
            let n = length (render show_seconds m uptime) in
            inl (
              is_get,
              codes
                  "HTTP/1.1 200 OK\r\ncontent-type: text/plain; version=0.0.4\r\ncontent-length: ",
              show n,
              rw (is_get, http_response) refl,
              parse_unsigned-show (2 ^ 64) n small (omega (arith, small)),
            )
      ]
