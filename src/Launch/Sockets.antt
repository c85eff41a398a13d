-- ===== src/Launch/Sockets.antt =====
-- server.rs, `bind_socket`: the options of one listening socket, and its binding.
use heeler.Common.{
  ℕ, Bool, true, false, ltb, if◌then◌else◌, List, [], ◌∷◌, ◌++◌, Result, ok, err, ◌>>=◌,
}
use heeler.Access.{IpAddr, v4, v6, SocketAddr}
use heeler.Config.{ServerSection}

pub data SocketOp : Type 0 where
  create : SocketOp
  only_v6 : SocketOp
  reuse_address : SocketOp
  recv_buffer : ℕ → SocketOp
  send_buffer : ℕ → SocketOp
  bind : SocketOp

abbrev pub is_ipv6 : IpAddr → Bool
is_ipv6 (v4 _) = false
is_ipv6 (v6 _) = true

abbrev op_if : Bool → SocketOp → List SocketOp
op_if test op = if test then op ∷ [] else []

-- What `bind_socket` does, in order.
unfoldable pub socket_ops : ServerSection → SocketAddr → List SocketOp
socket_ops section addr =
    create
    ∷ (op_if (is_ipv6 addr.ip) only_v6
        ++ op_if section.reuse_addr reuse_address
        ++ op_if (ltb 0 section.recv_buffer_bytes) (recv_buffer section.recv_buffer_bytes)
        ++ op_if (ltb 0 section.send_buffer_bytes) (send_buffer section.send_buffer_bytes)
        ++ (bind ∷ []))

-- Each step with `?`: the first that fails is the error, and the steps that were done the result.
unfoldable pub perform : (SocketOp → Bool) → List SocketOp → Result SocketOp (List SocketOp)
perform works [] = ok []
perform works (op ∷ ops) =
    if works op then (do done ← perform works ops; ok (op ∷ done)) else err op

unfoldable pub bind_socket :
    (SocketOp → Bool) → ServerSection → SocketAddr → Result SocketOp (List SocketOp)
unfolding socket_ops perform
bind_socket works section addr = perform works (socket_ops section addr)
