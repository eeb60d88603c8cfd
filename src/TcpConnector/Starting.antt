-- ===== src/TcpConnector/Starting.antt =====
-- The `start_io` of the io handler of a connector of net_ip/detail/tcp_connector.hpp.
use chops.Prelude.{ℕ, ◌<◌, ◌≡◌, refl, false, [], ◌∷◌, Bool-cases, inl, inr, lt→ltb}
use chops.NetIpError.{ErrorCode, is_error}
use chops.OutputQueue.{SharedBuffer}
use chops.MsgFrame.{MsgHdlr, MsgFrame}
use chops.TcpIo.{TcpIo, async_read}
use chops.TcpIo
use chops.TcpConnector.{TcpConnector, handle_calls}
use chops.TcpConnector.Histories.{starts_io, step}

-- What stays of a connector.
pub record KeepsEntity {B E C : Type 0} (c c' : TcpConnector B E C) : Type 0 where
  pub entity : c'.entity_common ≡ c.entity_common
  pub handler : c'.io_handler ≡ c.io_handler
  pub same_endpoints : c'.endpoints ≡ c.endpoints
  pub next : c'.next_address ≡ c.next_address
  pub told : c'.calls ≡ c.calls

module _ {B E C H F : Type 0} ⦃b : SharedBuffer B⦄ ⦃h : MsgHdlr H E⦄ ⦃f : MsgFrame F⦄ where
  -- Where the socket has a remote endpoint: the connector does nothing.
  pub starts_io-KeepsEntity :
      (c : TcpConnector B E C) (p : ℕ) (remote : ErrorCode × E) (n : ℕ) (mh : H) (mf : F)
      → p < c.next_address
      → is_error remote.0 ≡ false
      → KeepsEntity c (step c (starts_io p remote n mh mf))
  unfolding step handle_calls TcpIo.start_io
  starts_io-KeepsEntity c p remote n mh mf there good =
      elim (Bool-cases (c.heap p).io_common.io_started) [
        | inl again ↦
            rw (lt→ltb p c.next_address there, again)
              (record {
                entity = refl;
                handler = refl;
                same_endpoints = refl;
                next = refl;
                told = refl;
              })
        | inr fresh ↦
            rw (lt→ltb p c.next_address there, fresh, good)
              (record {
                entity = refl;
                handler = refl;
                same_endpoints = refl;
                next = refl;
                told = refl;
              })
      ]

-- A handler whose io is not started starts to read.
pub start_io-reads :
    {B E H F : Type 0} (io : TcpIo B E) (remote : ErrorCode × E) (n : ℕ) (mh : H) (mf : F)
    → io.io_common.io_started ≡ false
    → is_error remote.0 ≡ false
    → (TcpIo.start_io io remote n mh mf).2 ≡ async_read 0 n mh mf ∷ []
unfolding TcpIo.start_io
start_io-reads io remote n mh mf fresh good = rw (fresh, good) refl
