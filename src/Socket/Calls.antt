-- ===== src/Socket/Calls.antt =====
-- include/gsocket.h: the functions that are one call of the system each, and the methods of class Socket that
-- pass `m_sock` on to them. The system is a parameter, whose calls pass its state `W` on.
use opengcl.Prelude.{ℕ, Option, none, some, Bool, true, false, List, if◌then◌else◌}
use opengcl.Socket.{Reply}
use opengcl.Socket.Methods.{socket_number}

-- The options that are set: SO_RCVBUF, SO_SNDBUF and SO_REUSEADDR.
pub data SockOpt : Type 0 where
  so_rcvbuf : SockOpt
  so_sndbuf : SockOpt
  so_reuseaddr : SockOpt

-- What `accept` gives: the new socket, `none` for INVALID_SOCKET, the bytes of the peer's address and their
-- number.
pub record Accepted : Type 0 where
  pub socket : Option ℕ
  pub addr : List ℕ
  pub addr_len : ℕ

-- What `getsockname` and `getpeername` give: whether they succeed, the address and its length.
pub record Named : Type 0 where
  pub result : Bool
  pub name : List ℕ
  pub namelen : ℕ

-- `accept`, `getsockname` and `getpeername` take the room for an address; `recv` takes the number of bytes
-- and whether MSG_PEEK is given; `getsockopt_error` is `none` where the call fails; `last_error` is `errno`,
-- or WSAGetLastError.
pub record Net (W : Type 0) : Type 0 where
  pub accept : ℕ → ℕ → W → Accepted × W
  pub recv : ℕ → ℕ → Bool → W → Reply (List ℕ) × W
  pub send : ℕ → List ℕ → W → Reply ℕ × W
  pub setsockopt : ℕ → SockOpt → ℕ → W → Bool × W
  pub getsockname : ℕ → ℕ → W → Named × W
  pub getpeername : ℕ → ℕ → W → Named × W
  pub getsockopt_error : ℕ → W → Option ℕ × W
  pub last_error : W → ℕ

-- `sizeof(struct sockaddr_in)`
abbrev pub sizeof_sockaddr_in : ℕ
sizeof_sockaddr_in = 16

module _ {W : Type 0} (net : Net W) where
  pub gsock_accept : ℕ → ℕ → W → Accepted × W
  gsock_accept sock addr_len w = net.accept sock addr_len w

  -- The socket and the address; the length is left aside.
  pub gsock_accept_from : ℕ → W → Option ℕ × List ℕ × W
  gsock_accept_from sock w =
      let (r, w') = net.accept sock sizeof_sockaddr_in w in (r.socket, r.addr, w')

  pub gsock_accept_any : ℕ → W → Option ℕ × W
  gsock_accept_any sock w = let (r, w') = net.accept sock sizeof_sockaddr_in w in (r.socket, w')

  pub gsock_peek : ℕ → ℕ → W → Reply (List ℕ) × W
  gsock_peek sock len w = net.recv sock len true w

  pub gsock_recv : ℕ → ℕ → W → Reply (List ℕ) × W
  gsock_recv sock len w = net.recv sock len false w

  pub gsock_send : ℕ → List ℕ → W → Reply ℕ × W
  gsock_send sock buf w = net.send sock buf w

  pub gsock_getlasterror : W → ℕ
  gsock_getlasterror w = net.last_error w

  pub gsock_set_receive_buffer_size : ℕ → ℕ → W → Bool × W
  gsock_set_receive_buffer_size sock size w = net.setsockopt sock so_rcvbuf size w

  pub gsock_set_send_buffer_size : ℕ → ℕ → W → Bool × W
  gsock_set_send_buffer_size sock size w = net.setsockopt sock so_sndbuf size w

  pub gsock_setopt_reuse_addr : ℕ → ℕ → W → Bool × W
  gsock_setopt_reuse_addr sock reuse w = net.setsockopt sock so_reuseaddr reuse w

  pub gsock_get_socket_name : ℕ → ℕ → W → Named × W
  gsock_get_socket_name sock namelen w = net.getsockname sock namelen w

  -- With room for a `sockaddr_in`; the length is left aside.
  pub gsock_get_socket_addr : ℕ → W → Bool × List ℕ × W
  unfolding gsock_get_socket_name
  gsock_get_socket_addr sock w =
      let (r, w') = gsock_get_socket_name sock sizeof_sockaddr_in w in (r.result, r.name, w')

  pub gsock_get_peer_name : ℕ → ℕ → W → Named × W
  gsock_get_peer_name sock namelen w = net.getpeername sock namelen w

  pub gsock_get_peer_addr : ℕ → W → Bool × List ℕ × W
  unfolding gsock_get_peer_name
  gsock_get_peer_addr sock w =
      let (r, w') = gsock_get_peer_name sock sizeof_sockaddr_in w in (r.result, r.name, w')

  abbrev filled : ℕ → Option ℕ × W → ℕ × W
  filled err (none, w) = (err, w)
  filled err (some e, w) = (e, w)

  -- `err` is what the uninitialised variable holds, which is returned where the call fails.
  pub gsock_get_error : ℕ → ℕ → W → ℕ × W
  gsock_get_error err sock w = filled err (net.getsockopt_error sock w)

  abbrev pub accept : Option ℕ → ℕ → W → Accepted × W
  accept m_sock addr_len w = gsock_accept (socket_number m_sock) addr_len w

  abbrev pub accept_from : Option ℕ → W → Option ℕ × List ℕ × W
  accept_from m_sock w = gsock_accept_from (socket_number m_sock) w

  abbrev pub accept_any : Option ℕ → W → Option ℕ × W
  accept_any m_sock w = gsock_accept_any (socket_number m_sock) w

  abbrev pub peek : Option ℕ → ℕ → W → Reply (List ℕ) × W
  peek m_sock len w = gsock_peek (socket_number m_sock) len w

  abbrev pub recv : Option ℕ → ℕ → W → Reply (List ℕ) × W
  recv m_sock len w = gsock_recv (socket_number m_sock) len w

  abbrev pub send : Option ℕ → List ℕ → W → Reply ℕ × W
  send m_sock buf w = gsock_send (socket_number m_sock) buf w

  abbrev pub set_receive_buffer_size : Option ℕ → ℕ → W → Bool × W
  set_receive_buffer_size m_sock size w =
      gsock_set_receive_buffer_size (socket_number m_sock) size w

  abbrev pub set_send_buffer_size : Option ℕ → ℕ → W → Bool × W
  set_send_buffer_size m_sock size w = gsock_set_send_buffer_size (socket_number m_sock) size w

  abbrev pub get_socket_name : Option ℕ → ℕ → W → Named × W
  get_socket_name m_sock namelen w = gsock_get_socket_name (socket_number m_sock) namelen w

  abbrev pub get_socket_addr : Option ℕ → W → Bool × List ℕ × W
  get_socket_addr m_sock w = gsock_get_socket_addr (socket_number m_sock) w

  abbrev pub get_peer_name : Option ℕ → ℕ → W → Named × W
  get_peer_name m_sock namelen w = gsock_get_peer_name (socket_number m_sock) namelen w

  abbrev pub get_peer_addr : Option ℕ → W → Bool × List ℕ × W
  get_peer_addr m_sock w = gsock_get_peer_addr (socket_number m_sock) w

  abbrev pub get_error : ℕ → Option ℕ → W → ℕ × W
  get_error err m_sock w = gsock_get_error err (socket_number m_sock) w

  -- `(int)reuse`
  abbrev pub setopt_reuse_addr : Option ℕ → Bool → W → Bool × W
  setopt_reuse_addr m_sock reuse w =
      gsock_setopt_reuse_addr (socket_number m_sock) (if reuse then 1 else 0) w
