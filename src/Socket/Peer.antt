-- ===== src/Socket/Peer.antt =====
-- src/gsocket.cpp: naming a peer, connecting to it and listening, and the attributes of a socket. A
-- socket is `none` for INVALID_SOCKET.
use opengcl.Prelude.{
  ℕ, ◌+◌, ◌-◌, ◌*◌, ◌/◌, ◌%◌, ◌^◌, ◌≡◌, ◌≢◌, refl, Option, none, some, Bool, true, false, List,
  ◌==◌, if◌then◌else◌,
}

-- `sockaddr_in`: the address, and the port in the order of the network.
pub record SockAddr : Type 0 where
  pub s_addr : ℕ
  pub sin_port : ℕ

-- The calls of the system. `connect` gives the error number where it fails. `gethostbyname` gives the
-- `u_long` at the first address of the host. `readable_count` is `ioctl` with FIONREAD, and
-- `buffer_size` is `getsockopt` with SO_RCVBUF (`true`) or SO_SNDBUF.
pub record Net (W : Type 0) : Type 0 where
  pub connect : ℕ → SockAddr → W → Option ℕ × W
  pub bind : ℕ → SockAddr → W → Bool × W
  pub listen : ℕ → ℕ → W → Bool × W
  pub inet_addr : List ℕ → ℕ
  pub gethostbyname : List ℕ → W → Option ℕ × W
  pub set_nbio : ℕ → ℕ → W → Bool × W
  pub buffer_size : ℕ → Bool → W → Option ℕ × W
  pub readable_count : ℕ → W → Option ℕ × W
  pub einprogress : ℕ

-- INADDR_NONE
abbrev pub inaddr_none : ℕ
inaddr_none = 2 ^ 32 - 1

-- `htons((short)port)`, on a little-endian machine.
pub htons : ℕ → ℕ
htons port = port % 2 ^ 8 * 2 ^ 8 + port / 2 ^ 8 % 2 ^ 8

pub address : ℕ → ℕ → SockAddr
unfolding htons
address ip_addr port = record { s_addr = ip_addr % 2 ^ 32; sin_port = htons port }

module _ {W : Type 0} (net : Net W) where
  abbrev connected : Option ℕ × W → Bool × W
  connected (none, w) = (true, w)
  connected (some err, w) = (err == net.einprogress, w)

  pub gsock_connect : Option ℕ → ℕ → ℕ → W → Bool × W
  unfolding address
  gsock_connect none ip_addr port w = (false, w)
  gsock_connect (some sock) ip_addr port w = connected (net.connect sock (address ip_addr port) w)

  pub connect_host : Option ℕ → ℕ → Option ℕ × W → Bool × W
  unfolding gsock_connect
  connect_host sock port (none, w) = gsock_connect sock 0 0 w
  connect_host sock port (some ip_addr, w) = gsock_connect sock ip_addr port w

  pub gsock_connect_by_name : Option ℕ → List ℕ → ℕ → W → Bool × W
  unfolding gsock_connect connect_host
  gsock_connect_by_name sock addr port w =
      if net.inet_addr addr == inaddr_none
      then connect_host sock port (net.gethostbyname addr w)
      else gsock_connect sock (net.inet_addr addr) port w

  abbrev host_or_none : Option ℕ × W → ℕ × W
  host_or_none (none, w) = (inaddr_none, w)
  host_or_none (some ip_addr, w) = (ip_addr, w)

  unfoldable pub gsock_hostaddr : List ℕ → W → ℕ × W
  gsock_hostaddr hostname w =
      if net.inet_addr hostname == inaddr_none
      then host_or_none (net.gethostbyname hostname w)
      else (net.inet_addr hostname, w)

  pub gsock_listen : Option ℕ → ℕ → ℕ → ℕ → W → Bool × W
  unfolding address
  gsock_listen none ip_addr port backlog w = (false, w)
  gsock_listen (some sock) ip_addr port backlog w =
      let (bound, w1) = net.bind sock (address ip_addr port) w in
      if bound then net.listen sock backlog w1 else (false, w1)

  pub gsock_set_nbio : ℕ → ℕ → W → Bool × W
  gsock_set_nbio sock nbio w = net.set_nbio sock nbio w

  abbrev or_zero : Option ℕ × W → ℕ × W
  or_zero (none, w) = (0, w)
  or_zero (some n, w) = (n, w)

  pub gsock_get_receive_buffer_size : ℕ → W → ℕ × W
  gsock_get_receive_buffer_size sock w = or_zero (net.buffer_size sock true w)

  pub gsock_get_send_buffer_size : ℕ → W → ℕ × W
  gsock_get_send_buffer_size sock w = or_zero (net.buffer_size sock false w)

  -- `none` is -1.
  pub gsock_get_readable_count : ℕ → W → Option ℕ × W
  gsock_get_readable_count sock w = net.readable_count sock w

  connect_host_lem :
      (sock : Option ℕ) (port : ℕ) (r : Option ℕ × W)
      → (host_or_none r).0 ≢ inaddr_none
      → connect_host sock port r ≡ gsock_connect sock (host_or_none r).0 port (host_or_none r).1
  unfolding connect_host
  connect_host_lem sock port (none, w) known = absurd (known refl)
  connect_host_lem sock port (some ip_addr, w) known = refl

  -- Connecting by a name whose address is known is connecting to the address that `gsock_hostaddr` gives.
  pub gsock_connect_by_name-gsock_hostaddr :
      (sock : Option ℕ) (name : List ℕ) (port : ℕ) (w : W)
      → (gsock_hostaddr name w).0 ≢ inaddr_none
      → gsock_connect_by_name sock name port w
        ≡ gsock_connect sock (gsock_hostaddr name w).0 port (gsock_hostaddr name w).1
  unfolding gsock_connect_by_name gsock_hostaddr
  gsock_connect_by_name-gsock_hostaddr sock name port w known =
      go (net.inet_addr name == inaddr_none) known
    where
      go :
          (b : Bool)
          → (if b then host_or_none (net.gethostbyname name w) else (net.inet_addr name, w)).0
            ≢ inaddr_none
          → (if b
              then connect_host sock port (net.gethostbyname name w)
              else gsock_connect sock (net.inet_addr name) port w)
            ≡ gsock_connect sock
                (if b then host_or_none (net.gethostbyname name w) else (net.inet_addr name, w)).0
                port
                (if b then host_or_none (net.gethostbyname name w) else (net.inet_addr name, w)).1
      go true k = connect_host_lem sock port (net.gethostbyname name w) k
      go false k = refl
