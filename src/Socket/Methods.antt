-- ===== src/Socket/Methods.antt =====
-- include/gsocket.h: the methods of class Socket that pass `m_sock` on to the functions of the module.
use opengcl.Prelude.{ℕ, ◌-◌, ◌^◌, Option, none, some, Bool, true, false, List}
use opengcl.Socket.{
  Sys, gsock_read, gsock_write, gsock_readn, gsock_writen, gsock_check_readable,
  gsock_check_writable, gsock_is_readable, gsock_is_writable,
}
use opengcl.Socket.Packet.{VPacket, gsock_readvp, gsock_writevp, gsock_writevpn, gsock_simple_reply}
use opengcl.Socket.Handle
use opengcl.Socket.Handle.{gsock_shutdown}
use opengcl.Socket.Peer.{
  Net, gsock_connect, gsock_connect_by_name, gsock_listen, gsock_set_nbio,
  gsock_get_receive_buffer_size, gsock_get_send_buffer_size, gsock_get_readable_count,
}

-- The number that the system sees: INVALID_SOCKET is -1.
abbrev pub socket_number : Option ℕ → ℕ
socket_number none = 2 ^ 64 - 1
socket_number (some sock) = sock

abbrev pub is_valid : Option ℕ → Bool
is_valid none = false
is_valid (some sock) = true

abbrev pub get_socket : Option ℕ → ℕ
get_socket m_sock = socket_number m_sock

module _ {W : Type 0} (net : Handle.Net W) where
  abbrev pub shutdown : Option ℕ → ℕ → W → Bool × W
  shutdown m_sock how w = gsock_shutdown net m_sock how w

module _ {W : Type 0} (net : Net W) where
  abbrev pub connect : Option ℕ → ℕ → ℕ → W → Bool × W
  connect m_sock ip_addr port w = gsock_connect net m_sock ip_addr port w

  abbrev pub connect_by_name : Option ℕ → List ℕ → ℕ → W → Bool × W
  connect_by_name m_sock addr port w = gsock_connect_by_name net m_sock addr port w

  abbrev pub listen : Option ℕ → ℕ → ℕ → ℕ → W → Bool × W
  listen m_sock ip_addr port backlog w = gsock_listen net m_sock ip_addr port backlog w

  abbrev pub set_nbio : Option ℕ → Bool → W → Bool × W
  set_nbio m_sock true w = gsock_set_nbio net (socket_number m_sock) 1 w
  set_nbio m_sock false w = gsock_set_nbio net (socket_number m_sock) 0 w

  abbrev pub get_receive_buffer_size : Option ℕ → W → ℕ × W
  get_receive_buffer_size m_sock w = gsock_get_receive_buffer_size net (socket_number m_sock) w

  abbrev pub get_send_buffer_size : Option ℕ → W → ℕ × W
  get_send_buffer_size m_sock w = gsock_get_send_buffer_size net (socket_number m_sock) w

  abbrev pub get_readable_count : Option ℕ → W → Option ℕ × W
  get_readable_count m_sock w = gsock_get_readable_count net (socket_number m_sock) w

module _ {W : Type 0} (sys : Sys W) where
  abbrev pub read : Option ℕ → ℕ → ℕ → ℕ → W → Option (Option (List ℕ) × W)
  read m_sock n timeout fuel w = gsock_read sys (socket_number m_sock) n timeout fuel w

  abbrev pub write : Option ℕ → List ℕ → ℕ → ℕ → W → Option (Option ℕ × W)
  write m_sock buf timeout fuel w = gsock_write sys (socket_number m_sock) buf timeout fuel w

  abbrev pub readn : Option ℕ → ℕ → ℕ → ℕ → W → Option (Bool × Option (List ℕ) × W)
  readn m_sock n timeout fuel w = gsock_readn sys (socket_number m_sock) n timeout fuel w

  abbrev pub writen : Option ℕ → List ℕ → ℕ → ℕ → W → Option (Bool × W)
  writen m_sock buf timeout fuel w = gsock_writen sys (socket_number m_sock) buf timeout fuel w

  abbrev pub readvp : Option ℕ → ℕ → ℕ → W → Option (Bool × Option VPacket × W)
  readvp m_sock timeout fuel w = gsock_readvp sys (socket_number m_sock) timeout fuel w

  abbrev pub writevp : Option ℕ → VPacket → ℕ → ℕ → W → Option (Bool × W)
  writevp m_sock vp timeout fuel w = gsock_writevp sys (socket_number m_sock) vp timeout fuel w

  -- `len` bytes of the packet and of `rest` behind it.
  abbrev pub writevp_len : Option ℕ → VPacket → List ℕ → ℕ → ℕ → ℕ → W → Option (Bool × W)
  writevp_len m_sock vp rest len timeout fuel w =
      gsock_writevpn sys (socket_number m_sock) vp rest len timeout fuel w

  abbrev pub simple_reply : Option ℕ → ℕ → ℕ → ℕ → W → Option (Bool × W)
  simple_reply m_sock code timeout fuel w =
      gsock_simple_reply sys (socket_number m_sock) code timeout fuel w

  abbrev pub check_readable : Option ℕ → ℕ → W → Option Bool × W
  check_readable m_sock timeout w = gsock_check_readable sys (socket_number m_sock) timeout w

  abbrev pub check_writable : Option ℕ → ℕ → W → Option Bool × W
  check_writable m_sock timeout w = gsock_check_writable sys (socket_number m_sock) timeout w

  abbrev pub is_readable : Option ℕ → ℕ → W → Bool × W
  is_readable m_sock timeout w = gsock_is_readable sys (socket_number m_sock) timeout w

  abbrev pub is_writable : Option ℕ → ℕ → W → Bool × W
  is_writable m_sock timeout w = gsock_is_writable sys (socket_number m_sock) timeout w
