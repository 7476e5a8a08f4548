-- ===== src/Socket/Tests.antt =====
-- Witnesses for the sockets: a system whose `recv` and `send` move one byte at a time, and one that keeps
-- descriptors.
use opengcl.Prelude.{
  sym, append-nil, inl, inr, Bool, Bool-cases, if◌then◌else◌, ◌*◌, ℕ, zero, suc, ◌+◌, ◌≤◌, ◌<◌, ◌≡◌,
  ◌≢◌, refl, Option, none, some, true, false, List, [], ◌∷◌, ◌++◌, length, arith,
}
use opengcl.Prelude.Open.{opened, closed}
use opengcl.Time.{elapsed_msec}
use opengcl.Socket.{
  Reply, moved, error, Sys, gsock_read, gsock_write, gsock_is_readable, gsock_check_readable,
}
use opengcl.Socket.Closed.{IsClosed, IsWithin, gsock_read_spins}
use opengcl.Socket.Packet.{
  VPacket, IsVPacket, gsock_writevp, gsock_readvp, gsock_readvp-gsock_writevp,
}
use opengcl.Socket.Peer
use opengcl.Socket.Peer.{
  inaddr_none, gsock_connect, gsock_connect_by_name, gsock_hostaddr,
  gsock_connect_by_name-gsock_hostaddr,
}
use opengcl.Socket.Handle.{
  Net, Op, create, close, shut, let_go, Opened, run, IsTracked, others, run_releases,
}
use opengcl.Socket.Transfer.Read.{IsStream, Received, Blocks, gsock_read-IsStream, gsock_read_ends}
use opengcl.Socket.Transfer.Write.{IsSink, Accepted, Takes, take, gsock_write-IsSink}

-- The bytes that are still to come, and those that have been sent.
abbrev Wire : Type 0
Wire = List ℕ × List ℕ

abbrev recv_byte : ℕ → Wire → Reply (List ℕ) × Wire
recv_byte zero w = (moved [], w)
recv_byte (suc k) ([], out) = (error 104, ([], out))
recv_byte (suc k) (x ∷ xs, out) = (moved (x ∷ []), (xs, out))

abbrev send_byte : List ℕ → Wire → Reply ℕ × Wire
send_byte [] w = (moved 0, w)
send_byte (x ∷ xs) (ins, out) = (moved 1, (ins, out ++ x ∷ []))

abbrev wire : Sys Wire
wire = record {
  recv = λ sock k w. recv_byte k w;
  send = λ sock bytes w. send_byte bytes w;
  ticks = λ w. (0, w);
  select_read = λ sock sec usec w. (record { failed = false; in_set = true; in_except = false }, w);
  select_write =
      λ sock sec usec w. (record { failed = false; in_set = true; in_except = false }, w);
  so_error = λ sock w. (0, w);
  eagain = 11;
}

abbrev here : Wire
here = (7 ∷ 8 ∷ 9 ∷ [], [])

abbrev incoming : Wire → List ℕ
incoming w = w.0

abbrev outgoing : Wire → List ℕ
outgoing w = w.1

recv_byte_lem : (k : ℕ) (w : Wire) → Received wire 3 incoming k w (recv_byte k w)
recv_byte_lem zero w = (refl, omega arith)
recv_byte_lem (suc k) ([], out) = refl
recv_byte_lem (suc k) (x ∷ xs, out) = (refl, omega arith)

recv_byte-Blocks : (k : ℕ) (w : Wire) → 0 < k → Blocks wire 3 incoming (recv_byte k w)
recv_byte-Blocks zero w h = omega (arith, h)
recv_byte-Blocks (suc k) ([], out) h = refl
recv_byte-Blocks (suc k) (x ∷ xs, out) h = omega arith

wire-IsStream : IsStream wire 3 incoming
wire-IsStream = record {
  recv_received = recv_byte_lem;
  ticks_pending = λ w. refl;
  select_pending = λ sec usec w. refl;
  so_error_pending = λ w. refl;
}

send_byte_lem : (bytes : List ℕ) (w : Wire) → Accepted wire 3 outgoing bytes w (send_byte bytes w)
send_byte_lem [] (ins, out) = (sym (append-nil out), omega arith)
send_byte_lem (x ∷ xs) (ins, out) = (refl, omega arith)

send_byte-Takes :
    (bytes : List ℕ) (w : Wire) → 0 < length bytes → Takes wire 3 outgoing (send_byte bytes w)
send_byte-Takes [] w h = omega (arith, h)
send_byte-Takes (x ∷ xs) w h = omega arith

wire-IsSink : IsSink wire 3 outgoing
wire-IsSink = record {
  send_accepted = send_byte_lem;
  ticks_sent = λ w. refl;
  select_sent = λ sec usec w. refl;
  so_error_sent = λ w. refl;
}

abbrev two_bytes : List ℕ
two_bytes = 7 ∷ 8 ∷ []

abbrev out_bytes : List ℕ
out_bytes = 4 ∷ 5 ∷ []

read_two : gsock_read wire 3 2 5 3 here ≡ some (some (7 ∷ 8 ∷ []), (9 ∷ [], []))
unfolding gsock_read
read_two = refl

write_two : gsock_write wire 3 (4 ∷ 5 ∷ []) 5 3 here ≡ some (some 2, (7 ∷ 8 ∷ 9 ∷ [], 4 ∷ 5 ∷ []))
unfolding gsock_write
write_two = refl

gsock_read-IsStream_example : (two_bytes ++ 9 ∷ [] ≡ 7 ∷ 8 ∷ 9 ∷ []) × (length two_bytes ≤ 2)
gsock_read-IsStream_example = gsock_read-IsStream wire 3 incoming wire-IsStream 2 5 3 here read_two

gsock_read_ends_example : (r : Option (List ℕ) × Wire) × (gsock_read wire 3 2 5 3 here ≡ some r)
gsock_read_ends_example =
    gsock_read_ends wire 3 incoming wire-IsStream recv_byte-Blocks 2 5 3 here (omega arith)

gsock_write-IsSink_example : (out_bytes ≡ [] ++ take 2 out_bytes) × (2 ≤ length out_bytes)
gsock_write-IsSink_example =
    gsock_write-IsSink wire 3 outgoing wire-IsSink (4 ∷ 5 ∷ []) 5 3 here write_two

-- A system with the number of the next socket and those that are open, on which `ioctl` fails; where the next
-- one is open, there is none to be had.
abbrev next_socket : ℕ × (ℕ → Bool) → Option ℕ × (ℕ × (ℕ → Bool))
next_socket w = if w.1 w.0 then (none, w) else (some w.0, (suc w.0, opened (some w.0) w.1))

abbrev counting : Net (ℕ × (ℕ → Bool))
counting = record {
  socket = λ kind w. next_socket w;
  close = λ sock w. (true, (w.0, closed (some sock) w.1));
  ioctl_nbio = λ sock nbio w. (false, w);
  shutdown = λ sock how w. (true, w);
}

abbrev live : ℕ × (ℕ → Bool) → ℕ → Bool
live w = w.1

next_socket-Opened : (w : ℕ × (ℕ → Bool)) → Opened counting live w (next_socket w)
next_socket-Opened w = elim (Bool-cases (w.1 w.0)) [
  | inl used ↦ rw used (refl, tt)
  | inr free ↦ rw free (refl, free)
]

counting-IsTracked : IsTracked counting live
counting-IsTracked = record {
  socket_opened = λ kind w. next_socket-Opened w;
  close_live = λ sock w is. refl;
  close_ok = λ sock w is. refl;
  ioctl_live = λ sock nbio w. refl;
  shutdown_live = λ sock how w. refl;
}

-- The third socket, 7, is detached.
abbrev calls : List Op
calls = create 1 0 ∷ create 1 1 ∷ shut 2 ∷ close ∷ create 2 0 ∷ let_go ∷ create 1 0 ∷ []

abbrev none_open : ℕ × (ℕ → Bool)
none_open = (5, λ x. false)

run_releases_example :
    (live (run counting calls none none_open).1 ≡ others counting calls none none_open none_open.1)
    × ((run counting calls none none_open).0 ≡ none)
run_releases_example = run_releases counting live counting-IsTracked calls none_open

some_ne_none : (n : ℕ) → some n ≢ none
some_ne_none n e = cc e

-- A system that knows one host and connects at once; its state counts the calls.
abbrev one_host : Peer.Net ℕ
one_host = record {
  connect = λ sock peer n. (none, n + 1);
  bind = λ sock peer n. (true, n + 1);
  listen = λ sock backlog n. (true, n + 1);
  inet_addr = λ name. inaddr_none;
  gethostbyname = λ name n. (some 167772161, n + 1);
  set_nbio = λ sock nbio n. (true, n + 1);
  buffer_size = λ sock receive n. (some 4096, n + 1);
  readable_count = λ sock n. (some 0, n + 1);
  einprogress = 115;
}

gsock_connect_by_name-gsock_hostaddr_example :
    gsock_connect_by_name one_host (some 3) (97 ∷ []) 80 0
    ≡ gsock_connect one_host
        (some 3)
        (gsock_hostaddr one_host (97 ∷ []) 0).0
        80
        (gsock_hostaddr one_host (97 ∷ []) 0).1
unfolding gsock_hostaddr
gsock_connect_by_name-gsock_hostaddr_example =
    gsock_connect_by_name-gsock_hostaddr one_host (some 3) (97 ∷ []) 80 0 (omega arith)

abbrev packet : VPacket
packet = record { kind = 2; code = 7; dlen = 300 }

packet-IsVPacket : IsVPacket packet
packet-IsVPacket = record {
  kind_fits = omega arith;
  code_fits = omega arith;
  dlen_fits = omega arith;
}

-- The four bytes of the packet, and one more.
abbrev arrived : Wire
arrived = (2 ∷ 7 ∷ 44 ∷ 1 ∷ 9 ∷ [], [])

abbrev rest_byte : List ℕ
rest_byte = 9 ∷ []

packet_sent : gsock_writevp wire 3 packet 5 5 ([], []) ≡ some (true, ([], 2 ∷ 7 ∷ 44 ∷ 1 ∷ []))
unfolding gsock_writevp
packet_sent = refl

packet_read : gsock_readvp wire 3 5 5 arrived ≡ some (true, some packet, (9 ∷ [], []))
unfolding gsock_readvp
packet_read = refl

gsock_readvp-gsock_writevp_example : (some packet ≡ some packet) × (9 ∷ [] ≡ rest_byte)
gsock_readvp-gsock_writevp_example =
    gsock_readvp-gsock_writevp wire-IsSink wire-IsStream packet packet-IsVPacket 5 5 5 5 ([], [])
      ([], 2 ∷ 7 ∷ 44 ∷ 1 ∷ []) arrived (9 ∷ [], []) (some packet) rest_byte packet_sent refl
      packet_read

-- A peer that is gone, and a clock of which a call of `recv` takes one millisecond.
abbrev silent : Sys ℕ
silent = record {
  recv = λ sock k w. (moved [], w + 1);
  send = λ sock bytes w. (moved 0, w);
  ticks = λ w. (w * 1000000, w);
  select_read = λ sock sec usec w. (record { failed = false; in_set = true; in_except = false }, w);
  select_write =
      λ sock sec usec w. (record { failed = false; in_set = true; in_except = false }, w);
  so_error = λ sock w. (0, w);
  eagain = 11;
}

silent-IsClosed : IsClosed silent 3
silent-IsClosed = record {
  recv_end = λ n w. refl;
  select_ready = λ sec usec w. refl;
  no_error = λ w. refl;
}

silent-IsWithin : IsWithin silent silent-IsClosed 4 50 5 1000000 1
unfolding elapsed_msec gsock_is_readable gsock_check_readable
silent-IsWithin = (omega arith, (omega arith, (omega arith, (omega arith, (omega arith, tt)))))

gsock_read_spins_example : gsock_read silent 3 4 50 5 0 ≡ none
gsock_read_spins_example =
    gsock_read_spins silent silent-IsClosed 4 50 (omega arith) (omega arith) 5 0 silent-IsWithin
