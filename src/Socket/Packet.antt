-- ===== src/Socket/Packet.antt =====
-- include/gsocket.h: the packets of the V protocol, as a little-endian machine stores and sends them.
use opengcl.Prelude.{
  ℕ, ◌+◌, ◌*◌, ◌/◌, ◌%◌, ◌^◌, ◌<◌, ◌≡◌, refl, sym, ap, ◌∙◌, Option, none, some, Bool, true, List,
  [], ◌∷◌, ◌++◌, length, arith, ==→eq, append-inj, append_assoc,
}
use opengcl.Socket.{
  Sys, gsock_readn, gsock_writen, gsock_read, gsock_write, whole_read, whole_write,
}
use opengcl.Socket.Transfer.Read.{IsStream, gsock_read-IsStream}
use opengcl.Socket.Transfer.Write.{IsSink, take, gsock_write-IsSink}

-- `vpacket_t`
pub record VPacket : Type 0 where
  pub kind : ℕ
  pub code : ℕ
  pub dlen : ℕ

-- The fields have 8, 8 and 16 bits.
pub record IsVPacket (p : VPacket) : Type 0 where
  pub kind_fits : p.kind < 2 ^ 8
  pub code_fits : p.code < 2 ^ 8
  pub dlen_fits : p.dlen < 2 ^ 16

-- `sizeof(vpacket_t)`, which is packed.
abbrev pub sizeof_vpacket : ℕ
sizeof_vpacket = 4

-- Of `enumVProtocolConstants`: VPT_REPLY and VNET_TIMEOUT.
abbrev pub vpt_reply : ℕ
vpt_reply = 2

abbrev pub vnet_timeout : ℕ
vnet_timeout = 5000

pub bytes_of : VPacket → List ℕ
bytes_of p = p.kind ∷ p.code ∷ p.dlen % 2 ^ 8 ∷ p.dlen / 2 ^ 8 ∷ []

-- A packet from as many bytes as it has.
pub packet_of : List ℕ → Option VPacket
packet_of (a ∷ b ∷ c ∷ d ∷ []) = some (record { kind = a; code = b; dlen = c + d * 2 ^ 8 })
packet_of bytes = none

module _ {W : Type 0} (sys : Sys W) where
  abbrev received : Option (Bool × Option (List ℕ) × W) → Option (Bool × Option VPacket × W)
  received none = none
  received (some (b, none, w)) = some (b, none, w)
  received (some (b, some bytes, w)) = some (b, packet_of bytes, w)

  -- Whether a packet came, and the packet; `none` where only a part of it was written to `vp`.
  unfoldable pub gsock_readvp : ℕ → ℕ → ℕ → W → Option (Bool × Option VPacket × W)
  unfolding gsock_readn packet_of
  gsock_readvp sock timeout fuel w = received (gsock_readn sys sock sizeof_vpacket timeout fuel w)

  unfoldable pub gsock_writevp : ℕ → VPacket → ℕ → ℕ → W → Option (Bool × W)
  unfolding gsock_writen bytes_of
  gsock_writevp sock vp timeout fuel w = gsock_writen sys sock (bytes_of vp) timeout fuel w

  -- `len` bytes, of which the first are the packet and `rest` those that lie behind it.
  pub gsock_writevpn : ℕ → VPacket → List ℕ → ℕ → ℕ → ℕ → W → Option (Bool × W)
  unfolding gsock_writen bytes_of
  gsock_writevpn sock vp rest len timeout fuel w =
      gsock_writen sys sock (take len (bytes_of vp ++ rest)) timeout fuel w

  pub gsock_simple_reply : ℕ → ℕ → ℕ → ℕ → W → Option (Bool × W)
  unfolding gsock_writevp
  gsock_simple_reply sock code timeout fuel w =
      gsock_writevp sock (record { kind = vpt_reply; code = code % 2 ^ 8; dlen = 0 }) timeout fuel w

-- A packet whose fields fit comes back from its bytes.
pub packet_of-bytes_of : (p : VPacket) → IsVPacket p → packet_of (bytes_of p) ≡ some p
unfolding packet_of bytes_of
packet_of-bytes_of p h =
    let low : p.dlen % 2 ^ 8 + p.dlen / 2 ^ 8 * 2 ^ 8 ≡ p.dlen = omega (arith, h.dlen_fits) in
    ap (λ d. some (record p { dlen = d })) low

module _ {W : Type 0} (sys : Sys W) where
  -- A call that has written all bytes was one of `gsock_write` that returned their number.
  written :
      (n : ℕ) (o : Option (Option ℕ × W)) {w : W}
      → whole_write sys n o ≡ some (true, w)
      → o ≡ some (some n, w)
  written n none e = absurd (cc e)
  written n (some (none, w)) e = absurd (cc e)
  written n (some (some k, w)) {w = w'} e =
      let count : k ≡ n = ==→eq k n (cc e) in let state : w ≡ w' = cc e in rw (count, state) refl

  -- A call that has read a packet was one of `gsock_read` that gave its bytes.
  record Got (o : Option (Option (List ℕ) × W)) (vp : Option VPacket) (w : W) : Type 0 where
    bytes : List ℕ
    here : o ≡ some (some bytes, w)
    size : length bytes ≡ sizeof_vpacket
    is : packet_of bytes ≡ vp

  got :
      (o : Option (Option (List ℕ) × W)) {vp : Option VPacket} {w : W}
      → received sys (whole_read sys sizeof_vpacket o) ≡ some (true, vp, w)
      → Got o vp w
  got none e = absurd (cc e)
  got (some (none, w)) e = absurd (cc e)
  got (some (some bytes, w)) {vp = vp} {w = w'} e =
      let state : w ≡ w' = cc e in
      record {
        bytes = bytes;
        here = rw state refl;
        size = ==→eq (length bytes) sizeof_vpacket (cc e);
        is = cc e;
      }

-- A packet that has been written to one socket whole is the one that is next read whole from the other,
-- where what is still to be read there is what has been sent since, and perhaps more; then just the rest
-- is still to be read. The two systems may do anything else besides.
pub gsock_readvp-gsock_writevp :
    {W V : Type 0} {out : Sys W} {inn : Sys V} {sock sock' : ℕ} {sent : W → List ℕ}
    {pending : V → List ℕ}
    → IsSink out sock sent
    → IsStream inn sock' pending
    → (p : VPacket) → IsVPacket p
    → (timeout timeout' fuel fuel' : ℕ) (w w' : W) (v v' : V) (vp : Option VPacket) (rest : List ℕ)
    → gsock_writevp out sock p timeout fuel w ≡ some (true, w')
    → sent w' ++ rest ≡ sent w ++ pending v
    → gsock_readvp inn sock' timeout' fuel' v ≡ some (true, vp, v')
    → (vp ≡ some p) × (pending v' ≡ rest)
unfolding gsock_writevp gsock_readvp bytes_of
gsock_readvp-gsock_writevp {out} {inn} {sock} {sock'} {sent} {pending} sink stream p h timeout
      timeout' fuel fuel' w w' v v' vp rest wrote link read =
    let sending =
      gsock_write-IsSink out sock sent sink (bytes_of p) timeout fuel w
        (written out 4 (gsock_write out sock (bytes_of p) timeout fuel w) wrote) in
    let g = got inn (gsock_read inn sock' sizeof_vpacket timeout' fuel' v) read in
    let receiving =
      gsock_read-IsStream inn sock' pending stream sizeof_vpacket timeout' fuel' v g.here in
    let arrived =
      append-inj (sent w) (sent w)
        (sym (append_assoc (sent w) (bytes_of p) rest)
          ∙ (ap (λ l. l ++ rest) (sym sending.0) ∙ link))
        refl in
    let parts = append-inj g.bytes (bytes_of p) (receiving.0 ∙ sym arrived.1) g.size in
    (sym g.is ∙ (ap packet_of parts.0 ∙ packet_of-bytes_of p h), parts.1)
