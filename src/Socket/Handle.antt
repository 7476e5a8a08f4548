-- ===== src/Socket/Handle.antt =====
-- src/gsocket.cpp and include/gsocket.h: class Socket, which owns a descriptor, and the functions that
-- make and close one. `none` is INVALID_SOCKET.
use opengcl.Prelude.{
  ℕ, ◌≡◌, ◌≢◌, ne→==, refl, ap, ◌∙◌, Option, none, some, Bool, true, false, ◌==◌, if◌then◌else◌,
  List, [], ◌∷◌, if_both,
}
use opengcl.Prelude.Open.{opened, closed, IsNew, opened-IsOpen, closed-opened}

-- The calls of the system; each says whether it succeeded.
pub record Net (W : Type 0) : Type 0 where
  pub socket : ℕ → W → Option ℕ × W
  pub close : ℕ → W → Bool × W
  pub ioctl_nbio : ℕ → ℕ → W → Bool × W
  pub shutdown : ℕ → ℕ → W → Bool × W

-- The calls that a client makes on a Socket object, but for `attach`.
pub data Op : Type 0 where
  create : ℕ → ℕ → Op
  close : Op
  shut : ℕ → Op
  let_go : Op

module _ {W : Type 0} (net : Net W) where
  -- `none` where `ioctl` fails, and the socket stays open.
  pub set_nonblocking : ℕ → Option ℕ × W → Option ℕ × W
  set_nonblocking nbio (none, w) = (none, w)
  set_nonblocking nbio (some sock, w) =
      let (b, w') = net.ioctl_nbio sock nbio w in
      if nbio == 0 then (some sock, w) else if b then (some sock, w') else (none, w')

  pub gsock_create_socket : ℕ → ℕ → W → Option ℕ × W
  unfolding set_nonblocking
  gsock_create_socket kind nbio w = set_nonblocking nbio (net.socket kind w)

  pub gsock_close_socket : Option ℕ → W → Bool × W
  gsock_close_socket none w = (false, w)
  gsock_close_socket (some sock) w = net.close sock w

  pub gsock_shutdown : Option ℕ → ℕ → W → Bool × W
  gsock_shutdown none how w = (false, w)
  gsock_shutdown (some sock) how w = net.shutdown sock how w

  -- `if (m_sock != INVALID_SOCKET) closesocket(m_sock);`
  pub drop_old : Option ℕ → W → W
  drop_old none w = w
  drop_old (some sock) w = (net.close sock w).1

  -- Each method returns its result, `m_sock` and the state of the system.
  pub configure : ℕ → Option ℕ × W → Bool × Option ℕ × W
  configure nbio (none, w) = (false, none, w)
  configure nbio (some sock, w) =
      let (b, w') = net.ioctl_nbio sock nbio w in
      if nbio == 0 then (true, some sock, w) else (b, some sock, w')

  pub create_socket : ℕ → ℕ → Option ℕ → W → Bool × Option ℕ × W
  unfolding drop_old configure
  create_socket kind nbio m_sock w = configure nbio (net.socket kind (drop_old m_sock w))

  pub close_socket : Option ℕ → W → Bool × Option ℕ × W
  close_socket none w = (false, none, w)
  close_socket (some sock) w =
      let (b, w') = net.close sock w in if b then (true, none, w') else (false, some sock, w')

  pub attach : Option ℕ → Option ℕ → W → Bool × Option ℕ × W
  unfolding drop_old
  attach none m_sock w = (false, m_sock, w)
  attach (some sock) none w = (true, some sock, w)
  attach (some sock) (some old) w =
      if old == sock then (true, some old, w) else (true, some sock, drop_old (some old) w)

  pub detach : Option ℕ → Bool × Option ℕ
  detach m_sock = (true, none)

  -- The object and the system behind a call.
  abbrev after : Bool × Option ℕ × W → Option ℕ × W
  after (b, m_sock, w) = (m_sock, w)

  -- The calls in order, `let_go` is `detach`, and the destructor.
  pub run : List Op → Option ℕ → W → Option ℕ × W
  unfolding create_socket close_socket gsock_shutdown
  run [] m_sock w = after (close_socket m_sock w)
  run (create kind nbio ∷ ops) m_sock w =
      let (b, m', w') = create_socket kind nbio m_sock w in run ops m' w'
  run (close ∷ ops) m_sock w = let (b, m', w') = close_socket m_sock w in run ops m' w'
  run (shut how ∷ ops) m_sock w = run ops m_sock (gsock_shutdown m_sock how w).1
  run (let_go ∷ ops) m_sock w = run ops (detach m_sock).1 w

  -- What is open beside the object's own descriptor, `s` at first: each that it has at a call of `detach` is
  -- added.
  abbrev pub others : List Op → Option ℕ → W → (ℕ → Bool) → ℕ → Bool
  others [] m_sock w s = s
  others (create kind nbio ∷ ops) m_sock w s =
      let (b, m', w') = create_socket kind nbio m_sock w in others ops m' w' s
  others (close ∷ ops) m_sock w s = let (b, m', w') = close_socket m_sock w in others ops m' w' s
  others (shut how ∷ ops) m_sock w s = others ops m_sock (gsock_shutdown m_sock how w).1 s
  others (let_go ∷ ops) m_sock w s = others ops none w (opened m_sock s)

  module _ (live : W → ℕ → Bool) where
    abbrev pub Opened : W → Option ℕ × W → Type 0
    Opened w (o, w') = (live w' ≡ opened o (live w)) × IsNew o (live w)

    -- What the code relies on, where `live` says which descriptors are open: `socket` gives one that was not
    -- open, or none, and closing an open one succeeds and closes it and no other.
    pub record IsTracked : Type 0 where
      pub socket_opened : (kind : ℕ) (w : W) → Opened w (net.socket kind w)
      pub close_live :
          (sock : ℕ) (w : W)
          → live w sock ≡ true
          → live (net.close sock w).1 ≡ closed (some sock) (live w)
      pub close_ok : (sock : ℕ) (w : W) → live w sock ≡ true → (net.close sock w).0 ≡ true
      pub ioctl_live : (sock nbio : ℕ) (w : W) → live (net.ioctl_nbio sock nbio w).1 ≡ live w
      pub shutdown_live : (sock how : ℕ) (w : W) → live (net.shutdown sock how w).1 ≡ live w

    module _ (tracked : IsTracked) where
      -- Beside the descriptors `s` of others, the one that the object has is open.
      abbrev Balanced : (ℕ → Bool) → Option ℕ × W → Type 0
      Balanced s (m_sock, w) = (live w ≡ opened m_sock s) × IsNew m_sock s

      Balanced-open :
          (s : ℕ → Bool) (sock : ℕ) (w : W) → Balanced s (some sock, w) → live w sock ≡ true
      Balanced-open s sock w h = rw h.0 (opened-IsOpen (some sock) s)

      closed_lem :
          (s : ℕ → Bool) (sock : ℕ) (w : W)
          → Balanced s (some sock, w)
          → live (net.close sock w).1 ≡ s
      closed_lem s sock w h =
          tracked.close_live sock w (Balanced-open s sock w h)
          ∙ ap (closed (some sock)) h.0
          ∙ closed-opened (some sock) s h.1

      drop_old-Balanced :
          (s : ℕ → Bool) (m_sock : Option ℕ) (w : W)
          → Balanced s (m_sock, w)
          → live (drop_old m_sock w) ≡ s
      unfolding drop_old
      drop_old-Balanced s none w h = h.0
      drop_old-Balanced s (some sock) w h = closed_lem s sock w h

      configure-Balanced :
          (s : ℕ → Bool) (nbio : ℕ) (w : W) (r : Option ℕ × W)
          → live w ≡ s
          → Opened w r
          → Balanced s (after (configure nbio r))
      unfolding configure
      configure-Balanced s nbio w (none, w') e h = (h.0 ∙ e, tt)
      configure-Balanced s nbio w (some sock, w') e h =
          let is : live w' ≡ opened (some sock) s = h.0 ∙ ap (opened (some sock)) e in
          let new : s sock ≡ false = rw e at h.1 in
          if_both (λ r. Balanced s (after r)) (nbio == 0) (is, new)
            (tracked.ioctl_live sock nbio w' ∙ is, new)

      close_socket-Balanced :
          (s : ℕ → Bool) (m_sock : Option ℕ) (w : W)
          → Balanced s (m_sock, w)
          → (Balanced s (after (close_socket m_sock w))) × ((close_socket m_sock w).1 ≡ none)
      unfolding close_socket
      close_socket-Balanced s none w h = (h, refl)
      close_socket-Balanced s (some sock) w h =
          rw (tracked.close_ok sock w (Balanced-open s sock w h))
            (((closed_lem s sock w h, tt), refl))

      create_socket-Balanced :
          (s : ℕ → Bool) (kind nbio : ℕ) (m_sock : Option ℕ) (w : W)
          → Balanced s (m_sock, w)
          → Balanced s (after (create_socket kind nbio m_sock w))
      unfolding create_socket
      create_socket-Balanced s kind nbio m_sock w h =
          configure-Balanced s nbio (drop_old m_sock w) (net.socket kind (drop_old m_sock w))
            (drop_old-Balanced s m_sock w h) (tracked.socket_opened kind (drop_old m_sock w))

      shut_live :
          (m_sock : Option ℕ) (how : ℕ) (w : W) → live (gsock_shutdown m_sock how w).1 ≡ live w
      unfolding gsock_shutdown
      shut_live none how w = refl
      shut_live (some sock) how w = tracked.shutdown_live sock how w

      run-Balanced :
          (ops : List Op) (s : ℕ → Bool) (m_sock : Option ℕ) (w : W)
          → Balanced s (m_sock, w)
          → (live (run ops m_sock w).1 ≡ others ops m_sock w s) × ((run ops m_sock w).0 ≡ none)
      unfolding run detach
      run-Balanced [] s m_sock w h =
          let (kept, gone) = close_socket-Balanced s m_sock w h in
          (kept.0 ∙ ap (λ o. opened o s) gone, gone)
      run-Balanced (create kind nbio ∷ ops) s m_sock w h =
          run-Balanced ops s _ _ (create_socket-Balanced s kind nbio m_sock w h)
      run-Balanced (close ∷ ops) s m_sock w h =
          run-Balanced ops s _ _ (close_socket-Balanced s m_sock w h).0
      run-Balanced (shut how ∷ ops) s m_sock w h =
          run-Balanced ops s m_sock _ (shut_live m_sock how w ∙ h.0, h.1)
      run-Balanced (let_go ∷ ops) s m_sock w h = run-Balanced ops (opened m_sock s) none w (h.0, tt)

      -- Where `socket` gives a descriptor that was not open, or none, and closing an open descriptor succeeds and
      -- closes that one and no other: after any sequence of `create_socket`, `close_socket`, `shutdown` and
      -- `detach` on a new Socket object, and its destructor, the descriptors that are open are those from before
      -- and those that the object had at a call of `detach`. Calls of `attach` are not among them.
      pub run_releases :
          (ops : List Op) (w : W)
          → (live (run ops none w).1 ≡ others ops none w (live w)) × ((run ops none w).0 ≡ none)
      run_releases ops w = run-Balanced ops (live w) none w (refl, tt)

      set_nonblocking_leaks :
          (nbio : ℕ) (w : W) (r : Option ℕ × W)
          → nbio ≢ 0
          → r.0 ≢ none
          → ((sock : ℕ) (v : W) → (net.ioctl_nbio sock nbio v).0 ≡ false)
          → Opened w r
          → ((set_nonblocking nbio r).0 ≡ none)
            × (live (set_nonblocking nbio r).1 ≡ opened r.0 (live w))
      unfolding set_nonblocking
      set_nonblocking_leaks nbio w (none, w') ne some_r fails h = absurd (some_r refl)
      set_nonblocking_leaks nbio w (some sock, w') ne some_r fails h =
          rw (ne→== nbio 0 ne, fails sock w') ((refl, tracked.ioctl_live sock nbio w' ∙ h.0))

      -- Where a socket is made but cannot be set to non-blocking, `gsock_create_socket` returns
      -- INVALID_SOCKET and leaves the descriptor open, which nobody has.
      pub gsock_create_socket_leaks :
          (kind nbio : ℕ) (w : W)
          → nbio ≢ 0
          → (net.socket kind w).0 ≢ none
          → ((sock : ℕ) (v : W) → (net.ioctl_nbio sock nbio v).0 ≡ false)
          → ((gsock_create_socket kind nbio w).0 ≡ none)
            × (live (gsock_create_socket kind nbio w).1 ≡ opened (net.socket kind w).0 (live w))
      unfolding gsock_create_socket
      gsock_create_socket_leaks kind nbio w ne made fails =
          set_nonblocking_leaks nbio w (net.socket kind w) ne made fails
            (tracked.socket_opened kind w)
