-- ===== src/UnixSocket.antt =====
-- src/unix_socket.c: stream listeners, datagram sockets, connections and one-shot datagrams. A NULL
-- string or object is `none`. `size` is `sizeof(addr.sun_path)`, which the host's headers give;
-- `copied` and `allocated` are whether the copy of a path and an object can be allocated.
pub mod Balance
pub mod Inherited
mod Tests
use embla.Prelude.{
  ℕ, zero, suc, ◌-◌, Bool, not, ◌||◌, Option, none, some, List, [], ◌∷◌, ℤ, pos, success, failure,
  length, leb, ◌==◌, ltb_ℤ, eqb_ℤ, if◌then◌else◌,
}
use embla.Process.{CString}
use embla.Descriptors.{
  Trace, Host, SocketType, stream, datagram, opened, closed, bind, connect, listen, unlink, send,
  request, set_cloexec,
}

-- What UnixListener and UnixDatagramSocket consist of.
pub record UnixSocket : Type 0 where
  pub fd : ℤ
  pub path : CString

-- `strncpy` of at most `count` bytes.
unfoldable pub take : ℕ → CString → CString
take count [] = []
take zero (byte ∷ bytes) = []
take (suc count) (byte ∷ bytes) = byte ∷ take count bytes

unfoldable pub build_address : (size : ℕ) → CString → Option CString
unfolding take
build_address size path = if leb size (length path) then none else some (take (size - 1) path)

module _ (host : Host) (size : ℕ) where
  -- The steps of `unix_socket_bind` on the descriptor of the new socket.
  unfoldable pub bind_on : (fd : ℕ) (address : CString) → Trace → ℤ × Trace
  unfolding set_cloexec request
  bind_on fd address t =
      let (marked, t₁) = set_cloexec host (pos fd) t in
      let (bound, t₂) = request host (bind (pos fd) address) t₁ in
      if not (eqb_ℤ marked success)
      then (failure, closed (pos fd) ∷ t₁)
      else if not (eqb_ℤ bound success)
      then (failure, closed (pos fd) ∷ t₂)
      else (pos fd, t₂)

  unfoldable pub bind_socket : SocketType → CString → Trace → ℤ × Trace
  unfolding build_address bind_on
  bind_socket type path t = elim (build_address size path) [
    | none ↦ (failure, t)
    | some address ↦ elim (host.socket type t) [
      | none ↦ (failure, t)
      | some fd ↦ bind_on fd address (opened fd ∷ t)
    ]
  ]

  unfoldable pub listener_create :
      Option CString → (backlog : ℤ) → (copied allocated : Bool) → Trace → Option UnixSocket × Trace
  unfolding bind_socket request
  listener_create none backlog copied allocated t = (none, t)
  listener_create (some path) backlog copied allocated t =
      let (fd, t₁) = bind_socket stream path t in
      let (listening, t₂) = request host (listen fd backlog) t₁ in
      if ltb_ℤ fd (pos 0)
      then (none, t₁)
      else if not (eqb_ℤ listening success)
      then (none, unlink path ∷ closed fd ∷ t₂)
      else if not copied
      then (none, unlink path ∷ closed fd ∷ t₂)
      else if not allocated
      then (none, unlink path ∷ closed fd ∷ t₂)
      else (some (record { fd = fd; path = path }), t₂)

  unfoldable pub listener_accept : Option UnixSocket → Trace → ℤ × Trace
  unfolding set_cloexec
  listener_accept none t = (failure, t)
  listener_accept (some listener) t = elim (host.accept listener.fd t) [
    | none ↦ (failure, t)
    | some fd ↦
        let (marked, t₁) = set_cloexec host (pos fd) (opened fd ∷ t) in
        if eqb_ℤ marked success then (pos fd, t₁) else (failure, closed (pos fd) ∷ t₁)
  ]

  -- The steps of `unix_socket_connect` on the descriptor of the new socket.
  unfoldable pub connect_on : (fd : ℕ) (address : CString) → Trace → ℤ × Trace
  unfolding set_cloexec request
  connect_on fd address t =
      let (marked, t₁) = set_cloexec host (pos fd) t in
      let (connected, t₂) = request host (connect (pos fd) address) t₁ in
      if not (eqb_ℤ marked success)
      then (failure, closed (pos fd) ∷ t₁)
      else if not (eqb_ℤ connected success)
      then (failure, closed (pos fd) ∷ t₂)
      else (pos fd, t₂)

  unfoldable pub socket_connect : Option CString → Trace → ℤ × Trace
  unfolding build_address connect_on
  socket_connect none t = (failure, t)
  socket_connect (some path) t = elim (build_address size path) [
    | none ↦ (failure, t)
    | some address ↦ elim (host.socket stream t) [
      | none ↦ (failure, t)
      | some fd ↦ connect_on fd address (opened fd ∷ t)
    ]
  ]

  unfoldable pub datagram_create :
      Option CString → (copied allocated : Bool) → Trace → Option UnixSocket × Trace
  unfolding bind_socket
  datagram_create none copied allocated t = (none, t)
  datagram_create (some path) copied allocated t =
      let (fd, t₁) = bind_socket datagram path t in
      if ltb_ℤ fd (pos 0)
      then (none, t₁)
      else if not copied
      then (none, unlink path ∷ closed fd ∷ t₁)
      else if not allocated
      then (none, unlink path ∷ closed fd ∷ t₁)
      else (some (record { fd = fd; path = path }), t₁)

  -- The steps of `unix_datagram_socket_send` on the descriptor of the new socket.
  unfoldable pub send_on : (fd : ℕ) (address message : CString) → Trace → ℤ × Trace
  unfolding set_cloexec
  send_on fd address message t =
      let (marked, t₁) = set_cloexec host (pos fd) t in
      let t₂ = closed (pos fd) ∷ send (pos fd) address message ∷ t₁ in
      if not (eqb_ℤ marked success)
      then (failure, closed (pos fd) ∷ t₁)
      else elim (host.sendto (pos fd) t₁) [
        | none ↦ (failure, t₂)
        | some sent ↦ if sent == length message then (success, t₂) else (failure, t₂)
      ]

  unfoldable pub datagram_send : Option CString → Option CString → Trace → ℤ × Trace
  unfolding build_address send_on
  datagram_send none message t = (failure, t)
  datagram_send (some path) none t = (failure, t)
  datagram_send (some path) (some message) t = elim (build_address size path) [
    | none ↦ (failure, t)
    | some address ↦ elim (host.socket datagram t) [
      | none ↦ (failure, t)
      | some fd ↦ send_on fd address message (opened fd ∷ t)
    ]
  ]

-- `unix_listener_destroy` and `unix_datagram_socket_destroy`.
unfoldable pub listener_destroy : Option UnixSocket → Trace → Trace
listener_destroy none t = t
listener_destroy (some s) t = unlink s.path ∷ closed s.fd ∷ t

unfoldable pub datagram_destroy : Option UnixSocket → Trace → Trace
datagram_destroy none t = t
datagram_destroy (some s) t = unlink s.path ∷ closed s.fd ∷ t

unfoldable pub listener_fd : Option UnixSocket → ℤ
listener_fd s = elim s [ none ↦ failure | some s ↦ s.fd ]

unfoldable pub datagram_fd : Option UnixSocket → ℤ
datagram_fd s = elim s [ none ↦ failure | some s ↦ s.fd ]
