-- ===== src/UnixSocket/Inherited.antt =====
-- The descriptors that src/unix_socket.c hands out are not inherited by the programs of children.
use embla.Prelude.{
  ℕ, ◌≡◌, inl, inr, Bool, true, Option, none, some, ◌∷◌, ℤ, pos, arith, Option-cases,
}
use mathlib.Core.Option.{none-ne-some}
use embla.Process.{CString}
use embla.Descriptors.{Trace, Host, SocketType, stream, datagram, opened, request}
use embla.Descriptors.CloseOnExec.{marked, set_cloexec-marked}
use embla.UnixSocket.{
  UnixSocket, build_address, bind_on, bind_socket, listener_create, listener_accept, connect_on,
  socket_connect, datagram_create,
}

module _ (host : Host) (size k : ℕ) where
  -- A descriptor that is returned has FD_CLOEXEC set.
  abbrev pub Marks : ℤ × Trace → Type 0
  Marks (code, t) = code ≡ pos k → marked host k t ≡ true

  bind_on-Marks : (fd : ℕ) (path : CString) (t : Trace) → Marks (bind_on host size fd path t)
  unfolding bind_on request
  bind_on-Marks fd path t e = let on = set_cloexec-marked host fd t in ground arith

  connect_on-Marks : (fd : ℕ) (path : CString) (t : Trace) → Marks (connect_on host size fd path t)
  unfolding connect_on request
  connect_on-Marks fd path t e = let on = set_cloexec-marked host fd t in ground arith

  bind_socket-Marks :
      (type : SocketType) (path : CString) (t : Trace) → Marks (bind_socket host size type path t)
  unfolding bind_socket
  bind_socket-Marks type path t = elim (Option-cases (build_address size path)) [
    | inl refused ↦ rw (refused, bind_socket) (λ e. absurd (ground arith))
    | inr (address, built) ↦ elim (Option-cases (host.socket type t)) [
      | inl failed ↦ rw (built, failed, bind_socket) (λ e. absurd (ground arith))
      | inr (fd, got) ↦ rw (built, got, bind_socket) (bind_on-Marks fd address (opened fd ∷ t))
    ]
  ]

  socket_connect-Marks :
      (path : Option CString) (t : Trace) → Marks (socket_connect host size path t)
  unfolding socket_connect
  socket_connect-Marks none t = λ e. absurd (ground arith)
  socket_connect-Marks (some path) t = elim (Option-cases (build_address size path)) [
    | inl refused ↦ rw (refused, socket_connect) (λ e. absurd (ground arith))
    | inr (address, built) ↦ elim (Option-cases (host.socket stream t)) [
      | inl failed ↦ rw (built, failed, socket_connect) (λ e. absurd (ground arith))
      | inr (fd, got) ↦
          rw (built, got, socket_connect) (connect_on-Marks fd address (opened fd ∷ t))
    ]
  ]

  listener_accept-Marks :
      (listener : Option UnixSocket) (t : Trace) → Marks (listener_accept host size listener t)
  unfolding listener_accept
  listener_accept-Marks none t = λ e. absurd (ground arith)
  listener_accept-Marks (some listener) t = elim (Option-cases (host.accept listener.fd t)) [
    | inl failed ↦ rw (failed, listener_accept) (λ e. absurd (ground arith))
    | inr (fd, got) ↦
        let on = set_cloexec-marked host fd (opened fd ∷ t) in
        rw (got, listener_accept) (λ e. ground arith)
  ]

  -- The same for the descriptor of an object that is made.
  abbrev pub MarksSocket : Option UnixSocket × Trace → Type 0
  MarksSocket (s, t) =
      (made : UnixSocket) → s ≡ some made → made.fd ≡ pos k → marked host k t ≡ true

  listener_create-Marks :
      (path : Option CString) (backlog : ℤ) (copied allocated : Bool) (t : Trace)
      → MarksSocket (listener_create host size path backlog copied allocated t)
  unfolding listener_create request
  listener_create-Marks none backlog copied allocated t made e is = absurd (none-ne-some made e)
  listener_create-Marks (some path) backlog copied allocated t made e is =
      let bound = bind_socket-Marks stream path t in ground arith

  datagram_create-Marks :
      (path : Option CString) (copied allocated : Bool) (t : Trace)
      → MarksSocket (datagram_create host size path copied allocated t)
  unfolding datagram_create
  datagram_create-Marks none copied allocated t made e is = absurd (none-ne-some made e)
  datagram_create-Marks (some path) copied allocated t made e is =
      let bound = bind_socket-Marks datagram path t in ground arith

-- Whatever the host answers: every descriptor that the functions on sockets return, or keep in an
-- object that they return, has FD_CLOEXEC set, so no program of a child inherits it.
pub results-Marks :
    (host : Host) (size : ℕ) (listener : Option UnixSocket) (path : Option CString) (backlog : ℤ)
    (copied allocated : Bool) (t : Trace) (k : ℕ)
    → Marks host size k (listener_accept host size listener t)
      × Marks host size k (socket_connect host size path t)
      × MarksSocket host size k (listener_create host size path backlog copied allocated t)
      × MarksSocket host size k (datagram_create host size path copied allocated t)
results-Marks host size listener path backlog copied allocated t k = (
  listener_accept-Marks host size k listener t,
  socket_connect-Marks host size k path t,
  listener_create-Marks host size k path backlog copied allocated t,
  datagram_create-Marks host size k path copied allocated t,
)
