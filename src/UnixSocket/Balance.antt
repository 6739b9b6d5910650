-- ===== src/UnixSocket/Balance.antt =====
-- What the functions on sockets leave open, and which paths they leave bound.
use embla.Prelude.{
  ℕ, zero, suc, ◌-◌, ◌≤◌, ◌<◌, ◌≡◌, refl, ap, ◌⊎◌, inl, inr, Bool, Option, none, some, [], ◌∷◌, ℤ,
  pos, eqb_ℤ, ltb_ℤ, leb, length, if◌then◌else◌, arith, Option-cases, Bool-cases,
}
use embla.Process.{CString}
use embla.Service.{bytes_eq}
use embla.Descriptors.{Trace, Host, SocketType, stream, datagram, opened, request}
use embla.Descriptors.Balance.{one_if, Leaves, LeavesPath, set_cloexec-Quiet, set_cloexec-binds}
use embla.UnixSocket.{
  UnixSocket, take, build_address, bind_on, bind_socket, listener_create, listener_accept,
  connect_on, socket_connect, datagram_create, send_on, datagram_send, listener_destroy,
  datagram_destroy,
}

take_all : (n : ℕ) (bytes : CString) → length bytes ≤ n → take n bytes ≡ bytes
unfolding take
take_all n [] fits = refl
take_all zero (byte ∷ bytes) fits = absurd (omega arith)
take_all (suc n) (byte ∷ bytes) fits = ap (λ l. byte ∷ l) (take_all n bytes (omega arith))

-- An address holds its whole path, or the path is refused for its length.
pub build_address-cases :
    (size : ℕ) (path : CString)
    → ((length path < size) × (build_address size path ≡ some path))
      ⊎ ((size ≤ length path) × (build_address size path ≡ none))
unfolding build_address
build_address-cases size path = elim (Bool-cases (leb size (length path))) [
  | inl long ↦ inr (ground arith, rw (long, build_address) refl)
  | inr short ↦
      inl (
        ground arith,
        rw (short, build_address) (ap some (take_all (size - 1) path (ground arith))),
      )
]

-- What a result keeps of a descriptor and of a path.
abbrev pub holds : ℕ → ℤ → ℕ
holds k fd = one_if (eqb_ℤ fd (pos k))

abbrev pub holds_path : CString → CString → ℤ → ℕ
holds_path name path fd = if ltb_ℤ fd (pos 0) then 0 else one_if (bytes_eq path name)

abbrev pub keeps : ℕ → Option UnixSocket → ℕ
keeps k none = 0
keeps k (some s) = holds k s.fd

abbrev pub keeps_path : CString → Option UnixSocket → ℕ
keeps_path name none = 0
keeps_path name (some s) = one_if (bytes_eq s.path name)

module _ (host : Host) (size : ℕ) (k : ℕ) (name : CString) where
  bind_on-Leaves :
      (fd : ℕ) (path : CString) (t : Trace)
      → let (code, t') = bind_on host size fd path (opened fd ∷ t) in
        Leaves k t t' (holds k code) × LeavesPath host name t t' (holds_path name path code)
  unfolding bind_on request
  bind_on-Leaves fd path t =
      let quiet = set_cloexec-Quiet host (pos fd) (opened fd ∷ t) k in
      let paths = set_cloexec-binds host (pos fd) (opened fd ∷ t) name in ground arith

  bind_socket-Leaves :
      (type : SocketType) (path : CString) (t : Trace)
      → let (code, t') = bind_socket host size type path t in
        Leaves k t t' (holds k code) × LeavesPath host name t t' (holds_path name path code)
  unfolding bind_socket
  bind_socket-Leaves type path t = elim (build_address-cases size path) [
    | inr (_, refused) ↦ rw (refused, bind_socket) (ground arith)
    | inl (_, whole) ↦ elim (Option-cases (host.socket type t)) [
      | inl failed ↦ rw (whole, failed, bind_socket) (ground arith)
      | inr (fd, got) ↦ rw (whole, got, bind_socket) (bind_on-Leaves fd path t)
    ]
  ]

  -- A new object keeps its descriptor and its path, and a failure keeps nothing.
  abbrev pub LeavesSocket : Trace → Option UnixSocket × Trace → Type 0
  LeavesSocket t (s, t') = Leaves k t t' (keeps k s) × LeavesPath host name t t' (keeps_path name s)

  listener_create-Leaves :
      (path : Option CString) (backlog : ℤ) (copied allocated : Bool) (t : Trace)
      → LeavesSocket t (listener_create host size path backlog copied allocated t)
  unfolding listener_create request
  listener_create-Leaves none backlog copied allocated t = (omega arith, omega arith)
  listener_create-Leaves (some path) backlog copied allocated t =
      let bound = bind_socket-Leaves stream path t in ground arith

  datagram_create-Leaves :
      (path : Option CString) (copied allocated : Bool) (t : Trace)
      → LeavesSocket t (datagram_create host size path copied allocated t)
  unfolding datagram_create
  datagram_create-Leaves none copied allocated t = (omega arith, omega arith)
  datagram_create-Leaves (some path) copied allocated t =
      let bound = bind_socket-Leaves datagram path t in ground arith

  connect_on-Leaves :
      (fd : ℕ) (path : CString) (t : Trace)
      → let (code, t') = connect_on host size fd path (opened fd ∷ t) in
        Leaves k t t' (holds k code) × LeavesPath host name t t' 0
  unfolding connect_on request
  connect_on-Leaves fd path t =
      let quiet = set_cloexec-Quiet host (pos fd) (opened fd ∷ t) k in
      let paths = set_cloexec-binds host (pos fd) (opened fd ∷ t) name in ground arith

  send_on-Leaves :
      (fd : ℕ) (path message : CString) (t : Trace)
      → let (code, t') = send_on host size fd path message (opened fd ∷ t) in
        Leaves k t t' 0 × LeavesPath host name t t' 0
  unfolding send_on
  send_on-Leaves fd path message t =
      let quiet = set_cloexec-Quiet host (pos fd) (opened fd ∷ t) k in
      let paths = set_cloexec-binds host (pos fd) (opened fd ∷ t) name in ground arith

  -- A stream socket that is accepted or connected stays open exactly if its descriptor is returned,
  -- and binds no path.
  abbrev pub LeavesFd : Trace → ℤ × Trace → Type 0
  LeavesFd t (code, t') = Leaves k t t' (holds k code) × LeavesPath host name t t' 0

  listener_accept-Leaves :
      (listener : Option UnixSocket) (t : Trace) → LeavesFd t (listener_accept host size listener t)
  unfolding listener_accept
  listener_accept-Leaves none t = ground arith
  listener_accept-Leaves (some listener) t = elim (Option-cases (host.accept listener.fd t)) [
    | inl failed ↦ rw (failed, listener_accept) (ground arith)
    | inr (fd, got) ↦
        let quiet = set_cloexec-Quiet host (pos fd) (opened fd ∷ t) k in
        let paths = set_cloexec-binds host (pos fd) (opened fd ∷ t) name in
        rw (got, listener_accept) (ground arith)
  ]

  socket_connect-Leaves :
      (path : Option CString) (t : Trace) → LeavesFd t (socket_connect host size path t)
  unfolding socket_connect
  socket_connect-Leaves none t = ground arith
  socket_connect-Leaves (some path) t = elim (build_address-cases size path) [
    | inr (_, refused) ↦ rw (refused, socket_connect) (ground arith)
    | inl (_, whole) ↦ elim (Option-cases (host.socket stream t)) [
      | inl failed ↦ rw (whole, failed, socket_connect) (ground arith)
      | inr (fd, got) ↦ rw (whole, got, socket_connect) (connect_on-Leaves fd path t)
    ]
  ]

  datagram_send-Leaves :
      (path message : Option CString) (t : Trace)
      → let (code, t') = datagram_send host size path message t in
        Leaves k t t' 0 × LeavesPath host name t t' 0
  unfolding datagram_send
  datagram_send-Leaves none message t = (omega arith, omega arith)
  datagram_send-Leaves (some path) none t = (omega arith, omega arith)
  datagram_send-Leaves (some path) (some message) t = elim (build_address-cases size path) [
    | inr (_, refused) ↦ rw (refused, datagram_send) (omega arith, omega arith)
    | inl (_, whole) ↦ elim (Option-cases (host.socket datagram t)) [
      | inl failed ↦ rw (whole, failed, datagram_send) (omega arith, omega arith)
      | inr (fd, got) ↦ rw (whole, got, datagram_send) (send_on-Leaves fd path message t)
    ]
  ]

  destroyed-Leaves :
      (t : Trace) (s : Option UnixSocket) (t' : Trace)
      → LeavesSocket t (s, t')
      → LeavesSocket t (none, listener_destroy s t') × LeavesSocket t (none, datagram_destroy s t')
  unfolding listener_destroy datagram_destroy
  destroyed-Leaves t none t' kept = (kept, kept)
  destroyed-Leaves t (some s) t' kept = ground arith

-- Whatever the host answers, and for every descriptor and every path: a listener or a datagram
-- socket that is made keeps its own descriptor open and its own path bound and nothing else; one
-- that is not made keeps nothing; and destroying it closes and unlinks what it kept.
pub sockets-Leaves :
    (host : Host) (size : ℕ) (path : Option CString) (backlog : ℤ) (copied allocated : Bool)
    (t : Trace) (k : ℕ) (name : CString)
    → let listening = listener_create host size path backlog copied allocated t in
      let receiving = datagram_create host size path copied allocated t in
      (LeavesSocket host size k name t listening
        × LeavesSocket host size k name t (none, listener_destroy listening.0 listening.1))
      × (LeavesSocket host size k name t receiving
          × LeavesSocket host size k name t (none, datagram_destroy receiving.0 receiving.1))
sockets-Leaves host size path backlog copied allocated t k name =
    let l = listener_create-Leaves host size k name path backlog copied allocated t in
    let d = datagram_create-Leaves host size k name path copied allocated t in
    (
      (l, (destroyed-Leaves host size k name t _ _ l).0),
      (d, (destroyed-Leaves host size k name t _ _ d).1),
    )

-- Whatever the host answers: an accepted connection and a connection that is made stay open exactly
-- if their descriptor is returned, sending a datagram leaves no descriptor open, and none of the
-- three leaves a path bound.
pub connections-Leaves :
    (host : Host) (size : ℕ) (listener : Option UnixSocket) (path message : Option CString)
    (t : Trace) (k : ℕ) (name : CString)
    → LeavesFd host size k name t (listener_accept host size listener t)
      × LeavesFd host size k name t (socket_connect host size path t)
      × (let (code, t') = datagram_send host size path message t in
          Leaves k t t' 0 × LeavesPath host name t t' 0)
connections-Leaves host size listener path message t k name = (
  listener_accept-Leaves host size k name listener t,
  socket_connect-Leaves host size k name path t,
  datagram_send-Leaves host size k name path message t,
)
