-- ===== src/Descriptors.antt =====
-- Descriptors as src/pipe.c, src/socket_pair.c and src/unix_socket.c handle them: the calls that a
-- function makes are written down, the newest first. What the host answers may depend on the calls
-- before. The three files set and clear FD_CLOEXEC by the same code. Descriptors from the host are
-- numbers, so they are never -1.
pub mod Balance
pub mod Ends
pub mod CloseOnExec
use embla.Prelude.{
  ℕ, ◌+◌, ◌*◌, ◌/◌, Bool, Option, none, some, List, [], ◌∷◌, ℤ, pos, negsuc, success, failure,
  eqb_ℤ, if◌then◌else◌,
}
use embla.Process.{CString}

pub data Call : Type 0 where
  opened : ℕ → Call
  closed : ℤ → Call
  get_flags : ℤ → Call
  set_flags : ℤ → ℕ → Call
  bind connect : ℤ → CString → Call
  listen : ℤ → (backlog : ℤ) → Call
  unlink : CString → Call
  send : ℤ → (path message : CString) → Call

abbrev pub Trace : Type 0
Trace = List Call

-- How a pair of descriptors is made: by `pipe`, or by `socketpair` with a type.
pub data Kind : Type 0 where
  pipe : Kind
  socketpair : (type : ℤ) → Kind

pub data SocketType : Type 0 where
  stream datagram : SocketType

-- What the calls of a name give; `sendto` the number of bytes sent; `flags` is what F_GETFD gives, if it succeeds.
pub record Host : Type 0 where
  pub pair : Kind → Trace → Option (ℕ × ℕ)
  pub socket : SocketType → Trace → Option ℕ
  pub accept : ℤ → Trace → Option ℕ
  pub sendto : ℤ → Trace → Option ℕ
  pub flags : Trace → ℤ → Option ℕ
  pub succeeds : Trace → Call → Bool

-- PIPE_CLOSED_FD and SOCKET_PAIR_CLOSED_FD.
abbrev pub closed_fd : ℤ
closed_fd = negsuc 0

-- `flags | FD_CLOEXEC` and `flags & ~FD_CLOEXEC`; FD_CLOEXEC is 1.
abbrev pub with_cloexec : ℕ → ℕ
with_cloexec flags = 2 * (flags / 2) + 1

abbrev pub without_cloexec : ℕ → ℕ
without_cloexec flags = 2 * (flags / 2)

module _ (host : Host) where
  -- A call that only succeeds or fails.
  unfoldable pub request : Call → Trace → ℤ × Trace
  request call t = (if host.succeeds t call then success else failure, call ∷ t)

  unfoldable pub set_cloexec : ℤ → Trace → ℤ × Trace
  unfolding request
  set_cloexec fd t = elim (host.flags t fd) [
    | none ↦ (failure, get_flags fd ∷ t)
    | some flags ↦ request (set_flags fd (with_cloexec flags)) (get_flags fd ∷ t)
  ]

  unfoldable pub clear_cloexec : ℤ → Trace → ℤ × Trace
  unfolding request
  clear_cloexec fd t = elim (host.flags t fd) [
    | none ↦ (failure, get_flags fd ∷ t)
    | some flags ↦ request (set_flags fd (without_cloexec flags)) (get_flags fd ∷ t)
  ]
