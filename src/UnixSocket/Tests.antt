-- ===== src/UnixSocket/Tests.antt =====
-- A host that grants everything, on which a pipe and sockets are used.
use embla.Prelude.{true, false, Bool, none, some, List, [], ◌∷◌, pos}
use embla.Process.{CString}
use embla.Descriptors.{Host, pipe, Call, listen}
use embla.Descriptors.Balance.{Leaves, LeavesPath}
use embla.Descriptors.Ends.{Ends, create, destroy}
use embla.Descriptors.Ends.Life.{Use, closing_first, clearing_second, apply_all, holds, life-Leaves}
use embla.UnixSocket.{
  UnixSocket, listener_create, listener_accept, socket_connect, datagram_create, datagram_send,
  listener_destroy, datagram_destroy,
}
use embla.UnixSocket.Balance.{LeavesSocket, LeavesFd, sockets-Leaves, connections-Leaves}
use embla.UnixSocket.Inherited.{Marks, MarksSocket, results-Marks}

abbrev granting : Host
granting = record {
  pair = λ kind t. some (5, 6);
  socket = λ type t. some 7;
  accept = λ fd t. some 8;
  sendto = λ fd t. some 2;
  flags = λ t fd. some 0;
  succeeds = λ t call. true;
}

-- The first end is closed twice.
abbrev uses : List Use
uses = closing_first ∷ clearing_second ∷ closing_first ∷ []

life-Leaves_example :
    let (p, t) = apply_all granting uses (create granting pipe true []) in
    Leaves 5 [] t (holds 5 p) × Leaves 5 [] (destroy p t) 0
life-Leaves_example = life-Leaves granting pipe true uses [] 5

abbrev both : Ends
both = record { first_fd = pos 5; second_fd = pos 6 }

abbrev path : CString
path = 47 ∷ 115 ∷ []

-- A host on which nobody can listen.
abbrev permits : Call → Bool
permits (listen fd backlog) = false
permits _ = true

abbrev deaf : Host
deaf = record granting { succeeds = λ t call. permits call }

sockets-Leaves_example :
    let listening = listener_create deaf 108 (some path) (pos 4) true true [] in
    let receiving = datagram_create deaf 108 (some path) true true [] in
    (LeavesSocket deaf 108 7 path [] listening
      × LeavesSocket deaf 108 7 path [] (none, listener_destroy listening.0 listening.1))
    × (LeavesSocket deaf 108 7 path [] receiving
        × LeavesSocket deaf 108 7 path [] (none, datagram_destroy receiving.0 receiving.1))
sockets-Leaves_example = sockets-Leaves deaf 108 (some path) (pos 4) true true [] 7 path

abbrev listener : UnixSocket
listener = record { fd = pos 7; path = path }

connections-Leaves_example :
    LeavesFd granting 108 8 path [] (listener_accept granting 108 (some listener) [])
    × LeavesFd granting 108 8 path [] (socket_connect granting 108 (some path) [])
    × (let (code, t') = datagram_send granting 108 (some path) (some path) [] in
        Leaves 8 [] t' 0 × LeavesPath granting path [] t' 0)
connections-Leaves_example =
    connections-Leaves granting 108 (some listener) (some path) (some path) [] 8 path

results-Marks_example :
    Marks granting 108 7 (listener_accept granting 108 (some listener) [])
    × Marks granting 108 7 (socket_connect granting 108 (some path) [])
    × MarksSocket granting 108 7 (listener_create granting 108 (some path) (pos 4) true true [])
    × MarksSocket granting 108 7 (datagram_create granting 108 (some path) true true [])
results-Marks_example =
    results-Marks granting 108 (some listener) (some path) (pos 4) true true [] 7
