-- ===== src/SocketPair.antt =====
-- src/socket_pair.c: the functions of `Descriptors.Ends` under the names of this file.
use embla.Prelude.{Bool, Option, ℤ}
use embla.Descriptors.{Trace, Host, socketpair}
use embla.Descriptors.Ends
use embla.Descriptors.Ends.{Ends}

abbrev pub SocketPair : Type 0
SocketPair = Ends

unfoldable pub create : Host → (type : ℤ) → (allocated : Bool) → Trace → Option SocketPair × Trace
create host type = Ends.create host (socketpair type)

unfoldable pub first_fd : Option SocketPair → ℤ
first_fd = Ends.get_first

unfoldable pub second_fd : Option SocketPair → ℤ
second_fd = Ends.get_second

unfoldable pub clear_cloexec_first : Host → Option SocketPair → Trace → ℤ × Trace
clear_cloexec_first = Ends.clear_cloexec_first

unfoldable pub clear_cloexec_second : Host → Option SocketPair → Trace → ℤ × Trace
clear_cloexec_second = Ends.clear_cloexec_second

unfoldable pub close_first : Option SocketPair → Trace → ℤ × Option SocketPair × Trace
close_first = Ends.close_first

unfoldable pub close_second : Option SocketPair → Trace → ℤ × Option SocketPair × Trace
close_second = Ends.close_second

unfoldable pub destroy : Option SocketPair → Trace → Trace
destroy = Ends.destroy
