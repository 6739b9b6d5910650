-- ===== src/Pipe.antt =====
-- src/pipe.c: the functions of `Descriptors.Ends` under the names of this file.
use embla.Prelude.{Bool, Option, ℤ}
use embla.Descriptors.{Trace, Host, pipe}
use embla.Descriptors.Ends
use embla.Descriptors.Ends.{Ends}

abbrev pub Pipe : Type 0
Pipe = Ends

unfoldable pub create : Host → (allocated : Bool) → Trace → Option Pipe × Trace
create host = Ends.create host pipe

unfoldable pub read_fd : Option Pipe → ℤ
read_fd = Ends.get_first

unfoldable pub write_fd : Option Pipe → ℤ
write_fd = Ends.get_second

unfoldable pub clear_cloexec_read : Host → Option Pipe → Trace → ℤ × Trace
clear_cloexec_read = Ends.clear_cloexec_first

unfoldable pub clear_cloexec_write : Host → Option Pipe → Trace → ℤ × Trace
clear_cloexec_write = Ends.clear_cloexec_second

unfoldable pub close_read : Option Pipe → Trace → ℤ × Option Pipe × Trace
close_read = Ends.close_first

unfoldable pub close_write : Option Pipe → Trace → ℤ × Option Pipe × Trace
close_write = Ends.close_second

unfoldable pub destroy : Option Pipe → Trace → Trace
destroy = Ends.destroy
