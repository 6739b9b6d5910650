-- ===== src/Notify.antt =====
-- src/service_notify.c: the messages by which a service reports its state, and their parser. The
-- message is a string of bytes without NUL; `unix_datagram_socket_send` is the host's, and what it
-- returns is an argument. `strchr`, `strcmp` and `strtok_r` are those of the C library.
pub mod RoundTrip
mod Tests
use Prim.Native.Char.{code}
use Prim.Native.String.{String}
use embla.Prelude.{
  ℕ, zero, suc, ◌+◌, Bool, true, false, Option, none, some, List, [], ◌∷◌, ◌++◌, ℤ, failure, ◌==◌,
  if◌then◌else◌,
}
use embla.Process.{CString}
use embla.Service.{bytes_eq}

-- The bytes of an ASCII literal.
abbrev pub codes : String → CString
codes String.[] = []
codes (String.◌∷◌ c s) = code c ∷ codes s

abbrev pub newline : ℕ
newline = 10

abbrev pub equals : ℕ
equals = 61

pub record ServiceNotification : Type 0 where
  pub ready : Bool
  pub stopping : Bool
  pub status : Option CString

-- The notification that `calloc` gives.
abbrev pub blank : ServiceNotification
blank = record { ready = false; stopping = false; status = none }

-- `strchr(line, '=')`: what stands before the first `=` and behind it, if there is one.
unfoldable pub split_equals : CString → Option (CString × CString)
split_equals [] = none
split_equals (c ∷ cs) =
    let rest : Option (CString × CString) = elim (split_equals cs) [
      | none ↦ none
      | some (key, value) ↦ some (c ∷ key, value)
    ] in
    if c == equals then some ([], cs) else rest

-- The `if` over the keys. `copied` is whether the copy of a status can be allocated.
unfoldable pub apply_pair :
    (copied : Bool) → ServiceNotification → (key value : CString) → ServiceNotification
apply_pair copied n key value =
    if bytes_eq key (codes "READY")
    then (if bytes_eq value (codes "1") then record n { ready = true } else n)
    else if bytes_eq key (codes "STOPPING")
    then (if bytes_eq value (codes "1") then record n { stopping = true } else n)
    else if bytes_eq key (codes "STATUS")
    then record n { status = if copied then some value else none }
    else n

unfoldable pub apply_line :
    (copied : Bool) → ServiceNotification → (line : CString) → ServiceNotification
unfolding split_equals apply_pair
apply_line copied n line = elim (split_equals line) [
  | none ↦ n
  | some (key, value) ↦ apply_pair copied n key value
]

abbrev nonempty : CString → List CString → List CString
nonempty [] lines = lines
nonempty (c ∷ cs) lines = (c ∷ cs) ∷ lines

-- The tokens that `strtok_r(…, "\n", …)` gives, with the bytes of the current one read so far.
unfoldable pub tokens : (current : CString) → CString → List CString
tokens current [] = nonempty current []
tokens current (c ∷ cs) =
    let line = nonempty current (tokens [] cs) in
    let more = tokens (current ++ c ∷ []) cs in if c == newline then line else more

-- The loop over the lines; line `i` can copy a status if `copies i`.
unfoldable pub apply_lines :
    (copies : ℕ → Bool) → (i : ℕ) → ServiceNotification → List CString → ServiceNotification
apply_lines copies i n [] = n
apply_lines copies i n (line ∷ lines) =
    apply_lines copies (i + 1) (apply_line (copies i) n line) lines

-- `allocated` and `duplicated` are whether the notification and the working copy can be allocated.
unfoldable pub parse :
    Option CString
    → (allocated duplicated : Bool) → (copies : ℕ → Bool) → Option ServiceNotification
parse none allocated duplicated copies = none
parse (some message) allocated duplicated copies =
    if allocated
    then (if duplicated then some (apply_lines copies 0 blank (tokens [] message)) else none)
    else none

-- The getters; a NULL notification is `none`.
unfoldable pub is_ready : Option ServiceNotification → Bool
is_ready n = elim n [ none ↦ false | some n ↦ n.ready ]

unfoldable pub is_stopping : Option ServiceNotification → Bool
is_stopping n = elim n [ none ↦ false | some n ↦ n.stopping ]

unfoldable pub get_status : Option ServiceNotification → Option CString
get_status n = elim n [ none ↦ none | some n ↦ n.status ]

-- A sender's result, and the message that goes out, if one does. `sent` is the code of the send.
unfoldable pub notify_ready : (sent : ℤ) → ℤ × Option CString
notify_ready sent = (sent, some (codes "READY=1\n"))

unfoldable pub notify_stopping : (sent : ℤ) → ℤ × Option CString
notify_stopping sent = (sent, some (codes "STOPPING=1\n"))

abbrev pub has_newline : CString → Bool
has_newline [] = false
has_newline (c ∷ cs) = if c == newline then true else has_newline cs

-- `allocated` is whether the message buffer can be allocated.
unfoldable pub notify_status : Option CString → (allocated : Bool) → (sent : ℤ) → ℤ × Option CString
notify_status none allocated sent = (failure, none)
notify_status (some status) allocated sent =
    if has_newline status
    then (failure, none)
    else if allocated
    then (sent, some (codes "STATUS=" ++ status ++ newline ∷ []))
    else (failure, none)
