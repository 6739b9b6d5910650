-- ===== src/Notify/RoundTrip.antt =====
-- What a receiver reads from the messages that the senders write.
use embla.Prelude.{
  ℕ, ◌+◌, ◌≡◌, refl, sym, ap, ◌∙◌, inl, inr, true, false, Option, none, some, List, [], ◌∷◌, ◌++◌,
  append-nil, append_assoc, Bool-cases, ◌==◌, pos,
}
use embla.Process.{CString}
use embla.Service.{bytes_eq}
use embla.Notify.{
  codes, newline, ServiceNotification, blank, nonempty, tokens, apply_line, apply_lines, apply_pair,
  split_equals, parse, has_newline, notify_ready, notify_stopping, notify_status,
}

-- One call of a sender.
pub data Report : Type 0 where
  ready stopping : Report
  status : CString → Report

-- The message that a call sends, if its buffer can be allocated.
abbrev pub message : Report → Option CString
message ready = (notify_ready (pos 0)).1
message stopping = (notify_stopping (pos 0)).1
message (status text) = (notify_status (some text) true (pos 0)).1

abbrev join : Option CString → Option CString → Option CString
join none later = none
join (some this) none = none
join (some this) (some later) = some (this ++ later)

-- The messages of several calls one behind the other, if all are sent.
unfoldable pub messages : List Report → Option CString
messages [] = some []
messages (report ∷ reports) = join (message report) (messages reports)

-- What a call is meant to tell.
abbrev pub tell : Report → ServiceNotification → ServiceNotification
tell ready n = record n { ready = true }
tell stopping n = record n { stopping = true }
tell (status text) n = record n { status = some text }

abbrev pub tell_all : List Report → ServiceNotification → ServiceNotification
tell_all [] n = n
tell_all (report ∷ reports) n = tell_all reports (tell report n)

-- A line behind which a newline stands is a token, with what was read of it before.
tokens-line :
    (line current rest : CString)
    → has_newline line ≡ false
    → tokens current (line ++ newline ∷ rest) ≡ nonempty (current ++ line) (tokens [] rest)
unfolding tokens
tokens-line [] current rest free = ap (λ c. nonempty c (tokens [] rest)) (sym (append-nil current))
tokens-line (c ∷ line) current rest free = elim (Bool-cases (c == newline)) [
  | inl ends ↦ absurd (ends_here c line ends free)
  | inr goes ↦ rw goes (
      tokens-line line (current ++ c ∷ []) rest (rw goes at free)
      ∙ ap (λ l. nonempty l (tokens [] rest)) (append_assoc current (c ∷ []) line))
]
  where
    ends_here :
        (c : ℕ) (line : CString) → (c == newline) ≡ true → has_newline (c ∷ line) ≡ false → ⊥
    ends_here c line ends free = cc (rw ends at free)

-- The line that a call writes, without its newline.
abbrev line : Report → CString
line ready = codes "READY=1"
line stopping = codes "STOPPING=1"
line (status text) = codes "STATUS=" ++ text

-- A call that is not refused writes its line and a newline, and the line holds none.
IsLine : Report → CString → Type 0
IsLine report m = (m ≡ line report ++ newline ∷ []) × (has_newline (line report) ≡ false)

message-IsLine : (report : Report) (m : CString) → message report ≡ some m → IsLine report m
unfolding notify_ready notify_stopping notify_status IsLine
message-IsLine ready m e = (cc e, refl)
message-IsLine stopping m e = (cc e, refl)
message-IsLine (status text) m e = elim (Bool-cases (has_newline text)) [
  | inl broken ↦ absurd (cc (rw (broken, message) at e))
  | inr whole ↦ (cc (rw (whole, message) at e), whole)
]

-- The parser understands each line.
apply_line-line :
    (report : Report) (n : ServiceNotification) → apply_line true n (line report) ≡ tell report n
unfolding apply_line split_equals apply_pair bytes_eq
apply_line-line ready n = refl
apply_line-line stopping n = refl
apply_line-line (status text) n = refl

line-nonempty :
    (report : Report) (rest : List CString) → nonempty (line report) rest ≡ line report ∷ rest
line-nonempty ready rest = refl
line-nonempty stopping rest = refl
line-nonempty (status text) rest = refl

tokens-message :
    (report : Report) (m rest : CString)
    → IsLine report m
    → tokens [] (m ++ rest) ≡ line report ∷ tokens [] rest
unfolding IsLine
tokens-message report m rest (e, whole) =
    ap (λ a. tokens [] (a ++ rest)) e
    ∙ ap (tokens []) (append_assoc (line report) (newline ∷ []) rest)
    ∙ tokens-line (line report) [] rest whole
    ∙ line-nonempty report (tokens [] rest)

join-some :
    (a b : Option CString) (m : CString)
    → join a b ≡ some m
    → (x : CString) × (y : CString) × (a ≡ some x) × (b ≡ some y) × (m ≡ x ++ y)
join-some none b m e = absurd (cc e)
join-some (some x) none m e = absurd (cc e)
join-some (some x) (some y) m e = (x, y, refl, refl, cc e)

apply_lines-messages :
    (reports : List Report) (i : ℕ) (n : ServiceNotification) (m : CString)
    → messages reports ≡ some m
    → apply_lines (λ _. true) i n (tokens [] m) ≡ tell_all reports n
unfolding messages apply_lines tokens
apply_lines-messages [] i n m e = let none_left : m ≡ [] = cc e in rw none_left refl
apply_lines-messages (report ∷ reports) i n m e =
    let (x, y, this, later, parts) = join-some (message report) (messages reports) m e in
    let cut = tokens-message report x y (message-IsLine report x this) in
    ap (λ a. apply_lines (λ _. true) i n (tokens [] a)) parts
    ∙ ap (apply_lines (λ _. true) i n) cut
    ∙ ap (λ k. apply_lines (λ _. true) (i + 1) k (tokens [] y)) (apply_line-line report n)
    ∙ apply_lines-messages reports (i + 1) (tell report n) y later

-- If none of a sequence of notifications is refused, and the parser can allocate the notification,
-- its working copy and every status, what it reads from their messages one behind the other is what
-- the calls tell: READY and STOPPING as soon as one call says so, and the last status.
pub parse-messages :
    (reports : List Report) (m : CString)
    → messages reports ≡ some m
    → parse (some m) true true (λ _. true) ≡ some (tell_all reports blank)
unfolding parse
parse-messages reports m e = ap some (apply_lines-messages reports 0 blank m e)
