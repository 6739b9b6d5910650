-- ===== src/Notify/Tests.antt =====
-- Messages that a service sends and what is read from them.
use embla.Prelude.{◌≡◌, refl, true, false, some, none, [], ◌∷◌, List, ◌++◌}
use embla.Process.{CString}
use embla.Notify.{
  codes, newline, blank, parse, notify_ready, notify_status, apply_lines, apply_line, tokens,
  split_equals, apply_pair,
}
use embla.Notify.RoundTrip.{Report, ready, status, messages, tell_all, parse-messages}
use embla.Service.{bytes_eq}

abbrev reports : List Report
reports = status (codes "a=b") ∷ ready ∷ []

abbrev sent : CString
sent = (codes "STATUS=" ++ codes "a=b" ++ newline ∷ []) ++ (codes "READY=1\n" ++ [])

parse-messages_example : parse (some sent) true true (λ _. true) ≡ some (tell_all reports blank)
unfolding messages notify_ready notify_status
parse-messages_example = parse-messages reports sent refl

-- Empty lines and unknown keys are passed over; a READY other than 1 says nothing.
unknown_lines :
    parse (some (codes "\n\nREADY=0\nX=1\nSTOPPING=1")) true true (λ _. true)
    ≡ some (record { ready = false; stopping = true; status = none })
unfolding parse apply_lines apply_line tokens split_equals apply_pair bytes_eq
unknown_lines = refl
