-- ===== src/Service/Unary/Authority.antt =====
-- Who may set, and what the observers hear of it.
use grace_server.Base.{ℕ, zero, suc, List, [], ◌∷◌, ◌++◌, ◌==◌, if◌then◌else◌, Bytes}
use grace_server.Gnmi.SubHub as SubHub
use grace_server.Service.{Effect, print, complain, observe}
use grace_server.Service as Service

-- A line for the log; nothing that an observer or a peer sees.
abbrev pub IsLog : Effect → Type 0
IsLog (print line) = Unit
IsLog (complain line) = Unit
IsLog _ = ⊥

-- The lines that one observer gets.
abbrev pub heard : ℕ → List Effect → List Bytes
heard cb [] = []
heard cb (observe cb' line ∷ es) = if cb' == cb then line ∷ heard cb es else heard cb es
heard cb (_ ∷ es) = heard cb es

-- How often an observer is registered.
abbrev pub registrations : ℕ → List ℕ → ℕ
registrations cb [] = 0
registrations cb (c ∷ cs) = if c == cb then suc (registrations cb cs) else registrations cb cs

abbrev pub copies : ℕ → Bytes → List Bytes
copies zero line = []
copies (suc n) line = line ∷ copies n line

-- Each line, as often as that.
abbrev pub repeated : ℕ → List Bytes → List Bytes
repeated n [] = []
repeated n (line ∷ lines) = copies n line ++ repeated n lines
