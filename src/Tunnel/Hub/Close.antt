-- ===== src/Tunnel/Hub/Close.antt =====
-- The end of a Register stream: its targets, and the bridges to them.
use mathlib.Core.List.{Perm}
use mathlib.Core.List.Perm
use grace_server.Base.{ℕ, Bool, false, ◌&&◌, ◌||◌, List, [], ◌∷◌, Bytes, equal, ◌==◌}
use grace_server.Base.Dict.{Dict}
use grace_server.Base.Keys.{num_key, bytes_key}
use grace_server.Tunnel.Hub.{Hub, Reg}

abbrev pub names_target : List Bytes → Bytes → Bool
names_target [] t = false
names_target (x ∷ gone) t = equal t x || names_target gone t

-- The stream has registered the target.
abbrev pub registers : ℕ → Dict Bytes Reg → Bytes → Bool
registers g [] target = false
registers g ((t, r) ∷ ts) target = r.grpc == g && equal target t || registers g ts target
