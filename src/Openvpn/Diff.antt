-- ===== src/Openvpn/Diff.antt =====
-- `routing_table_diff` of app/openvpn/inc/openvpn_parse.hpp, which the unit tests run in place of
-- `parse_mgmt_line`.
pub mod Effects
pub mod Agreement
use grace_server.Base.{
  Bool, true, false, not, ◌||◌, List, [], ◌∷◌, if◌then◌else◌, Bytes, codes, equal, is_empty,
  starts_with,
}
use grace_server.Openvpn.Parse.{parse_routing_row}
use grace_server.Openvpn.Mgmt.{member, set_add}

pub record Diff : Type 0 where
  pub in_table : Bool
  pub polled : List Bytes
  pub active : List Bytes

pub record Result : Type 0 where
  pub connected : List Bytes
  pub disconnected : List Bytes

abbrev pub nothing : Result
nothing = record { connected = []; disconnected = [] }

-- The loop over one set for those that the other lacks.
unfoldable pub missing : List Bytes → List Bytes → List Bytes
missing known [] = []
missing known (v ∷ vs) =
    let rest = missing known vs in if not (member v known) then v ∷ rest else rest

unfoldable pub close_table : Diff → Diff × Result
unfolding missing
close_table d =
    if d.in_table
    then (
      record d { in_table = false; active = d.polled },
      record { connected = missing d.active d.polled; disconnected = missing d.polled d.active },
    )
    else (d, nothing)

unfoldable pub feed_row : Diff → Bytes → Diff
unfolding set_add
feed_row d line =
    let vip = parse_routing_row line in
    if is_empty vip then d else record d { polled = set_add vip d.polled }

unfoldable pub feed : Diff → Bytes → Diff × Result
unfolding close_table feed_row
feed d line =
    if starts_with line (codes ">LOG:")
    then (d, nothing)
    else if equal line (codes "ROUTING TABLE")
    then (record d { in_table = true; polled = [] }, nothing)
    else if equal line (codes "GLOBAL STATS") || equal line (codes "END")
    then close_table d
    else if d.in_table
    then (feed_row d line, nothing)
    else (d, nothing)
