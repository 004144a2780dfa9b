-- ===== src/Config/Listeners.antt =====
-- `load_tunnel_config` of app/src/tunnel_config.cpp.
pub mod Ports
use grace_server.Base.{
  ℕ, Option, none, some, List, [], ◌∷◌, ◌++◌, if◌then◌else◌, Bytes, codes, is_empty,
}
use grace_server.Gnmi.{ℤ}
use grace_server.Config.{
  Entry, Table, no_members, member, Tls, Result, ok, err, find_member, as_table, as_value,
  value_string, value_int, read_tls, port_of,
}

-- `tunnel_listener_cfg`.
pub record Listener : Type 0 where
  pub port : ℕ
  pub target : Bytes

pub record TunnelConfig : Type 0 where
  pub port : ℕ
  pub tls : Tls
  pub listeners : List Listener

abbrev pub or_empty : Option Bytes → Bytes
or_empty none = []
or_empty (some s) = s

abbrev pub consed : Listener → Result (List Listener) → Result (List Listener)
consed l (ok ls) = ok (l ∷ ls)
consed l (err e) = err e

abbrev port_or : ℕ → Option ℕ → ℕ
port_or old none = old
port_or old (some p) = p

module _ (strtol : Bytes → ℤ) where
  -- The loop over the members of "listeners".
  unfoldable pub read_listeners : Table → Result (List Listener)
  unfolding port_of as_value value_string
  read_listeners no_members = ok []
  read_listeners (member key e t) =
      let rest = read_listeners t in
      let target = or_empty (value_string (as_value (some e))) in
      elim (port_of (strtol key)) [
        | none ↦ err (codes "listener port key invalid: '" ++ key ++ codes "'")
        | some p ↦
            if is_empty target
            then err (codes "listener '" ++ key ++ codes "' has no target string")
            else consed (record { port = p; target = target }) rest
      ]

  module _ (double_to_long : ℕ → ℤ) where
    abbrev port_of_value : Option ℤ → Option ℕ
    port_of_value none = none
    port_of_value (some i) = port_of i

    -- The optional member "port".
    unfoldable pub read_port : Table → ℕ
    unfolding port_of find_member as_value value_int
    read_port root =
        port_or 58989
          (port_of_value (value_int double_to_long (as_value (find_member root (codes "port")))))

    unfoldable pub load_tunnel_config : Bytes → Option Table → Result TunnelConfig
    unfolding read_port read_tls read_listeners as_table find_member
    load_tunnel_config path none = err (codes "failed to load Lua config: " ++ path)
    load_tunnel_config path (some root) = elim (as_table (find_member root (codes "listeners"))) [
      | none ↦ ok (record { port = read_port root; tls = read_tls root; listeners = [] })
      | some t ↦ elim (read_listeners t) [
        | err e ↦ err e
        | ok ls ↦ ok (record { port = read_port root; tls = read_tls root; listeners = ls })
      ]
    ]
