-- ===== src/Config/Peer.antt =====
-- `load_peer_config` and `resolve_endpoint` of app/peer/src/endpoint_config.cpp.
pub mod Forms
use grace_server.Base.{
  ℕ, Bool, true, false, Option, none, some, List, [], ◌∷◌, ◌++◌, ◌||◌, ◌==◌, if◌then◌else◌, Bytes,
  codes, is_empty, split_last,
}
use grace_server.Gnmi.{ℤ}
use grace_server.Gnmi.Json.{show_int}
use grace_server.Config.{
  Value, Entry, of_value, of_values, of_table, of_tables, Table, Tls, Result, ok, err, find_member,
  as_table, as_value, value_string, value_int, read_opt_string, read_tls, port_of,
}

pub record Endpoint : Type 0 where
  pub host : Bytes
  pub port : ℕ

-- `palette_config`.
pub record Palette : Type 0 where
  pub remote : Bytes
  pub ok_colour : Bytes
  pub error_colour : Bytes
  pub echo : Bytes

pub record PeerConfig : Type 0 where
  pub local : Endpoint
  pub remote : Endpoint
  pub tls : Tls
  pub colors : Palette

abbrev default_palette : Palette
default_palette = record {
  remote = codes "cyan";
  ok_colour = codes "green";
  error_colour = codes "amber";
  echo = codes "dim";
}

-- The endpoint, with a port that `port_from_long` accepts.
unfoldable pub port_from_long : Bytes → ℤ → Bytes → Result Endpoint
unfolding port_of
port_from_long host p who = elim (port_of p) [
  | none ↦ err (who ++ codes ".endpoint port out of range: " ++ show_int p)
  | some port ↦ ok (record { host = host; port = port })
]

module _ (strtol : Bytes → ℤ) (double_to_long : ℕ → ℤ) where
  -- The form "host:port".
  unfoldable pub resolve_text : Bytes → Bytes → Result Endpoint
  unfolding port_from_long
  resolve_text s who =
      let refused : Result Endpoint = err (who ++ codes ".endpoint must be \"host:port\": " ++ s) in
      elim (split_last (λ c. c == b':') s) [
        | none ↦ refused
        | some (host, port) ↦
            if is_empty host || is_empty port
            then refused
            else port_from_long host (strtol port) who
      ]

  -- The form { ip = ..., port = ... }.
  unfoldable pub resolve_table : Table → Bytes → Result Endpoint
  unfolding find_member as_value value_string value_int port_from_long
  resolve_table t who = elim (value_string (as_value (find_member t (codes "ip")))) [
    | none ↦ err (who ++ codes ".endpoint.ip missing or not a string")
    | some ip ↦ elim (value_int double_to_long (as_value (find_member t (codes "port")))) [
      | none ↦ err (who ++ codes ".endpoint.port missing or not a number")
      | some port ↦ port_from_long ip port who
    ]
  ]

  -- `resolve_endpoint`, on the member found.
  unfoldable pub resolve_entry : Option Entry → Bytes → Result Endpoint
  unfolding resolve_text resolve_table
  resolve_entry none who = err (who ++ codes ".endpoint is missing")
  resolve_entry (some (of_value v)) who = elim (value_string (some v)) [
    | none ↦ err (who ++ codes ".endpoint must be a string or table")
    | some s ↦ resolve_text s who
  ]
  resolve_entry (some (of_table t)) who = resolve_table t who
  resolve_entry (some (of_values vs)) who = err (who ++ codes ".endpoint has an unexpected type")
  resolve_entry (some (of_tables ts)) who = err (who ++ codes ".endpoint has an unexpected type")

  unfoldable pub resolve_endpoint : Table → Bytes → Result Endpoint
  unfolding find_member resolve_entry
  resolve_endpoint side who = resolve_entry (find_member side (codes "endpoint")) who

  -- The side `who` of the configuration.
  unfoldable pub resolve_side : Table → Bytes → Result Endpoint
  unfolding as_table find_member resolve_endpoint
  resolve_side root who = elim (as_table (find_member root who)) [
    | none ↦ err (
        codes "[\""
        ++ who
        ++ codes "\"] table missing (use [\""
        ++ who
        ++ codes "\"] = { endpoint = ... })")
    | some t ↦ resolve_endpoint t who
  ]

  unfoldable pub read_colors : Table → Palette
  unfolding as_table find_member read_opt_string
  read_colors root = elim (as_table (find_member root (codes "colors"))) [
    | none ↦ default_palette
    | some t ↦ record {
      remote = read_opt_string t (codes "remote") (codes "cyan");
      ok_colour = read_opt_string t (codes "ok") (codes "green");
      error_colour = read_opt_string t (codes "error") (codes "amber");
      echo = read_opt_string t (codes "echo") (codes "dim");
    }
  ]

  -- `loaded` is the root table, if the engine could load the file. `out` starts from its defaults.
  unfoldable pub load_peer_config : Bytes → Option Table → Result PeerConfig
  unfolding resolve_side read_colors read_tls
  load_peer_config path none = err (codes "failed to load Lua config: " ++ path)
  load_peer_config path (some root) = elim (resolve_side root (codes "local")) [
    | err e ↦ err e
    | ok here ↦ elim (resolve_side root (codes "remote")) [
      | err e ↦ err e
      | ok there ↦
          ok (record {
            local = here;
            remote = there;
            tls = read_tls root;
            colors = read_colors root;
          })
    ]
  ]
