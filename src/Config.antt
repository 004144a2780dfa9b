-- ===== src/Config.antt =====
-- app/peer/src/endpoint_config.cpp and app/src/tunnel_config.cpp: what is read of a configuration
-- that the Lua engine (app/inc/lua_engine.hpp) has loaded. `std::strtol` and the cast of a double
-- to `long` are parameters; a double is named by its bits.
pub mod Peer
pub mod Listeners
use grace_server.Base.{
  ℕ, ◌-◌, ◌%◌, ◌^◌, Bool, true, false, ◌||◌, Option, none, some, List, [], ◌∷◌, ◌++◌, leb, ltb,
  if◌then◌else◌, Bytes, codes, equal,
}
use grace_server.Gnmi.{ℤ, pos, negsuc}
use grace_server.Gnmi.Json.{show_int}

-- `lua_file::value_type`. The numbers are 32 bits, of which `int_value` makes a signed number.
pub data Value : Type 0 where
  nil_value : Value
  string_value : Bytes → Value
  bool_value : Bool → Value
  uint_value int_value : ℕ → Value
  double_value : ℕ → Value

-- `lua_file::entry_type` and `table_type`; the members stand in the order of the `std::map`.
mutual
  pub data Entry : Type 0 where
    of_value : Value → Entry
    of_values : List Value → Entry
    of_table : Table → Entry
    of_tables : Tables → Entry

  pub data Table : Type 0 where
    no_members : Table
    member : Bytes → Entry → Table → Table

  pub data Tables : Type 0 where
    no_tables : Tables
    table : Table → Tables → Tables

-- `tls_config`.
pub record Tls : Type 0 where
  pub enabled : Bool
  pub cert_file : Bytes
  pub key_file : Bytes
  pub ca_file : Bytes

-- True and a value, or false and the text in `err`.
pub data Result {ℓ} (A : Type ℓ) : Type ℓ where
  ok : A → Result A
  err : Bytes → Result A

unfoldable pub find_member : Table → Bytes → Option Entry
find_member no_members key = none
find_member (member k e t) key = if equal k key then some e else find_member t key

unfoldable pub as_table : Option Entry → Option Table
as_table (some (of_table t)) = some t
as_table _ = none

unfoldable pub as_value : Option Entry → Option Value
as_value (some (of_value v)) = some v
as_value _ = none

unfoldable pub value_string : Option Value → Option Bytes
value_string (some (string_value s)) = some s
value_string _ = none

-- The number of a `std::int32_t` with these bits.
unfoldable pub signed : ℕ → ℤ
signed bits = let r = bits % 2 ^ 32 in if ltb r (2 ^ 31) then pos r else negsuc (2 ^ 32 - 1 - r)

-- `(std::int32_t)lua_tointeger(L, idx)`: the low 32 bits.
unfoldable pub lua_integer : ℤ → Value
lua_integer (pos n) = int_value (n % 2 ^ 32)
lua_integer (negsuc n) = int_value (2 ^ 32 - 1 - n % 2 ^ 32)

-- `double_to_long` is the cast.
unfoldable pub value_int : (ℕ → ℤ) → Option Value → Option ℤ
unfolding signed
value_int double_to_long (some (int_value bits)) = some (signed bits)
value_int double_to_long (some (uint_value bits)) = some (pos (bits % 2 ^ 32))
value_int double_to_long (some (double_value d)) = some (double_to_long d)
value_int double_to_long _ = none

abbrev bool_or : Bool → Option Value → Bool
bool_or old (some (bool_value b)) = b
bool_or old _ = old

abbrev string_or : Bytes → Option Bytes → Bytes
string_or old none = old
string_or old (some s) = s

-- `read_opt_string` and `opt_str`, on a field that holds `old`.
unfoldable pub read_opt_string : Table → Bytes → Bytes → Bytes
unfolding find_member as_value value_string
read_opt_string t key old = string_or old (value_string (as_value (find_member t key)))

unfoldable pub read_opt_bool : Table → Bytes → Bool → Bool
unfolding find_member as_value
read_opt_bool t key old = bool_or old (as_value (find_member t key))

-- A `tls_config` that no table has touched.
abbrev pub no_tls : Tls
no_tls = record { enabled = false; cert_file = []; key_file = []; ca_file = [] }

-- The optional table "tls" of both loaders.
unfoldable pub read_tls : Table → Tls
unfolding as_table find_member read_opt_bool read_opt_string
read_tls root = elim (as_table (find_member root (codes "tls"))) [
  | none ↦ no_tls
  | some t ↦ record {
    enabled = read_opt_bool t (codes "enabled") false;
    cert_file = read_opt_string t (codes "cert") [];
    key_file = read_opt_string t (codes "key") [];
    ca_file = read_opt_string t (codes "ca") [];
  }
]

-- `p > 0 && p <= 65535`, and the port.
unfoldable pub port_of : ℤ → Option ℕ
port_of (negsuc n) = none
port_of (pos n) = if ltb 0 n then (if leb n 65535 then some n else none) else none
