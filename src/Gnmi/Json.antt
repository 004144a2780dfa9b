-- ===== src/Gnmi/Json.antt =====
-- app/inc/gnmi_util.hpp: typed values, and the JSON that the displays show. The text of a double is
-- `std::to_string`'s, and a parameter.
pub mod Escape
use grace_server.Base.{
  ℕ, ◌+◌, ◌/◌, ◌%◌, Bool, true, false, not, ◌&&◌, ◌||◌, Option, none, some, List, [], ◌∷◌, ◌++◌,
  map, ltb, ◌-◌, ◌==◌, if◌then◌else◌, Bytes, codes, is_empty, equal, to_string,
}
use grace_server.Gnmi.{
  ℤ, pos, negsuc, GnmiPath, TypedValue, string_val, int_val, uint_val, bool_val, double_val,
  json_val, json_ietf_val, ascii_val, other_val, Update, Notification, SubscribeResponse, update,
  sync_response, error, not_set,
}
use grace_server.Gnmi.Paths.{path_to_string}

-- The first byte is '{' or '['.
unfoldable pub looks_json : Bytes → Bool
looks_json [] = false
looks_json (x ∷ xs) = x == b'{' || x == b'['

unfoldable pub set_typed_value : Bytes → Bytes → TypedValue
unfolding looks_json
set_typed_value value_str enc =
    if equal enc (codes "JSON_IETF")
    then json_ietf_val value_str
    else if equal enc (codes "JSON") || looks_json value_str
    then json_val value_str
    else string_val value_str

unfoldable pub show_int : ℤ → Bytes
show_int (pos n) = to_string n
show_int (negsuc n) = b'-' ∷ to_string (n + 1)

unfoldable pub show_bool : Bool → Bytes
show_bool true = codes "true"
show_bool false = codes "false"

-- A digit of "%04x".
unfoldable pub hex_digit : ℕ → ℕ
hex_digit d = if ltb d 10 then b'0' + d else b'a' + d - 10

-- One byte of a JSON string.
unfoldable pub escape_byte : ℕ → Bytes
unfolding hex_digit
escape_byte c =
    if c == b'"'
    then b'\\' ∷ b'"' ∷ []
    else if c == b'\\'
    then b'\\' ∷ b'\\' ∷ []
    else if c == 10
    then b'\\' ∷ b'n' ∷ []
    else if c == 13
    then b'\\' ∷ b'r' ∷ []
    else if c == 9
    then b'\\' ∷ b't' ∷ []
    else if ltb c 0x20
    then b'\\' ∷ b'u' ∷ b'0' ∷ b'0' ∷ hex_digit (c / 16) ∷ hex_digit (c % 16) ∷ []
    else c ∷ []

unfoldable pub json_escape : Bytes → Bytes
unfolding escape_byte
json_escape [] = []
json_escape (c ∷ s) = escape_byte c ++ json_escape s

unfoldable pub quote : Bytes → Bytes
unfolding json_escape
quote s = b'"' ∷ (json_escape s ++ b'"' ∷ [])

unfoldable pub or_null : Bytes → Bytes
or_null s = if is_empty s then codes "null" else s

-- The items of a list, with commas between them.
unfoldable pub comma_all : List Bytes → Bytes
comma_all [] = []
comma_all (x ∷ []) = x
comma_all (x ∷ y ∷ ys) = x ++ codes "," ++ comma_all (y ∷ ys)

-- `s += ",\"prefix\":..."`, unless the prefix is empty.
unfoldable pub prefix_field : GnmiPath → Bytes
unfolding quote
prefix_field p =
    if equal (path_to_string p) (codes "/")
    then []
    else codes ",\"prefix\":" ++ quote (path_to_string p)

unfoldable pub delete_field : List GnmiPath → Bytes
unfolding comma_all quote
delete_field [] = []
delete_field (d ∷ ds) =
    codes ",\"delete\":[" ++ comma_all (map (λ p. quote (path_to_string p)) (d ∷ ds)) ++ codes "]"

module _ (show_double : ℕ → Bytes) where
  unfoldable pub typed_value_to_string : TypedValue → Bytes
  unfolding show_int show_bool
  typed_value_to_string (string_val s) = s
  typed_value_to_string (int_val i) = show_int i
  typed_value_to_string (uint_val n) = to_string n
  typed_value_to_string (bool_val b) = show_bool b
  typed_value_to_string (double_val d) = show_double d
  typed_value_to_string (json_val s) = s
  typed_value_to_string (json_ietf_val s) = s
  typed_value_to_string (ascii_val s) = s
  typed_value_to_string other_val = codes "<value>"

  unfoldable pub typed_value_to_json : TypedValue → Bytes
  unfolding show_int show_bool quote or_null
  typed_value_to_json (string_val s) = quote s
  typed_value_to_json (int_val i) = show_int i
  typed_value_to_json (uint_val n) = to_string n
  typed_value_to_json (bool_val b) = show_bool b
  typed_value_to_json (double_val d) = show_double d
  typed_value_to_json (json_val s) = or_null s
  typed_value_to_json (json_ietf_val s) = or_null s
  typed_value_to_json (ascii_val s) = quote s
  typed_value_to_json other_val = codes "null"

  unfoldable pub update_to_json : Update → Bytes
  unfolding quote typed_value_to_json
  update_to_json u =
      codes "{\"path\":"
      ++ quote (path_to_string u.path)
      ++ codes ",\"val\":"
      ++ typed_value_to_json u.val
      ++ codes "}"

  unfoldable pub val_field : Option TypedValue → Bytes
  unfolding typed_value_to_json
  val_field none = []
  val_field (some v) = codes ",\"val\":" ++ typed_value_to_json v

  unfoldable pub op_to_json : Bytes → GnmiPath → Option TypedValue → Bytes
  unfolding quote val_field
  op_to_json op path val =
      codes "{\"op\":\""
      ++ op
      ++ codes "\",\"path\":"
      ++ quote (path_to_string path)
      ++ val_field val
      ++ codes "}"

  unfoldable pub notification_to_json : Notification → Bytes
  unfolding show_int prefix_field comma_all delete_field update_to_json
  notification_to_json n =
      codes "{\"timestamp\":"
      ++ show_int n.timestamp
      ++ prefix_field n.prefix
      ++ codes ",\"update\":["
      ++ comma_all (map update_to_json n.updates)
      ++ codes "]"
      ++ delete_field n.deletes
      ++ codes "}"

  unfoldable pub subscribe_response_to_json : SubscribeResponse → Bytes
  unfolding notification_to_json show_bool quote
  subscribe_response_to_json (update n) =
      codes "{\"update\":" ++ notification_to_json n ++ codes "}"
  subscribe_response_to_json (sync_response b) =
      codes "{\"syncResponse\":" ++ show_bool b ++ codes "}"
  subscribe_response_to_json (error m) = codes "{\"error\":" ++ quote m ++ codes "}"
  subscribe_response_to_json not_set = codes "{}"
