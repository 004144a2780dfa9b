-- ===== src/Gnmi/Paths.antt =====
-- app/inc/gnmi_util.hpp: `parse_yang_path` and `path_to_string`.
pub mod RoundTrip
use grace_server.Base.{
  ℕ, zero, suc, Bool, true, false, not, Option, none, some, List, [], ◌∷◌, ◌++◌, map, length, drop,
  ◌==◌, if◌then◌else◌, Bytes, is_empty, split_at,
}
use grace_server.Base.Dict.{Dict, insert, remove_if}
use grace_server.Base.Keys.{bytes_key}
use grace_server.Gnmi.{PathElem, GnmiPath}

abbrev pub push : ℕ → List Bytes → List Bytes
push x [] = (x ∷ []) ∷ []
push x (p ∷ ps) = (x ∷ p) ∷ ps

-- The pieces between the slashes.
unfoldable pub pieces : Bytes → List Bytes
pieces [] = [] ∷ []
pieces (x ∷ xs) = if x == b'/' then [] ∷ pieces xs else push x (pieces xs)

-- The `getline` loop; it skips empty segments, and with them the end of the text.
unfoldable pub segments : Bytes → List Bytes
unfolding pieces
segments s = remove_if is_empty (pieces s)

-- `(*elem->mutable_key())[kv.substr(0, eq)] = kv.substr(eq + 1)`, if there is a '='.
unfoldable pub set_key : Bytes → Dict Bytes Bytes → Dict Bytes Bytes
set_key kv keys = elim (split_at b'=' kv) [ none ↦ keys | some (k, v) ↦ insert k v keys ]

-- The loop over "[k=v][k2=v2]", as long as the rest starts with a bracket and has its end.
unfoldable pub read_keys : ℕ → Bytes → Dict Bytes Bytes → Dict Bytes Bytes
unfolding set_key
read_keys zero rest keys = keys
read_keys (suc fuel) [] keys = keys
read_keys (suc fuel) (x ∷ rest) keys =
    if x == b'['
    then elim (split_at b']' rest) [
      | none ↦ keys
      | some (kv, after) ↦ read_keys fuel after (set_key kv keys)
    ]
    else keys

-- One segment. Each predicate takes at least two bytes, so the length bounds the rounds.
unfoldable pub parse_elem : Bytes → PathElem
unfolding read_keys
parse_elem segment = elim (split_at b'[' segment) [
  | none ↦ record { name = segment; keys = [] }
  | some (name, rest) ↦ record {
    name = name;
    keys = read_keys (suc (length rest)) (b'[' ∷ rest) [];
  }
]

unfoldable pub strip_slash : Bytes → Bytes
strip_slash [] = []
strip_slash (x ∷ xs) = if x == b'/' then xs else x ∷ xs

unfoldable pub parse_yang_path : Bytes → GnmiPath
unfolding strip_slash segments parse_elem
parse_yang_path path_str = map parse_elem (segments (strip_slash path_str))

unfoldable pub keys_to_string : Dict Bytes Bytes → Bytes
keys_to_string [] = []
keys_to_string ((k, v) ∷ kvs) = b'[' ∷ (k ++ b'=' ∷ (v ++ b']' ∷ keys_to_string kvs))

unfoldable pub elems_to_string : GnmiPath → Bytes
unfolding keys_to_string
elems_to_string [] = []
elems_to_string (e ∷ es) = b'/' ∷ (e.name ++ keys_to_string e.keys ++ elems_to_string es)

unfoldable pub path_to_string : GnmiPath → Bytes
unfolding elems_to_string
path_to_string p = if is_empty (elems_to_string p) then b'/' ∷ [] else elems_to_string p
