-- ===== src/Openvpn/Parse.antt =====
-- app/openvpn/inc/openvpn_parse.hpp.
use grace_server.Base.{
  ℕ, Bool, true, not, ◌&&◌, ◌||◌, Option, none, some, [], ◌∷◌, length, drop, leb, ◌==◌,
  if◌then◌else◌, Bytes, is_empty, split_at, starts_with,
}
use grace_server.Base.Dict.{is_some}

-- `s.find(key)`, with what follows the first occurrence.
unfoldable pub after_key : Bytes → Bytes → Option Bytes
after_key key [] = if is_empty key then some [] else none
after_key key (x ∷ xs) =
    let later = after_key key xs in
    if starts_with (x ∷ xs) key then some (drop (length key) (x ∷ xs)) else later

-- The bytes that `>>` skips and stops at, in the C locale.
unfoldable pub is_space : ℕ → Bool
is_space c = c == b' ' || leb 9 c && leb c 13

unfoldable pub skip_space : Bytes → Bytes
unfolding is_space
skip_space [] = []
skip_space (x ∷ xs) = if is_space x then skip_space xs else x ∷ xs

-- One of "0123456789.".
unfoldable pub is_dotted : ℕ → Bool
is_dotted c = c == b'.' || leb b'0' c && leb c b'9'

-- The bytes before the first one that the test refuses.
unfoldable pub take_while : (ℕ → Bool) → Bytes → Bytes
take_while t [] = []
take_while t (x ∷ xs) = if t x then x ∷ take_while t xs else []

unfoldable pub trim_token : Option Bytes → Bytes
unfolding skip_space is_space is_dotted take_while
trim_token none = []
trim_token (some rest) = take_while is_dotted (take_while (λ c. not (is_space c)) (skip_space rest))

unfoldable pub token_after : Bytes → Bytes → Bytes
unfolding trim_token after_key
token_after line key = trim_token (after_key key line)

unfoldable pub all_dotted : Bytes → Bool
unfolding is_dotted
all_dotted [] = true
all_dotted (x ∷ xs) = is_dotted x && all_dotted xs

unfoldable pub has_dot : Bytes → Bool
has_dot s = is_some (split_at b'.' s)

unfoldable pub looks_like_ipv4 : Bytes → Bool
unfolding all_dotted has_dot
looks_like_ipv4 s = leb 7 (length s) && has_dot s && all_dotted s

unfoldable pub is_header : Bytes → Bool
is_header [] = true
is_header (x ∷ xs) = x == b'V'

-- The virtual address of a row, or "".
unfoldable pub parse_routing_row : Bytes → Bytes
unfolding is_header has_dot
parse_routing_row line = if is_header line then [] else elim (split_at b',' line) [
  | none ↦ []
  | some (vip, rest) ↦ if has_dot vip then vip else []
]
