-- ===== src/Gnmi/Command.antt =====
-- app/peer/src/gnmi_cmd.cpp: the commands of the peer's console. `SerializeToString` and
-- `ParseFromString` of the generated classes are parameters, and so is `strtod` with the product
-- that follows it.
pub mod Render
pub mod EndToEnd
use grace_server.Base.{
  ℕ, ◌+◌, Bool, true, false, not, ◌&&◌, ◌||◌, Option, none, some, List, [], ◌∷◌, ◌++◌, map, length,
  drop, leb, ltb, ◌==◌, if◌then◌else◌, Bytes, codes, equal, is_empty, split_at, split_last,
  to_string,
}
use grace_server.Gnmi.{GnmiPath, Update}
use grace_server.Gnmi.Json.{set_typed_value}
use grace_server.Gnmi.Paths.{parse_yang_path}
use grace_server.Openvpn.Parse.{is_space, skip_space, take_while}

-- `gnmi::Subscription`: the interval of SAMPLE mode, if it is that mode.
pub record Subscription : Type 0 where
  pub path : GnmiPath
  pub sample_interval : Option ℕ

-- The requests, by the target of their prefix. Encoding JSON is always set;
-- the flag of `subscribe_request` is whether the mode is STREAM.
pub record Codec : Type 0 where
  pub set_request : Bytes → List Update → Bytes
  pub get_request : Bytes → List GnmiPath → Bytes
  pub subscribe_request : Bytes → Bool → List Subscription → Bytes
  -- `static_cast<uint64_t>(strtod(digits) * mult)`.
  pub scaled : Bytes → ℕ → ℕ

pub record Endpoint : Type 0 where
  pub host : Bytes
  pub port : ℕ

-- `m_out`, `gnmi_client::push_async` of an RPC, and `gnmi_client::subscribe_async`.
pub data Effect : Type 0 where
  out : Bytes → Effect
  push : Bytes → Bytes → Effect
  subscribe : Bytes → Effect

abbrev pub is_blank : ℕ → Bool
is_blank c = c == b' ' || c == 9

unfoldable pub trim_front : Bytes → Bytes
trim_front [] = []
trim_front (x ∷ xs) = if is_blank x then trim_front xs else x ∷ xs

unfoldable pub trim_back : Bytes → Bytes
trim_back [] = []
trim_back (x ∷ xs) = let rest = trim_back xs in if is_empty rest && is_blank x then [] else x ∷ rest

unfoldable pub trim : Bytes → Bytes
unfolding trim_front trim_back
trim s = trim_back (trim_front s)

abbrev is_digit : ℕ → Bool
is_digit c = leb b'0' c && leb c b'9'

abbrev is_number : ℕ → Bool
is_number c = is_digit c || c == b'.'

-- Nanoseconds in a unit; 0 for a unit that is not known.
unfoldable pub unit_ns : Bytes → ℕ
unit_ns unit =
    if is_empty unit || equal unit (codes "s")
    then 1000000000
    else if equal unit (codes "ms")
    then 1000000
    else if equal unit (codes "us")
    then 1000
    else if equal unit (codes "ns")
    then 1
    else if equal unit (codes "m")
    then 60000000000
    else if equal unit (codes "h")
    then 3600000000000
    else 0

unfoldable pub parse_duration_ns : (Bytes → ℕ → ℕ) → Bytes → ℕ
unfolding unit_ns take_while
parse_duration_ns scaled s =
    let digits = take_while is_number s in
    let mult = unit_ns (drop (length digits) s) in
    if is_empty digits || mult == 0 then 0 else scaled digits mult

-- The pieces that `getline` with ',' gives; an empty one, also a last one that it would not
-- give, is skipped by the loops.
unfoldable pub pieces : Bytes → List Bytes
pieces [] = [] ∷ []
pieces (x ∷ xs) = if x == b',' then [] ∷ pieces xs else first x (pieces xs)
  where
    first : ℕ → List Bytes → List Bytes
    first x [] = (x ∷ []) ∷ []
    first x (p ∷ ps) = (x ∷ p) ∷ ps

unfoldable pub update_of : Bytes → Bytes → Update
unfolding trim
update_of xpath value = record {
  path = parse_yang_path (trim xpath);
  val = set_typed_value value [];
}

-- The loop of `do_set`: the updates, and what is said of the pairs that are skipped.
unfoldable pub read_pairs : List Bytes → List Update × List Effect
unfolding trim update_of
read_pairs [] = ([], [])
read_pairs (piece ∷ later) =
    let rest = read_pairs later in
    let pair = trim piece in
    if is_empty pair then rest else elim (split_at b':' pair) [
      | none ↦ (rest.0, out (codes "  skip (no ':' in pair): " ++ pair) ∷ rest.1)
      | some (xpath, value) ↦ (update_of xpath value ∷ rest.0, rest.1)
    ]

abbrev pub target_line : Bytes → Endpoint → Bytes → Bytes
target_line tag remote rest =
    tag ++ codes " -> " ++ remote.host ++ codes ":" ++ to_string remote.port ++ codes " (" ++ rest

unfoldable pub do_set : Codec → Endpoint → Bytes → List Effect
unfolding read_pairs pieces
do_set c remote spec =
    let r = read_pairs (pieces spec) in
    if is_empty spec
    then out (codes "usage: gnmi set <xpath>:<value>[,<xpath>:<value>...]") ∷ []
    else if is_empty r.0
    then r.1 ++ out (codes "no valid <xpath>:<value> pairs") ∷ []
    else r.1
      ++ out (target_line (codes "[set]") remote (to_string (length r.0) ++ codes " update(s))"))
        ∷ push (codes "/gnmi.gNMI/Set") (c.set_request (codes "ADMIN") r.0)
        ∷ []

-- The loops of `do_get` and `do_subscribe` over the paths.
unfoldable pub read_paths : List Bytes → List GnmiPath
unfolding trim
read_paths [] = []
read_paths (piece ∷ later) =
    let rest = read_paths later in
    if is_empty (trim piece) then rest else parse_yang_path (trim piece) ∷ rest

unfoldable pub do_get : Codec → Endpoint → Bytes → List Effect
unfolding read_paths pieces
do_get c remote spec =
    let paths = read_paths (pieces spec) in
    if is_empty spec
    then out (codes "usage: gnmi get <xpath>[,<xpath>...]") ∷ []
    else if is_empty paths
    then out (codes "no valid xpaths") ∷ []
    else out (target_line (codes "[get]") remote (to_string (length paths) ++ codes " path(s))"))
      ∷ push (codes "/gnmi.gNMI/Get") (c.get_request (codes "VIEWER") paths)
      ∷ []

abbrev pub starts_with_digit : Bytes → Bool
starts_with_digit [] = false
starts_with_digit (x ∷ xs) = is_digit x

-- `find_last_of(" \t")` splits the text. The paths, the interval and its text; or the text of a bad interval.
unfoldable pub peel_interval : Codec → Bytes → Bytes × ℕ × Bytes
unfolding split_last trim parse_duration_ns
peel_interval c spec = elim (split_last is_blank spec) [
  | none ↦ (spec, 0, [])
  | some (before, after) ↦
      let tail = trim after in
      if starts_with_digit tail
      then (before, parse_duration_ns c.scaled tail, tail)
      else (spec, 0, [])
]

abbrev pub subscription : ℕ → GnmiPath → Subscription
subscription interval path = record {
  path = path;
  sample_interval = if ltb 0 interval then some interval else none;
}

unfoldable pub do_subscribe : Codec → Endpoint → Bytes → List Effect
unfolding peel_interval read_paths pieces
do_subscribe c remote spec =
    let (text, interval, shown) = peel_interval c spec in
    let paths = read_paths (pieces text) in
    if is_empty spec
    then out (
        codes "usage: gnmi subscribe <xpath>[,<xpath>...] [interval]   "
        ++ codes "(interval e.g. 10s, 500ms, 1m => SAMPLE; omit => on-change)")
      ∷ []
    else if not (is_empty shown) && interval == 0
    then out (codes "bad interval '" ++ shown ++ codes "' (e.g. 10s, 500ms, 1m)") ∷ []
    else if is_empty paths
    then out (codes "no valid xpaths") ∷ []
    else out (
        target_line (codes "[sub]") remote (
          to_string (length paths)
          ++ codes " path(s), STREAM"
          ++ (if ltb 0 interval then codes ", SAMPLE @" ++ shown else codes ", on-change")
          ++ codes ")"))
      ∷ subscribe (c.subscribe_request (codes "VIEWER") true (map (subscription interval) paths))
      ∷ []

unfoldable pub help : List Effect
help = map out (
    codes "gnmi_peer commands:"
    ∷ (codes "  gnmi set <xpath>:<value>[,<xpath>:<value>...]  send SetRequest "
        ++ codes "(role ADMIN)")
    ∷ (codes "  gnmi get <xpath>[,<xpath>...]                  send GetRequest "
        ++ codes "(role VIEWER)")
    ∷ (codes "  gnmi subscribe <xpath>[,<xpath>...] [interval]  stream telemetry; "
        ++ codes "interval (10s/500ms/1m) => SAMPLE, omit => on-change")
    ∷ codes "  help                                           show this help"
    ∷ codes "  quit | exit                                    leave gnmi_peer"
    ∷ (codes "notes: xpath uses '/'-separated YANG form, e.g. "
        ++ codes "/interfaces/interface[name=eth0]/config/mtu")
    ∷ codes "       the value is everything after the FIRST ':' in each pair"
    ∷ [])

-- `ss >> verb`: the word, and what is left of the stream.
unfoldable pub read_word : Bytes → Bytes × Bytes
unfolding skip_space is_space take_while
read_word s =
    let t = skip_space s in
    let word = take_while (λ c. not (is_space c)) t in (word, drop (length word) t)

-- The word that names the command. A second `>>` that finds no word leaves the first.
unfoldable pub read_verb : Bytes → Bytes × Bytes
unfolding read_word
read_verb line =
    let first = read_word line in
    let second = read_word first.1 in
    if equal first.0 (codes "gnmi") && not (is_empty second.0) then second else first

-- `getline`.
unfoldable pub first_line : Bytes → Bytes
first_line s = elim (split_at 10 s) [ none ↦ s | some (before, after) ↦ before ]

-- False when the console is to end, and what was done.
unfoldable pub dispatch : Codec → Endpoint → Bytes → Bool × List Effect
unfolding read_verb first_line trim do_set do_get do_subscribe help
dispatch c remote line =
    let (verb, rest) = read_verb line in
    let spec = trim (first_line rest) in
    if equal verb (codes "set")
    then (true, do_set c remote spec)
    else if equal verb (codes "get")
    then (true, do_get c remote spec)
    else if equal verb (codes "subscribe") || equal verb (codes "sub")
    then (true, do_subscribe c remote spec)
    else if equal verb (codes "help")
    then (true, help)
    else if equal verb (codes "quit") || equal verb (codes "exit")
    then (false, [])
    else if not (is_empty verb)
    then (true, out (codes "unknown command: '" ++ verb ++ codes "' (try 'help')") ∷ [])
    else (true, [])
