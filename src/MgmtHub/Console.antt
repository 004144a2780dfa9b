-- ===== src/MgmtHub/Console.antt =====
-- The command line of app/src/mgmt_tui.cpp, over the management hub. Drawing is left out: `println`
-- is an effect. The packing of a message into an `Any`, what `send` makes of a Lua file
-- (app/src/lua_proto.cpp) and `strtod` with the product behind it are parameters.
pub mod Line
pub mod Answers
pub mod History
use grace_server.Base.{
  ℕ, ◌+◌, Bool, true, false, not, ◌&&◌, ◌||◌, Option, none, some, List, [], ◌∷◌, ◌++◌, map, length,
  ltb, drop, ◌==◌, if◌then◌else◌, Bytes, codes, equal, is_empty, starts_with, split_at, split_last,
}
use grace_server.Base.Dict.{remove_if}
use grace_server.Gnmi.{GnmiPath, Update}
use grace_server.Gnmi.Command.{
  Subscription, trim, is_blank, starts_with_digit, parse_duration_ns, pieces, read_paths,
  subscription, update_of,
}
use grace_server.Gnmi.Paths.{push}
use grace_server.MgmtHub.{
  Hub, DeviceRequest, CliRequest, Effect, send_request, send_device_request, send_cli,
}
use grace_server.Openvpn.Parse.{is_space}

-- `mgmt_tui`: what `submit_input` reads and writes.
pub record Console : Type 0 where
  pub input : Bytes
  pub history : List Bytes
  pub hist_idx : ℕ
  pub cec : Bool
  pub json : Bool
  pub timeout_ns : ℕ
  pub timeout_disp : Bytes

-- A line shown, a message to a device, and the end of the event loop.
pub data Output : Type 0 where
  println : Bytes → Output
  device_gets : Effect → Output
  loopbreak : Output

-- What `lua_file` and `lua_proto::populate` make of a file.
pub data FileRequest : Type 0 where
  not_loaded : FileRequest
  not_populated : Bytes → FileRequest
  populated : DeviceRequest → FileRequest

-- The encodings; the flag of `pack_subscribe` is whether the mode is STREAM.
pub record Codec : Type 0 where
  pub device_request : DeviceRequest → Bytes
  pub pack_cli : CliRequest → Bytes
  pub pack_get : List GnmiPath → Bytes
  pub pack_set : List Update → Bytes
  pub pack_subscribe : Bool → List Subscription → Bytes
  pub file_request : Bytes → FileRequest
  pub scaled : Bytes → ℕ → ℕ
  -- What a read of the history out of its range gives: it can be anything.
  pub unread : Bytes

split_words : Bytes → List Bytes
split_words [] = [] ∷ []
split_words (x ∷ xs) = if is_space x then [] ∷ split_words xs else push x (split_words xs)

-- The words that `>>` reads, one after the other.
unfoldable pub words : Bytes → List Bytes
unfolding split_words
words s = remove_if is_empty (split_words s)

-- The words from one on, with a space between them.
unfoldable pub spaced : List Bytes → Bytes
spaced [] = []
spaced (w ∷ []) = w
spaced (w ∷ v ∷ vs) = w ++ b' ' ∷ spaced (v ∷ vs)

abbrev pub at_device : Bytes → Bytes
at_device device_id = if is_empty device_id then [] else b'@' ∷ (device_id ++ codes " ")

-- "→", in UTF-8.
abbrev arrow : Bytes
arrow = 0xE2 ∷ 0x86 ∷ 0x92 ∷ []

-- "[mgmt] no session connected — not sent: ", in UTF-8.
abbrev not_sent : Bytes
not_sent = codes "[mgmt] no session connected " ++ 0xE2 ∷ 0x80 ∷ 0x94 ∷ codes " not sent: "

-- What is shown of a request: `rpc_id` is empty if it was not sent.
abbrev pub report : Bytes → Bytes → Bytes → Bytes
report rpc_id lost sent =
    if is_empty rpc_id
    then not_sent ++ lost
    else codes "[mgmt] " ++ arrow ++ codes " " ++ sent ++ codes "  rpc=" ++ rpc_id

abbrev pub sent_all : List Effect → List Output
sent_all [] = []
sent_all (e ∷ es) = device_gets e ∷ sent_all es

-- A hub behind a request, the request's id, and what was sent; with the line that reports it.
abbrev pub shown : Hub × Bytes × List Effect → (Bytes → Bytes) → Hub × List Output
shown (h, rpc_id, es) line = (h, sent_all es ++ println (line rpc_id) ∷ [])

abbrev pub refused : Hub → Bytes → Hub × List Output
refused h line = (h, println line ∷ [])

-- The loop of "set" over the pairs; one without ':' is passed over.
unfoldable pub set_pairs : List Bytes → List Update
unfolding trim update_of
set_pairs [] = []
set_pairs (piece ∷ later) =
    let rest = set_pairs later in
    elim (split_at b':' (trim piece)) [
      | none ↦ rest
      | some (xpath, value) ↦ update_of xpath value ∷ rest
    ]

-- The paths and the interval of "subscribe"; a text that is no interval is left with the paths.
unfoldable pub peel_interval : Codec → Bytes → Bytes × ℕ
unfolding split_last trim parse_duration_ns
peel_interval c spec = elim (split_last is_blank spec) [
  | none ↦ (spec, 0)
  | some (before, after) ↦
      let tail = trim after in
      let interval = parse_duration_ns c.scaled tail in
      if starts_with_digit tail
      then (if ltb 0 interval then (before, interval) else (spec, 0))
      else (spec, 0)
]

module _ (c : Codec) where
  -- The request packed, its label kept.
  unfoldable pub send_packed : Hub → List ℕ → Bytes → Bytes → Bytes → Hub × List Output
  unfolding send_request
  send_packed h draws op device_id label =
      shown (send_request c.device_request h draws op device_id label)
        (λ rpc_id. report rpc_id label (at_device device_id ++ label))

  unfoldable pub send_gnmi : Hub → List ℕ → Bytes → Bytes → Bytes → Hub × List Output
  unfolding send_packed read_paths pieces set_pairs peel_interval
  send_gnmi h draws verb spec device_id =
      let paths = read_paths (pieces spec) in
      let updates = set_pairs (pieces spec) in
      let peeled = peel_interval c spec in
      let sub_paths = read_paths (pieces peeled.0) in
      if equal verb (codes "get")
      then (if is_empty spec
          then refused h (codes "[mgmt] usage: gnmi get <xpath>[,<xpath>...]")
          else if is_empty paths
          then refused h (codes "[mgmt] no valid xpaths")
          else send_packed h draws (c.pack_get paths) device_id (codes "gnmi get " ++ spec))
      else if equal verb (codes "set")
      then (if is_empty spec
          then refused h (codes "[mgmt] usage: gnmi set <xpath>:<val>[,...]")
          else if is_empty updates
          then refused h (codes "[mgmt] no valid <xpath>:<value> pairs")
          else send_packed h draws (c.pack_set updates) device_id (codes "gnmi set " ++ spec))
      else if equal verb (codes "subscribe") || equal verb (codes "sub")
      then (if is_empty spec
          then refused h (codes "[mgmt] usage: gnmi subscribe <xpath>[,...] [interval]")
          else if is_empty sub_paths
          then refused h (codes "[mgmt] no valid xpaths")
          else send_packed h draws (c.pack_subscribe true (map (subscription peeled.1) sub_paths))
              device_id (codes "gnmi subscribe " ++ peeled.0))
      else refused h (codes "[mgmt] unknown gnmi verb '" ++ verb ++ codes "' (get|set|subscribe)")

  -- A file's request, and its device for the report.
  unfoldable pub send_populated : Hub → List ℕ → Bytes → DeviceRequest → Hub × List Output
  unfolding send_device_request
  send_populated h draws path req =
      let label = codes "send " ++ path in
      shown (send_device_request c.device_request h draws req label) (λ rpc_id.
        report rpc_id path
          (label ++ (if is_empty req.device_id then [] else codes "  dev=" ++ req.device_id)))

  unfoldable pub send_file : Hub → List ℕ → Bytes → Hub × List Output
  unfolding send_populated
  send_file h draws path =
      if is_empty path
      then refused h (codes "[mgmt] usage: send <file.lua>")
      else elim (c.file_request path) [
        | not_loaded ↦
            refused h (codes "[mgmt] cannot load '" ++ path ++ codes "' (not found or not a table)")
        | not_populated e ↦ refused h (codes "[mgmt] " ++ path ++ codes ": " ++ e)
        | populated req ↦ send_populated h draws path req
      ]

  -- A command and its arguments, for a device.
  unfoldable pub run_command :
      Hub → Console → List ℕ → Bytes → Bytes → Bytes → List Bytes → Hub × List Output
  unfolding send_gnmi send_cli spaced
  run_command h t draws line device_id cmd args =
      if equal cmd (codes "gnmi")
      then (elim args [
        | [] ↦ refused h (codes "[mgmt] usage: gnmi get|set|subscribe <spec>")
        | verb ∷ spec ↦ send_gnmi h draws verb (spaced spec) device_id
      ])
      else shown
          (send_cli c.device_request c.pack_cli h draws cmd args device_id t.cec t.json
            t.timeout_ns)
          (λ rpc_id.
            report rpc_id (b'\'' ∷ (line ++ codes "'"))
              (at_device device_id ++ b'\'' ∷ (cmd ++ codes "'")))

  -- The words of a line. If none follows the device, `>>` leaves the word that named it, so that
  -- it is the command too.
  unfoldable pub run_words : Hub → Console → List ℕ → Bytes → List Bytes → Hub × List Output
  unfolding run_command
  run_words h t draws line [] = refused h (codes "[mgmt] no command after @")
  run_words h t draws line ((x ∷ device_id) ∷ []) =
      run_command h t draws line (if x == b'@' then device_id else []) (x ∷ device_id) []
  run_words h t draws line ((x ∷ device_id) ∷ cmd ∷ args) =
      if x == b'@'
      then run_command h t draws line device_id cmd args
      else run_command h t draws line [] (x ∷ device_id) (cmd ∷ args)
  run_words h t draws line ([] ∷ args) = refused h (codes "[mgmt] no command after @")
