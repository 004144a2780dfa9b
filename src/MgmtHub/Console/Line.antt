-- ===== src/MgmtHub/Console/Line.antt =====
-- `submit_input` and `handle_read` of app/src/mgmt_tui.cpp: the settings, the history, and the keys.
use grace_server.Base.{
  ℕ, zero, suc, ◌+◌, ◌-◌, Bool, true, false, not, ◌&&◌, ◌||◌, Option, none, some, List, [], ◌∷◌,
  ◌++◌, map, length, ltb, drop, ◌==◌, if◌then◌else◌, Bytes, codes, equal, is_empty, starts_with,
}
use grace_server.Gnmi.Command.{trim, parse_duration_ns}
use grace_server.MgmtHub.{Hub}
use grace_server.MgmtHub.Console.{
  Console, Output, println, loopbreak, Codec, words, send_file, run_words,
}

unfoldable pub on_off : Bytes → Bool
on_off val =
    equal val (codes "on")
    || equal val (codes "1")
    || equal val (codes "true")
    || equal val (codes "yes")

-- The words that `ms >> verb >> key >> val` reads.
abbrev pub word : ℕ → List Bytes → Bytes
word n [] = []
word zero (w ∷ ws) = w
word (suc n) (w ∷ ws) = word n ws

abbrev on_text : Bool → Bytes
on_text true = codes "on"
on_text false = codes "off"

unfoldable pub summary : Console → Bytes
summary t =
    codes "[mgmt] settings: cec_cli="
    ++ on_text t.cec
    ++ codes " json="
    ++ on_text t.json
    ++ codes " timeout="
    ++ (if is_empty t.timeout_disp then codes "default" else t.timeout_disp)

-- The settings behind a ':' command, or what is said of a bad one.
pub data Setting : Type 0 where
  settled : Console → Setting
  bad : Bytes → Setting

unfoldable pub set_timeout : Codec → Console → Bytes → Setting
unfolding parse_duration_ns
set_timeout c t val =
    let ns = parse_duration_ns c.scaled val in
    if ns == 0 && not (equal val (codes "0"))
    then bad (codes "[mgmt] bad timeout '" ++ val ++ codes "'")
    else settled (record t { timeout_ns = ns; timeout_disp = if ltb 0 ns then val else [] })

unfoldable pub settings : Codec → Console → Bytes → Bytes → Bytes → Setting
unfolding on_off set_timeout
settings c t verb key val =
    if equal verb (codes "set") && (equal key (codes "cec_cli") || equal key (codes "cec"))
    then settled (record t { cec = on_off val })
    else if equal verb (codes "set") && equal key (codes "json")
    then settled (record t { json = on_off val })
    else if equal verb (codes "set") && equal key (codes "timeout")
    then set_timeout c t val
    else if equal verb (codes "reset")
    then settled (record t { cec = false; json = false; timeout_ns = 0; timeout_disp = [] })
    else if equal verb (codes "show")
    then settled t
    else bad (codes "[mgmt] unknown ':' command (set cec_cli|json|timeout, show, reset)")

-- The line behind the ':'.
unfoldable pub colon_line : Codec → Console → Bytes → Console × List Output
unfolding words settings summary
colon_line c t line =
    let ws = words line in
    elim (settings c t (word 0 ws) (word 1 ws) (word 2 ws)) [
      | settled t' ↦ (t', println (summary t') ∷ [])
      | bad what ↦ (t, println what ∷ [])
    ]

-- "·", "…", "←/→", in UTF-8.
abbrev dot : Bytes
dot = codes " " ++ 0xC2 ∷ 0xB7 ∷ codes " "

unfoldable pub help : List Output
help = map println (
    codes "commands:"
    ∷ codes "  <cmd> [args]                    CLI command on the BN"
    ∷ codes "  gnmi get|set|subscribe <spec>   gNMI over the dial-out"
    ∷ codes "  send <file.lua>                 DeviceRequest described in Lua"
    ∷ (codes "  @<device_id> <cmd> "
        ++ 0xE2 ∷ 0x80 ∷ 0xA6 ∷ codes "            target a specific device")
    ∷ (codes "  :set cec_cli|json on|off"
        ++ dot
        ++ codes ":set timeout 20s"
        ++ dot
        ++ codes ":show"
        ++ dot
        ++ codes ":reset")
    ∷ (codes "  Up/Down history"
        ++ dot
        ++ codes "PgUp/PgDn/Home, Shift+Up/Down (1 line), "
        ++ 0xE2 ∷ 0x86 ∷ 0x90 ∷ 0x2F ∷ 0xE2 ∷ 0x86 ∷ 0x92 ∷ codes " scroll"
        ++ dot
        ++ codes "quit/^D leave")
    ∷ [])

-- `m_history.back() == line`.
abbrev pub ends_in : List Bytes → Bytes → Bool
ends_in [] line = false
ends_in (x ∷ []) line = equal x line
ends_in (x ∷ y ∷ ys) line = ends_in (y ∷ ys) line

unfoldable pub remember : Console → Bytes → Console
remember t line =
    let history = if ends_in t.history line then t.history else t.history ++ line ∷ [] in
    record t { input = []; history = history; hist_idx = length history }

unfoldable pub is_colon : Bytes → Bool
is_colon [] = false
is_colon (x ∷ xs) = x == b':'

module _ (c : Codec) where
  -- A line that is not empty.
  unfoldable pub run_line : Hub → Console → List ℕ → Bytes → Hub × Console × List Output
  unfolding help is_colon colon_line send_file run_words words trim
  run_line h t draws line =
      let colon = colon_line c t (drop 1 line) in
      let file = send_file c h draws (trim (drop 5 line)) in
      let ran = run_words c h t draws line (words line) in
      if equal line (codes "quit") || equal line (codes "exit")
      then (h, t, loopbreak ∷ [])
      else if equal line (codes "help") || equal line (codes "?")
      then (h, t, help)
      else if is_colon line
      then (h, colon.0, colon.1)
      else if starts_with line (codes "send ")
      then (file.0, t, file.1)
      else (ran.0, t, ran.1)

  unfoldable pub submit_input : Hub → Console → List ℕ → Hub × Console × List Output
  unfolding trim remember run_line
  submit_input h t draws =
      let line = trim t.input in
      if is_empty line
      then (h, record t { input = [] }, [])
      else run_line h (remember t line) draws line

-- The keys that the console reacts to; `view` is one that moves the view only.
pub data Key : Type 0 where
  ctrl_d enter backspace up down view : Key
  printable : ℕ → Key

abbrev pub dropped_last : Bytes → Bytes
dropped_last [] = []
dropped_last (x ∷ []) = []
dropped_last (x ∷ y ∷ ys) = x ∷ dropped_last (y ∷ ys)

-- `m_history[i]`; none is out of range.
abbrev pub get_elem? : List Bytes → ℕ → Option Bytes
get_elem? [] i = none
get_elem? (x ∷ xs) zero = some x
get_elem? (x ∷ xs) (suc i) = get_elem? xs i

-- What the read gives; `unread` is what one out of range does.
abbrev recalled : Bytes → Option Bytes → Bytes
recalled unread none = unread
recalled unread (some line) = line

unfoldable pub recall_up : Bytes → Console → Console
recall_up unread t =
    if not (is_empty t.history) && ltb 0 t.hist_idx
    then record t {
      hist_idx = t.hist_idx - 1;
      input = recalled unread (get_elem? t.history (t.hist_idx - 1));
    }
    else t

-- Past the newest entry the line is empty.
unfoldable pub recall_down : Bytes → Console → Console
recall_down unread t =
    if ltb t.hist_idx (length t.history)
    then record t {
      hist_idx = t.hist_idx + 1;
      input =
          if ltb (t.hist_idx + 1) (length t.history)
          then recalled unread (get_elem? t.history (t.hist_idx + 1))
          else [];
    }
    else t

module _ (c : Codec) where
  -- The numbers drawn are those of the request that the key may send.
  unfoldable pub press : Hub → Console → List ℕ → Key → Hub × Console × List Output
  unfolding submit_input recall_up recall_down
  press h t draws ctrl_d = (h, t, loopbreak ∷ [])
  press h t draws enter = submit_input c h t draws
  press h t draws backspace = (h, record t { input = dropped_last t.input }, [])
  press h t draws up = (h, recall_up c.unread t, [])
  press h t draws down = (h, recall_down c.unread t, [])
  press h t draws view = (h, t, [])
  press h t draws (printable ch) = (h, record t { input = t.input ++ ch ∷ [] }, [])

  -- The loop of `handle_read`; it ends at a ^D.
  unfoldable pub handle_keys : Hub → Console → List (List ℕ × Key) → Hub × Console × List Output
  unfolding press
  handle_keys h t [] = (h, t, [])
  handle_keys h t ((draws, ctrl_d) ∷ later) = (h, t, loopbreak ∷ [])
  handle_keys h t ((draws, key) ∷ later) =
      let r = press h t draws key in
      let rest = handle_keys r.0 r.1 later in (rest.0, rest.1, r.2 ++ rest.2)
