-- ===== src/Tests/Terminal.antt =====
-- The management console and escape sequences.
use grace_server.Base.{ℕ, ◌≡◌, refl, false, List, [], ◌∷◌, ◌++◌, arith, Bytes, codes}
use grace_server.Base.Split.{Lacks}
use grace_server.MgmtHub.{Hub}
use grace_server.MgmtHub.Console.{Console, Codec, not_loaded}
use grace_server.MgmtHub.Console.Line.{Key, enter, up, printable, press, handle_keys}
use grace_server.MgmtHub.Console.Answers.{IsOne, press-IsOne}
use grace_server.MgmtHub.Console.History.{InHistory, Recalls, handle_keys_recall}
use grace_server.Terminal.Ansi.{esc, strip_ansi, csi_sequence, plain, end, strip_ansi-Marked}

-- "ok" in green.
abbrev coloured : Bytes
coloured = esc ∷ codes "[32mok" ++ esc ∷ codes "[0m"

strip_ansi-Marked_example : (strip_ansi coloured ≡ codes "ok") × Lacks esc (codes "ok")
strip_ansi-Marked_example = strip_ansi-Marked coloured (codes "ok") (
    csi_sequence (codes "32") b'm' (refl, (refl, tt)) refl
      (plain b'o' refl (plain b'k' refl (csi_sequence (codes "0") b'm' (refl, tt) refl end))))

abbrev hub : Hub
hub = record {
  sessions =
      record { grpc = 4; sid = 1; id = 1; since = 0; device = []; hostname = []; role = [] } ∷ [];
  next_id = 1;
  pending = [];
  notif = [];
}

abbrev console : Console
console = record {
  input = codes "uptime";
  history = [];
  hist_idx = 0;
  cec = false;
  json = false;
  timeout_ns = 0;
  timeout_disp = [];
}

abbrev codec : Codec
codec = record {
  device_request = λ r. r.request;
  pack_cli = λ r. r.cmd;
  pack_get = λ ps. [];
  pack_set = λ us. [];
  pack_subscribe = λ streaming ss. [];
  file_request = λ path. not_loaded;
  scaled = λ digits mult. mult;
  unread = codes "?";
}

press-IsOne_example :
    IsOne codec hub
      ((press codec hub console (3 ∷ []) enter).0, (press codec hub console (3 ∷ []) enter).2)
press-IsOne_example = press-IsOne codec hub console (3 ∷ []) enter

abbrev typed : List (List ℕ × Key)
typed = (3 ∷ [], enter) ∷ ([], up) ∷ ([], printable 33) ∷ []

handle_keys_recall_example :
    InHistory (handle_keys codec hub console typed).1
    × Recalls codec.unread (handle_keys codec hub console typed).1
handle_keys_recall_example = handle_keys_recall codec hub console typed (omega arith)
