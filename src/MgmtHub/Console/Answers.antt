-- ===== src/MgmtHub/Console/Answers.antt =====
-- What a key typed at the console sends.
use grace_server.Base.{
  ℕ, ◌≡◌, refl, ap, ◌∙◌, inl, inr, ◌⊎◌, false, ◌||◌, List, [], ◌∷◌, ◌++◌, Bytes, codes, equal,
  is_empty, starts_with, drop, map, ◌==◌, if◌then◌else◌, Bool-cases, both_branches,
}
use grace_server.Base.Dict.{insert}
use grace_server.Base.Keys.{bytes_key}
use grace_server.Gnmi.Command.{trim, pieces, read_paths}
use grace_server.MgmtHub.{
  Hub, DeviceRequest, Effect, stream_send, send_all, send_request, send_device_request, send_cli,
  gen_rpc_id,
}
use grace_server.MgmtHub.Requests.{send_all-map}
use grace_server.MgmtHub.Console.{
  Console, Output, println, device_gets, loopbreak, FileRequest, not_loaded, not_populated,
  populated, Codec, words, spaced, at_device, report, sent_all, shown, set_pairs, peel_interval,
  send_packed, send_gnmi, send_populated, send_file, run_command, run_words,
}
use grace_server.MgmtHub.Console.Line.{
  colon_line, settings, Setting, settled, bad, help, is_colon, run_line, remember, submit_input,
  Key, ctrl_d, enter, backspace, up, down, view, printable, press, word,
}

-- What goes to the devices.
abbrev pub sent : List Output → List Effect
sent [] = []
sent (device_gets e ∷ os) = e ∷ sent os
sent (println line ∷ os) = sent os
sent (loopbreak ∷ os) = sent os

sent-sent_all : (es : List Effect) (line : Bytes) → sent (sent_all es ++ println line ∷ []) ≡ es
sent-sent_all [] line = refl
sent-sent_all (e ∷ es) line = ap (◌∷◌ e) (sent-sent_all es line)

sent_println : (lines : List Bytes) → sent (map println lines) ≡ []
sent_println [] = refl
sent_println (l ∷ lines) = sent_println lines

module _ (c : Codec) where
  -- Nothing is sent and the hub is as it was; or some session is open, and one request goes to each
  -- open session, the same to all, and its id is remembered with a label.
  abbrev pub IsOne : Hub → Hub × List Output → Type 0
  IsOne h r =
      ((r.0 ≡ h) × (sent r.1 ≡ []))
      ⊎ ((req : DeviceRequest) × (label : Bytes) × (is_empty h.sessions ≡ false)
          × (r.0 ≡ record h { pending = insert req.rpc_id label h.pending })
          × (sent r.1 ≡ map (λ s. stream_send s.grpc s.sid (c.device_request req)) h.sessions))

  send_request-IsOne :
      (h : Hub) (draws : List ℕ) (op device_id label : Bytes) (line : Bytes → Bytes)
      → IsOne h (shown (send_request c.device_request h draws op device_id label) line)
  unfolding send_request
  send_request-IsOne h draws op device_id label line = elim (Bool-cases (is_empty h.sessions)) [
    | inl e ↦ rw (e, send_request) (inl (refl, refl))
    | inr e ↦
        rw (e, send_request)
          (inr (
            record { rpc_id = gen_rpc_id draws; device_id = device_id; request = op },
            label,
            refl,
            refl,
            sent-sent_all (send_all h.sessions _) _ ∙ send_all-map h.sessions _,
          ))
  ]

  send_populated-IsOne :
      (h : Hub) (draws : List ℕ) (path : Bytes) (req : DeviceRequest)
      → IsOne h (send_populated c h draws path req)
  unfolding send_populated send_device_request
  send_populated-IsOne h draws path req = elim (Bool-cases (is_empty h.sessions)) [
    | inl e ↦ rw (e, send_device_request) (inl (refl, refl))
    | inr e ↦
        rw (e, send_device_request)
          (inr (
            record req { rpc_id = gen_rpc_id draws },
            codes "send " ++ path,
            refl,
            refl,
            sent-sent_all (send_all h.sessions _) _ ∙ send_all-map h.sessions _,
          ))
  ]

  send_packed-IsOne :
      (h : Hub) (draws : List ℕ) (op device_id label : Bytes)
      → IsOne h (send_packed c h draws op device_id label)
  unfolding send_packed
  send_packed-IsOne h draws op device_id label =
      send_request-IsOne h draws op device_id label
        (λ rpc_id. report rpc_id label (at_device device_id ++ label))

  send_gnmi-IsOne :
      (h : Hub) (draws : List ℕ) (verb spec device_id : Bytes)
      → IsOne h (send_gnmi c h draws verb spec device_id)
  unfolding send_gnmi
  send_gnmi-IsOne h draws verb spec device_id =
      let peeled = peel_interval c spec in
      let P = IsOne h in
      both_branches P (equal verb (codes "get")) _ _
        (both_branches P (is_empty spec) _ _ (inl (refl, refl)) (
          both_branches P (is_empty (read_paths (pieces spec))) _ _ (inl (refl, refl))
            (send_packed-IsOne h draws _ device_id (codes "gnmi get " ++ spec))))
        (both_branches P (equal verb (codes "set")) _ _
          (both_branches P (is_empty spec) _ _ (inl (refl, refl)) (
            both_branches P (is_empty (set_pairs (pieces spec))) _ _ (inl (refl, refl))
              (send_packed-IsOne h draws _ device_id (codes "gnmi set " ++ spec))))
          (both_branches P (equal verb (codes "subscribe") || equal verb (codes "sub")) _ _
            (both_branches P (is_empty spec) _ _ (inl (refl, refl)) (
              both_branches P (is_empty (read_paths (pieces peeled.0))) _ _ (inl (refl, refl))
                (send_packed-IsOne h draws _ device_id (codes "gnmi subscribe " ++ peeled.0))))
            (inl (refl, refl))))

  send_file-IsOne : (h : Hub) (draws : List ℕ) (path : Bytes) → IsOne h (send_file c h draws path)
  unfolding send_file
  send_file-IsOne h draws path = split (c.file_request path) refl
    where
      split : (f : FileRequest) → c.file_request path ≡ f → IsOne h (send_file c h draws path)
      split not_loaded e =
          rw (e, send_file)
            (both_branches (IsOne h) (is_empty path) _ _ (inl (refl, refl)) (inl (refl, refl)))
      split (not_populated m) e =
          rw (e, send_file)
            (both_branches (IsOne h) (is_empty path) _ _ (inl (refl, refl)) (inl (refl, refl)))
      split (populated req) e =
          rw (e, send_file)
            (both_branches (IsOne h) (is_empty path) _ _ (inl (refl, refl))
              (send_populated-IsOne h draws path req))

  run_command-IsOne :
      (h : Hub) (t : Console) (draws : List ℕ) (line device_id cmd : Bytes) (args : List Bytes)
      → IsOne h (run_command c h t draws line device_id cmd args)
  unfolding run_command send_cli
  run_command-IsOne h t draws line device_id cmd [] =
      both_branches (IsOne h) (equal cmd (codes "gnmi")) _ _ (inl (refl, refl)) (
        send_request-IsOne h draws _ device_id cmd (λ rpc_id.
          report rpc_id (b'\'' ∷ (line ++ codes "'"))
            (at_device device_id ++ b'\'' ∷ (cmd ++ codes "'"))))
  run_command-IsOne h t draws line device_id cmd (verb ∷ spec) =
      both_branches (IsOne h) (equal cmd (codes "gnmi")) _ _
        (send_gnmi-IsOne h draws verb (spaced spec) device_id)
        (send_request-IsOne h draws _ device_id cmd (λ rpc_id.
          report rpc_id (b'\'' ∷ (line ++ codes "'"))
            (at_device device_id ++ b'\'' ∷ (cmd ++ codes "'"))))

  run_words-IsOne :
      (h : Hub) (t : Console) (draws : List ℕ) (line : Bytes) (ws : List Bytes)
      → IsOne h (run_words c h t draws line ws)
  unfolding run_words
  run_words-IsOne h t draws line [] = inl (refl, refl)
  run_words-IsOne h t draws line ([] ∷ args) = inl (refl, refl)
  run_words-IsOne h t draws line ((x ∷ device_id) ∷ []) =
      run_command-IsOne h t draws line (if x == b'@' then device_id else []) (x ∷ device_id) []
  run_words-IsOne h t draws line ((x ∷ device_id) ∷ cmd ∷ args) =
      both_branches (IsOne h) (x == b'@') _ _ (run_command-IsOne h t draws line device_id cmd args)
        (run_command-IsOne h t draws line [] (x ∷ device_id) (cmd ∷ args))

  sent-colon_line : (t : Console) (line : Bytes) → sent (colon_line c t line).1 ≡ []
  unfolding colon_line
  sent-colon_line t line =
      split (settings c t (word 0 (words line)) (word 1 (words line)) (word 2 (words line))) refl
    where
      split :
          (s : Setting)
          → settings c t (word 0 (words line)) (word 1 (words line)) (word 2 (words line)) ≡ s
          → sent (colon_line c t line).1 ≡ []
      split (settled t') e = rw (e, colon_line) refl
      split (bad what) e = rw (e, colon_line) refl

  run_line-IsOne :
      (h : Hub) (t : Console) (draws : List ℕ) (line : Bytes)
      → IsOne h ((run_line c h t draws line).0, (run_line c h t draws line).2)
  unfolding run_line help
  run_line-IsOne h t draws line =
      let P : Hub × Console × List Output → Type 0 = λ r. IsOne h (r.0, r.2) in
      both_branches P (equal line (codes "quit") || equal line (codes "exit")) _ _
        (inl (refl, refl))
        (both_branches P (equal line (codes "help") || equal line (codes "?")) _ _
          (inl (refl, refl))
          (both_branches P (is_colon line) _ _ (inl (refl, sent-colon_line t (drop 1 line))) (
            both_branches P (starts_with line (codes "send ")) _ _
              (send_file-IsOne h draws (trim (drop 5 line)))
              (run_words-IsOne h t draws line (words line)))))

  -- A key at the console makes at most one request, and makes it of every device: either nothing is
  -- sent and the hub stays as it was, or some session is open, the same message goes to each open
  -- session once, in their order, the message's id is remembered with a label, and nothing else of the hub
  -- changes.
  pub press-IsOne :
      (h : Hub) (t : Console) (draws : List ℕ) (key : Key)
      → IsOne h ((press c h t draws key).0, (press c h t draws key).2)
  unfolding press submit_input
  press-IsOne h t draws ctrl_d = inl (refl, refl)
  press-IsOne h t draws backspace = inl (refl, refl)
  press-IsOne h t draws up = inl (refl, refl)
  press-IsOne h t draws down = inl (refl, refl)
  press-IsOne h t draws view = inl (refl, refl)
  press-IsOne h t draws (printable ch) = inl (refl, refl)
  press-IsOne h t draws enter =
      both_branches (λ (r : Hub × Console × List Output). IsOne h (r.0, r.2))
        (is_empty (trim t.input)) _ _ (inl (refl, refl))
        (run_line-IsOne h (remember t (trim t.input)) draws (trim t.input))
