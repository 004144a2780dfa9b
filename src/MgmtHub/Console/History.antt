-- ===== src/MgmtHub/Console/History.antt =====
-- The position in the history of commands.
use grace_server.Base.{
  ℕ, zero, suc, ◌+◌, ◌-◌, ◌≤◌, ◌<◌, ◌≡◌, refl, ap, subst, inl, inr, false, not, ◌&&◌, ◌||◌, some,
  List, [], ◌∷◌, arith, tests, length, drop, ltb, ◌==◌, Bytes, codes, equal, is_empty, starts_with,
  Bool-cases, both_branches, tested_branches, ◌⊎◌,
}
use grace_server.Gnmi.Command.{trim, parse_duration_ns}
use grace_server.MgmtHub.{Hub}
use grace_server.MgmtHub.Console.{Console, Output, Codec, words}
use grace_server.MgmtHub.Console.Line.{
  colon_line, settings, Setting, settled, bad, set_timeout, is_colon, run_line, remember,
  submit_input, Key, ctrl_d, enter, backspace, up, down, view, printable, press, handle_keys, word,
  recall_up, recall_down, get_elem?,
}

-- The index is that of a command, or one past the newest.
abbrev pub InHistory : Console → Type 0
InHistory t = t.hist_idx ≤ length t.history

pub get_elem?-in :
    (xs : List Bytes) (i : ℕ) → i < length xs → (x : Bytes) × (get_elem? xs i ≡ some x)
get_elem?-in [] i h = absurd (omega arith)
get_elem?-in (x ∷ xs) zero h = (x, refl)
get_elem?-in (x ∷ xs) (suc i) h = get_elem?-in xs i (omega arith)

-- A console whose history and position are those of another.
abbrev Same : Console → Console → Type 0
Same t t' = (t'.hist_idx ≡ t.hist_idx) × (t'.history ≡ t.history)

abbrev Keeps : Console → Setting → Type 0
Keeps t (settled t') = Same t t'
Keeps t (bad what) = Unit

settings-Keeps :
    (c : Codec) (t : Console) (verb key val : Bytes) → Keeps t (settings c t verb key val)
unfolding settings set_timeout
settings-Keeps c t verb key val =
    let P = Keeps t in
    let is_set = equal verb (codes "set") in
    let ns = parse_duration_ns c.scaled val in
    both_branches P (is_set && (equal key (codes "cec_cli") || equal key (codes "cec"))) _ _
      (refl, refl)
      (both_branches P (is_set && equal key (codes "json")) _ _ (refl, refl)
        (both_branches P (is_set && equal key (codes "timeout")) _ _
          (both_branches P (ns == 0 && not (equal val (codes "0"))) _ _ tt (refl, refl))
          (both_branches P (equal verb (codes "reset")) _ _ (refl, refl)
            (both_branches P (equal verb (codes "show")) _ _ (refl, refl) tt))))

colon_line-Same : (c : Codec) (t : Console) (line : Bytes) → Same t (colon_line c t line).0
unfolding colon_line
colon_line-Same c t line =
    split (settings c t (word 0 (words line)) (word 1 (words line)) (word 2 (words line))) refl
  where
    split :
        (s : Setting)
        → settings c t (word 0 (words line)) (word 1 (words line)) (word 2 (words line)) ≡ s
        → Same t (colon_line c t line).0
    split (settled t') e =
        rw (e, colon_line)
          (subst (Keeps t) e
            (settings-Keeps c t (word 0 (words line)) (word 1 (words line)) (word 2 (words line))))
    split (bad what) e = rw (e, colon_line) (refl, refl)

run_line-Same :
    (c : Codec) (h : Hub) (t : Console) (draws : List ℕ) (line : Bytes)
    → Same t (run_line c h t draws line).1
unfolding run_line
run_line-Same c h t draws line =
    let P : Hub × Console × List Output → Type 0 = λ r. Same t r.1 in
    both_branches P (equal line (codes "quit") || equal line (codes "exit")) _ _ (refl, refl)
      (both_branches P (equal line (codes "help") || equal line (codes "?")) _ _ (refl, refl)
        (both_branches P (is_colon line) _ _ (colon_line-Same c t (drop 1 line))
          (both_branches P (starts_with line (codes "send ")) _ _ (refl, refl) (refl, refl))))

recall_up-InHistory : (unread : Bytes) (t : Console) → InHistory t → InHistory (recall_up unread t)
unfolding recall_up
recall_up-InHistory unread t h =
    both_branches InHistory (not (is_empty t.history) && ltb 0 t.hist_idx) _ _ (omega arith) h

recall_down-InHistory :
    (unread : Bytes) (t : Console) → InHistory t → InHistory (recall_down unread t)
unfolding recall_down
recall_down-InHistory unread t h =
    tested_branches InHistory (ltb t.hist_idx (length t.history)) _ _ (λ e. omega tests) (λ e. h)

submit_input-InHistory :
    (c : Codec) (h : Hub) (t : Console) (draws : List ℕ)
    → InHistory t
    → InHistory (submit_input c h t draws).1
unfolding submit_input remember
submit_input-InHistory c h t draws i =
    let same = run_line-Same c h (remember t (trim t.input)) draws (trim t.input) in
    both_branches (λ (r : Hub × Console × List Output). InHistory r.1) (is_empty (trim t.input)) _ _
      i (omega (arith, same.0, ap length same.1))

recalls :
    (unread : Bytes) (t : Console)
    → InHistory t
    → (t.hist_idx ≡ 0)
      ⊎ ((line : Bytes) × (get_elem? t.history (t.hist_idx - 1) ≡ some line)
          × ((recall_up unread t).input ≡ line))
unfolding recall_up
recalls unread t i = elim (Bool-cases (ltb 0 t.hist_idx)) [
  | inr e ↦ inl (ground arith)
  | inl e ↦
      let positive : 0 < t.hist_idx = omega tests in
      let (line, f) = get_elem?-in t.history (t.hist_idx - 1) (omega arith) in
      inr (
        line,
        f,
        tested_branches (λ (x : Console). x.input ≡ line)
            (not (is_empty t.history) && ltb 0 t.hist_idx) _ _ (λ g. rw f refl)
            (λ g. absurd (nonempty t.history t.hist_idx i positive g)),
      )
]
  where
    nonempty :
        (xs : List Bytes) (n : ℕ)
        → n ≤ length xs
        → 0 < n
        → (not (is_empty xs) && ltb 0 n) ≡ false
        → ⊥
    nonempty [] n l p g = absurd (omega arith)
    nonempty (x ∷ xs) n l p g = absurd (ground arith)

recalls_down :
    (unread : Bytes) (t : Console)
    → InHistory t
    → ((t.hist_idx ≡ length t.history) × (recall_down unread t ≡ t))
      ⊎ ((t.hist_idx + 1 ≡ length t.history)
          × ((recall_down unread t).hist_idx ≡ t.hist_idx + 1)
          × ((recall_down unread t).input ≡ []))
      ⊎ ((line : Bytes) × (get_elem? t.history (t.hist_idx + 1) ≡ some line)
          × ((recall_down unread t).hist_idx ≡ t.hist_idx + 1)
          × ((recall_down unread t).input ≡ line))
unfolding recall_down
recalls_down unread t i = elim (Bool-cases (ltb t.hist_idx (length t.history))) [
  | inr e ↦ inl (ground arith, rw e refl)
  | inl e ↦ elim (Bool-cases (ltb (t.hist_idx + 1) (length t.history))) [
    | inr f ↦
        let before : t.hist_idx < length t.history = omega tests in
        inr (inl (ground arith, rw e refl, rw (e, f) refl))
    | inl f ↦
        let (line, g) = get_elem?-in t.history (t.hist_idx + 1) (omega tests) in
        inr (inr (line, g, rw e refl, rw (e, f, g) refl))
  ]
]

press-InHistory :
    (c : Codec) (h : Hub) (t : Console) (draws : List ℕ) (key : Key)
    → InHistory t
    → InHistory (press c h t draws key).1
unfolding press
press-InHistory c h t draws ctrl_d i = i
press-InHistory c h t draws enter i = submit_input-InHistory c h t draws i
press-InHistory c h t draws backspace i = i
press-InHistory c h t draws up i = recall_up-InHistory c.unread t i
press-InHistory c h t draws down i = recall_down-InHistory c.unread t i
press-InHistory c h t draws view i = i
press-InHistory c h t draws (printable ch) i = i

handle_keys-InHistory :
    (c : Codec) (h : Hub) (t : Console) (keys : List (List ℕ × Key))
    → InHistory t
    → InHistory (handle_keys c h t keys).1
unfolding handle_keys
handle_keys-InHistory c h t [] i = i
handle_keys-InHistory c h t ((draws, ctrl_d) ∷ later) i = i
handle_keys-InHistory c h t ((draws, enter) ∷ later) i =
    handle_keys-InHistory c (press c h t draws enter).0 (press c h t draws enter).1 later
      (press-InHistory c h t draws enter i)
handle_keys-InHistory c h t ((draws, backspace) ∷ later) i =
    handle_keys-InHistory c (press c h t draws backspace).0 (press c h t draws backspace).1 later
      (press-InHistory c h t draws backspace i)
handle_keys-InHistory c h t ((draws, up) ∷ later) i =
    handle_keys-InHistory c (press c h t draws up).0 (press c h t draws up).1 later
      (press-InHistory c h t draws up i)
handle_keys-InHistory c h t ((draws, down) ∷ later) i =
    handle_keys-InHistory c (press c h t draws down).0 (press c h t draws down).1 later
      (press-InHistory c h t draws down i)
handle_keys-InHistory c h t ((draws, view) ∷ later) i =
    handle_keys-InHistory c (press c h t draws view).0 (press c h t draws view).1 later
      (press-InHistory c h t draws view i)
handle_keys-InHistory c h t ((draws, printable ch) ∷ later) i =
    handle_keys-InHistory c (press c h t draws (printable ch)).0
      (press c h t draws (printable ch)).1 later (press-InHistory c h t draws (printable ch) i)

-- What the keys for the previous and the next command recall: a command that is in the history;
-- only at the oldest is there none before, and past the newest the line is empty. `unread`
-- is what a read out of range would give.
abbrev pub Recalls : Bytes → Console → Type 0
Recalls unread t =
    ((t.hist_idx ≡ 0)
      ⊎ ((line : Bytes) × (get_elem? t.history (t.hist_idx - 1) ≡ some line)
          × ((recall_up unread t).input ≡ line)))
    × (((t.hist_idx ≡ length t.history) × (recall_down unread t ≡ t))
        ⊎ ((t.hist_idx + 1 ≡ length t.history)
            × ((recall_down unread t).hist_idx ≡ t.hist_idx + 1)
            × ((recall_down unread t).input ≡ []))
        ⊎ ((line : Bytes) × (get_elem? t.history (t.hist_idx + 1) ≡ some line)
            × ((recall_down unread t).hist_idx ≡ t.hist_idx + 1)
            × ((recall_down unread t).input ≡ line)))

-- The history is never read out of range, whatever such a read would give: after any keys, from a console whose position is in its
-- history or just past the newest command, such as an empty one, it still is. Then, if it is not at
-- the oldest command, there is a command before it, which the key for it recalls; and the key for
-- the next command recalls the command behind it, or empties the line if there is none, or, past
-- the newest, does nothing.
pub handle_keys_recall :
    (c : Codec) (h : Hub) (t : Console) (keys : List (List ℕ × Key))
    → InHistory t
    → InHistory (handle_keys c h t keys).1 × Recalls c.unread (handle_keys c h t keys).1
handle_keys_recall c h t keys i =
    let after = handle_keys-InHistory c h t keys i in
    let t' = (handle_keys c h t keys).1 in
    (after, (recalls c.unread t' after, recalls_down c.unread t' after))
