-- ===== src/Openvpn/Mgmt/Tables.antt =====
-- A whole routing table on the management interface.
use grace_server.Base.{
  ◌≡◌, refl, ap, ◌∙◌, inl, inr, Bool, true, false, not, ◌&&◌, ◌||◌, List, [], ◌∷◌, ◌++◌, arith,
  Bytes, codes, equal, is_empty, starts_with, if◌then◌else◌, Bool-cases,
}
use grace_server.Base.Every.{All}
use grace_server.Openvpn.Parse.{parse_routing_row, is_header}
use grace_server.Openvpn.Mgmt.{
  State, Effect, member, set_add, end_table, take_row, parse_mgmt_line, parse_line, parse_lines,
  chomp,
}
use grace_server.Openvpn.Mgmt.Tracking.{
  IsTracked, member-set_add, end_table_lem, parse_lines-IsTracked,
}

-- A line that is no log line and neither starts nor ends a table.
abbrev pub IsRow : Bytes → Type 0
IsRow line =
    (starts_with line (codes ">LOG:") ≡ false)
    × (equal line (codes "ROUTING TABLE") ≡ false)
    × ((equal line (codes "GLOBAL STATS") || equal line (codes "END")) ≡ false)

-- A row has the address.
abbrev pub row_has : Bytes → Bytes → Bool
row_has v line = not (is_empty (parse_routing_row line)) && equal (parse_routing_row line) v

-- Some row, without its '\r', does.
abbrev pub lists : Bytes → List Bytes → Bool
lists v [] = false
lists v (line ∷ rows) = row_has v (chomp line) || lists v rows

-- A table as it arrives, line by line.
abbrev pub table : List Bytes → List Bytes
table rows = codes "ROUTING TABLE" ∷ (rows ++ codes "END" ∷ [])

-- What a row does to a state: its address is among those read.
abbrev Reads : State → Bytes → State → Type 0
Reads s line s' =
    (p : List Bytes) × (s' ≡ record s { polled = p })
    × ((v : Bytes) → member v p ≡ (row_has v line || member v s.polled))

take_row-Reads : (s : State) (line : Bytes) → Reads s line (take_row s line)
unfolding take_row
take_row-Reads s line = elim (Bool-cases (is_empty (parse_routing_row line))) [
  | inl e ↦ rw e (s.polled, refl, λ v. refl)
  | inr e ↦ rw e (
    set_add (parse_routing_row line) s.polled,
    refl,
    λ v. member-set_add v (parse_routing_row line) s.polled,
  )
]

in_row :
    (a b c d : Bool) (x1 x2 x3 x4 x5 : State × List Effect)
    → a ≡ false
    → b ≡ false
    → c ≡ false
    → d ≡ true
    → (if a then x1 else if b then x2 else if c then x3 else if d then x4 else x5) ≡ x4
in_row a b c d x1 x2 x3 x4 x5 p q r t = rw (p, q, r, t) refl

parse_line-Reads :
    (s : State) (line : Bytes)
    → s.in_table ≡ true
    → IsRow (chomp line)
    → Reads s (chomp line) (parse_line s line).0
unfolding parse_line parse_mgmt_line parse_routing_row is_header
parse_line-Reads s line t i = split (chomp line) i
  where
    split :
        (l : Bytes) → IsRow l → Reads s l (if is_empty l then (s, []) else parse_mgmt_line s l).0
    split [] i = (s.polled, refl, λ v. refl)
    split (x ∷ xs) (p, q, r) =
        let (polled, e, m) = take_row-Reads s (x ∷ xs) in
        (polled, ap (λ y. y.0) (in_row _ _ _ _ _ _ _ _ _ p q r t) ∙ e, m)

parse_lines-rows :
    (s : State) (rows later : List Bytes)
    → s.in_table ≡ true
    → All (λ line. IsRow (chomp line)) rows
    → (p : List Bytes) × ((parse_lines s (rows ++ later)).0
        ≡ (parse_lines (record s { polled = p }) later).0)
      × ((v : Bytes) → member v p ≡ (lists v rows || member v s.polled))
unfolding parse_lines
parse_lines-rows s [] later t a = (s.polled, refl, λ v. refl)
parse_lines-rows s (line ∷ rows) later t (i, a) =
    let (p, e, m) = parse_line-Reads s line t i in
    let (p', e', m') = parse_lines-rows (record s { polled = p }) rows later t a in
    (p', ap (λ x. (parse_lines x (rows ++ later)).0) e ∙ e', λ v. ground (arith, m v, m' v))

parse_line_end : (s : State) → s.in_table ≡ true → (parse_line s (codes "END")).0 ≡ (end_table s).0
unfolding parse_line chomp parse_mgmt_line equal starts_with
parse_line_end s t = ap (λ (b : Bool). (if b then end_table s else (s, [])).0) t

parse_line_start :
    (s : State)
    → (parse_line s (codes "ROUTING TABLE")).0 ≡ record s { in_table = true; polled = [] }
unfolding parse_line chomp parse_mgmt_line equal starts_with
parse_line_start s = refl

parse_lines-table :
    (s : State) (rows : List Bytes)
    → All (λ line. IsRow (chomp line)) rows
    → (p : List Bytes) × ((parse_lines s (table rows)).0
        ≡ (end_table (record s { in_table = true; polled = p })).0)
      × ((v : Bytes) → member v p ≡ lists v rows)
unfolding parse_lines member
parse_lines-table s rows a =
    let s0 : State = record s { in_table = true; polled = [] } in
    let (p, e, m) = parse_lines-rows s0 rows (codes "END" ∷ []) refl a in
    (
      p,
      ap (λ x. (parse_lines x (rows ++ codes "END" ∷ [])).0) (parse_line_start s)
          ∙ e
          ∙ parse_line_end (record s { in_table = true; polled = p }) refl,
      λ v. ground (arith, m v),
    )

-- After a whole table, whose rows are no log lines and neither start nor end a table, exactly the
-- addresses in its rows have a subscription: those that came are added and those that went are
-- dropped, whatever was read before, if MQTT is enabled and the subscriptions were the active
-- clients; and then they are again.
pub table-IsTracked :
    (s : State) (rows : List Bytes) (v : Bytes)
    → IsTracked s
    → All (λ line. IsRow (chomp line)) rows
    → (member v (parse_lines s (table rows)).0.peers ≡ lists v rows)
      × IsTracked (parse_lines s (table rows)).0
table-IsTracked s rows v t a =
    let (p, e, m) = parse_lines-table s rows a in
    let after = parse_lines-IsTracked s (table rows) t in
    let s1 : State = record s { in_table = true; polled = p } in
    (after.1 v ∙ ap (λ (x : State). member v x.active) (e ∙ end_table_lem s1 t.0) ∙ m v, after)
