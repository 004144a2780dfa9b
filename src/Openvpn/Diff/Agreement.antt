-- ===== src/Openvpn/Diff/Agreement.antt =====
-- The copy that the unit tests run, beside the server.
use grace_server.Base.{
  ◌≡◌, refl, sym, subst, ap, ◌∙◌, inl, inr, Bool, true, false, ◌||◌, List, [], ◌∷◌, ◌++◌, map,
  arith, Bytes, codes, equal, equal_iff, is_empty, starts_with, if◌then◌else◌, Bool-cases,
  both_branches, tested_branches,
}
use grace_server.Openvpn.Parse.{parse_routing_row, is_header}
use grace_server.Openvpn.Mgmt.{
  State, Effect, mqtt_connect, mqtt_subscribe, publish, push_async, log, member, set_add, end_table,
  take_row, parse_mgmt_line, parse_line, parse_lines, chomp,
}
use grace_server.Openvpn.Mgmt.Tracking.{member-append, end_table_lem, parse_line-IsTracked}
use grace_server.Openvpn.Diff.{Diff, Result, nothing, missing, close_table, feed_row, feed}
use grace_server.Openvpn.Diff.Effects.{
  of_server, welcome, farewell, told, without_logs, IsUnique, IsReporting, AreNew, end_table-told,
}

without_logs-append :
    (xs ys : List Effect) → without_logs (xs ++ ys) ≡ without_logs xs ++ without_logs ys
without_logs-append [] ys = refl
without_logs-append (log line ∷ xs) ys = without_logs-append xs ys
without_logs-append (mqtt_connect c ∷ xs) ys = ap (◌∷◌ (mqtt_connect c)) (without_logs-append xs ys)
without_logs-append (mqtt_subscribe c ∷ xs) ys =
    ap (◌∷◌ (mqtt_subscribe c)) (without_logs-append xs ys)
without_logs-append (publish t p r ∷ xs) ys = ap (◌∷◌ (publish t p r)) (without_logs-append xs ys)
without_logs-append (push_async a b c ∷ xs) ys =
    ap (◌∷◌ (push_async a b c)) (without_logs-append xs ys)

without_logs-welcome : (vs : List Bytes) → without_logs (welcome vs) ≡ welcome vs
without_logs-welcome [] = refl
without_logs-welcome (v ∷ vs) = ap (λ es. welcome (v ∷ []) ++ es) (without_logs-welcome vs)

without_logs-farewell : (vs : List Bytes) → without_logs (farewell vs) ≡ farewell vs
without_logs-farewell [] = refl
without_logs-farewell (v ∷ vs) = ap (λ es. farewell (v ∷ []) ++ es) (without_logs-farewell vs)

without_logs-told : (r : Result) → without_logs (told r) ≡ told r
without_logs-told r =
    without_logs-append (welcome r.connected) (farewell r.disconnected)
    ∙ ap (λ es. es ++ without_logs (farewell r.disconnected)) (without_logs-welcome r.connected)
    ∙ ap (λ es. welcome r.connected ++ es) (without_logs-farewell r.disconnected)

IsUnique-append :
    (v : Bytes) (xs : List Bytes) → member v xs ≡ false → IsUnique xs → IsUnique (xs ++ v ∷ [])
unfolding member
IsUnique-append v [] m u = (refl, tt)
IsUnique-append v (x ∷ xs) m (n, u) = (
  ground (arith, member-append x xs (v ∷ []), n, m, equal_iff v x, equal_iff x v),
  IsUnique-append v xs (ground arith) u,
)

IsUnique-set_add : (v : Bytes) (xs : List Bytes) → IsUnique xs → IsUnique (set_add v xs)
unfolding set_add
IsUnique-set_add v xs u =
    tested_branches IsUnique (member v xs) _ _ (λ e. u) (λ e. IsUnique-append v xs e u)

AreNew-unique :
    (s : State) (vs : List Bytes)
    → ((v : Bytes) → member v s.peers ≡ member v s.active)
    → IsUnique vs
    → AreNew s vs
AreNew-unique s [] t u = tt
AreNew-unique s (v ∷ vs) t (n, u) = (λ q. t v ∙ q, n, AreNew-unique s vs t u)

-- The copy's next state and result are what the server's step shows of them.
abbrev Agrees : State × List Effect → Diff × Result → Type 0
Agrees r q =
    (q.0 ≡ of_server r.0)
    × (without_logs r.1 ≡ told q.1)
    × (r.0.event_mqtt ≡ true)
    × IsUnique r.0.polled

if-Agrees :
    (b : Bool) (x y : State × List Effect) (p q : Diff × Result)
    → Agrees x p
    → Agrees y q
    → Agrees (if b then x else y) (if b then p else q)
if-Agrees true x y p q h k = h
if-Agrees false x y p q h k = k

end_table-Agrees :
    (s : State)
    → IsReporting s
    → Agrees (end_table s) (close_table (record (of_server s) { in_table = true }))
unfolding close_table
end_table-Agrees s ((m, t), e, u) =
    let r : Result = record {
      connected = missing s.active s.polled;
      disconnected = missing s.polled s.active;
    } in
    let events =
      end_table-told s m e (AreNew-unique (record s { in_table = false }) s.polled t u) in
    (
      ap of_server (sym (end_table_lem s m)),
      ap without_logs events ∙ without_logs-told r,
      ap (λ (x : State). x.event_mqtt) (end_table_lem s m) ∙ e,
      subst (λ (x : State). IsUnique x.polled) (sym (end_table_lem s m)) u,
    )

take_row-Agrees :
    (s : State) (line : Bytes)
    → IsReporting s
    → Agrees (take_row s line, []) (feed_row (of_server s) line, nothing)
unfolding take_row feed_row
take_row-Agrees s line (t, e, u) = elim (Bool-cases (is_empty (parse_routing_row line))) [
  | inl q ↦ rw q (refl, refl, e, u)
  | inr q ↦ rw q (refl, refl, e, IsUnique-set_add (parse_routing_row line) s.polled u)
]

parse_mgmt_line-Agrees :
    (s : State) (line : Bytes)
    → IsReporting s
    → Agrees (parse_mgmt_line s line) (feed (of_server s) line)
unfolding parse_mgmt_line feed close_table
parse_mgmt_line-Agrees s line i =
    let (t, e, u) = i in
    if-Agrees (starts_with line (codes ">LOG:")) _ _ _ _ (refl, refl, e, u)
      (if-Agrees (equal line (codes "ROUTING TABLE")) _ _ _ _ (refl, refl, e, tt)
        (if-Agrees (equal line (codes "GLOBAL STATS") || equal line (codes "END")) _ _ _ _
          (if-Agrees s.in_table _ _ _ _ (end_table-Agrees s i) (refl, refl, e, u))
          (if-Agrees s.in_table _ _ _ _ (take_row-Agrees s line i) (refl, refl, e, u))))

-- An empty line, which the server does not look at, is nothing to the copy.
feed_empty : (d : Diff) → feed d [] ≡ (d, nothing)
unfolding feed feed_row parse_routing_row is_header starts_with equal
feed_empty d = both_branches (λ r. r ≡ (d, nothing)) d.in_table _ _ refl refl

parse_line-Agrees :
    (s : State) (line : Bytes)
    → IsReporting s
    → Agrees (parse_line s line) (feed (of_server s) (chomp line))
unfolding parse_line
parse_line-Agrees s line i = split (chomp line) i
  where
    split :
        (l : Bytes)
        → IsReporting s
        → Agrees (if is_empty l then (s, []) else parse_mgmt_line s l) (feed (of_server s) l)
    split [] (t, e, u) = subst (Agrees (s, [])) (sym (feed_empty (of_server s))) (refl, refl, e, u)
    split (x ∷ xs) j = parse_mgmt_line-Agrees s (x ∷ xs) j

-- The copy fed one line after the other, and what its results mean for the server.
abbrev pub reports : Diff → List Bytes → Diff × List Effect
reports d [] = (d, [])
reports d (l ∷ ls) = let r = feed d l in let rest = reports r.0 ls in (rest.0, told r.1 ++ rest.1)

-- The copy that the unit tests run follows the server. From a server with MQTT and the publisher of
-- events up, whose subscriptions are the active clients' and whose addresses read so far are distinct: fed the same lines without their '\r', the copy ends with the server's table, and
-- what the server does, its log apart, is a connection, a subscription and a retained event for each
-- address that the copy reports as connected, and an empty retained event for each that it
-- reports as disconnected, in the same order.
pub parse_lines-reports :
    (s : State) (ls : List Bytes)
    → IsReporting s
    → ((reports (of_server s) (map chomp ls)).0 ≡ of_server (parse_lines s ls).0)
      × (without_logs (parse_lines s ls).1 ≡ (reports (of_server s) (map chomp ls)).1)
unfolding parse_lines
parse_lines-reports s [] i = (refl, refl)
parse_lines-reports s (l ∷ ls) i =
    let (d, es, e, u) = parse_line-Agrees s l i in
    let after = (parse_line s l).0 in
    let (d', es') = parse_lines-reports after ls (parse_line-IsTracked s l i.0, e, u) in
    let later : Diff → Diff × List Effect = λ x. reports x (map chomp ls) in
    (
      ap (λ x. (later x).0) d ∙ d',
      without_logs-append (parse_line s l).1 (parse_lines after ls).1
          ∙ ap (λ xs. xs ++ without_logs (parse_lines after ls).1) es
          ∙ ap (λ xs. told (feed (of_server s) (chomp l)).1 ++ xs)
              (es' ∙ ap (λ x. (later x).1) (sym d)),
    )
