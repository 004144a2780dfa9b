-- ===== src/Openvpn/Mgmt/Tracking.antt =====
-- The clients with an MQTT subscription, and those that are active.
use grace_server.Base.{
  ◌≡◌, refl, sym, subst, ap, ◌∙◌, inl, inr, Bool, true, false, not, ◌&&◌, ◌||◌, List, [], ◌∷◌, ◌++◌,
  arith, Bytes, codes, equal, equal_iff, is_empty, starts_with, if◌then◌else◌, Bool-cases,
}
use grace_server.Base.Dict.{remove_if}
use grace_server.Openvpn.Parse.{parse_routing_row}
use grace_server.Wire.Stream.{drain_all}
use grace_server.Openvpn.Mgmt.{
  State, Reader, Effect, member, set_add, set_remove, on_client_connect, on_client_disconnect,
  connect_if_new, disconnect_if_gone, connect_new, disconnect_gone, end_table, take_row,
  parse_mgmt_line, parse_line, parse_lines, chomp, next_line, handle_read,
}

-- With MQTT, the peers are the active clients.
abbrev pub IsTracked : State → Type 0
IsTracked s = (s.mqtt ≡ true) × ((v : Bytes) → member v s.peers ≡ member v s.active)

pub member-append :
    (w : Bytes) (xs ys : List Bytes) → member w (xs ++ ys) ≡ (member w xs || member w ys)
unfolding member
member-append w [] ys = refl
member-append w (x ∷ xs) ys = ground (arith, member-append w xs ys)

pub member-set_add :
    (w v : Bytes) (xs : List Bytes) → member w (set_add v xs) ≡ (equal v w || member w xs)
unfolding member set_add
member-set_add w v xs = elim (Bool-cases (member v xs)) [
  | inl e ↦ elim (Bool-cases (equal v w)) [
    | inl q ↦ let same = (equal_iff v w).0 q in rw (e, q) (ground (arith, e, same))
    | inr q ↦ rw (e, q) refl
  ]
  | inr e ↦ rw (e, member-append w xs (v ∷ [])) (ground arith)
]

member-set_remove :
    (w v : Bytes) (xs : List Bytes) → member w (set_remove v xs) ≡ (not (equal v w) && member w xs)
unfolding member set_remove remove_if
member-set_remove w v [] = ground arith
member-set_remove w v (x ∷ xs) =
    ground (arith, member-set_remove w v xs, equal_iff x v, equal_iff v w, equal_iff x w)

-- What the two loops do to the peers.
abbrev pub grow : List Bytes → List Bytes → List Bytes → List Bytes
grow act ps [] = ps
grow act ps (v ∷ vs) = grow act (if member v act then ps else set_add v ps) vs

abbrev pub shrink : List Bytes → List Bytes → List Bytes → List Bytes
shrink pol ps [] = ps
shrink pol ps (v ∷ vs) = shrink pol (if member v pol then ps else set_remove v ps) vs

connect_if_new_lem :
    (s : State) (v : Bytes)
    → s.mqtt ≡ true
    → (connect_if_new s v).0
      ≡ record s { peers = if member v s.active then s.peers else set_add v s.peers }
unfolding connect_if_new on_client_connect set_add
connect_if_new_lem s v m = elim (Bool-cases (member v s.active)) [
  | inl a ↦ rw a refl
  | inr a ↦ elim (Bool-cases (member v s.peers)) [
    | inl p ↦ rw (a, m, p) refl
    | inr p ↦ rw (a, m, p) refl
  ]
]

pub connect_new_lem :
    (s : State) (vs : List Bytes)
    → s.mqtt ≡ true
    → (connect_new s vs).0 ≡ record s { peers = grow s.active s.peers vs }
unfolding connect_new
connect_new_lem s [] m = refl
connect_new_lem s (v ∷ vs) m =
    ap (λ t. (connect_new t vs).0) (connect_if_new_lem s v m)
    ∙ connect_new_lem
        (record s { peers = if member v s.active then s.peers else set_add v s.peers }) vs m

disconnect_if_gone_lem :
    (s : State) (v : Bytes)
    → (disconnect_if_gone s v).0
      ≡ record s { peers = if member v s.polled then s.peers else set_remove v s.peers }
unfolding disconnect_if_gone on_client_disconnect
disconnect_if_gone_lem s v = elim (Bool-cases (member v s.polled)) [
  | inl a ↦ rw a refl
  | inr a ↦ rw a refl
]

pub disconnect_gone_lem :
    (s : State) (vs : List Bytes)
    → (disconnect_gone s vs).0 ≡ record s { peers = shrink s.polled s.peers vs }
unfolding disconnect_gone
disconnect_gone_lem s [] = refl
disconnect_gone_lem s (v ∷ vs) =
    ap (λ t. (disconnect_gone t vs).0) (disconnect_if_gone_lem s v)
    ∙ disconnect_gone_lem
        (record s { peers = if member v s.polled then s.peers else set_remove v s.peers }) vs

member-grow :
    (w : Bytes) (act ps vs : List Bytes)
    → member w (grow act ps vs) ≡ (member w ps || (member w vs && not (member w act)))
unfolding member
member-grow w act ps [] = ground arith
member-grow w act ps (v ∷ vs) = elim (Bool-cases (member v act)) [
  | inl a ↦ rw a (ground (arith, member-grow w act ps vs, equal_iff v w, a))
  | inr a ↦
      rw a (
        ground
          (arith, member-grow w act (set_add v ps) vs, member-set_add w v ps, equal_iff v w, a))
]

member-shrink :
    (w : Bytes) (pol ps vs : List Bytes)
    → member w (shrink pol ps vs) ≡ (member w ps && not (member w vs && not (member w pol)))
unfolding member
member-shrink w pol ps [] = ground arith
member-shrink w pol ps (v ∷ vs) = elim (Bool-cases (member v pol)) [
  | inl a ↦ rw a (ground (arith, member-shrink w pol ps vs, equal_iff v w, a))
  | inr a ↦ rw a (
      ground (
        arith,
        member-shrink w pol (set_remove v ps) vs,
        member-set_remove w v ps,
        equal_iff v w,
        a,
      ))
]

pub end_table_lem :
    (s : State)
    → s.mqtt ≡ true
    → (end_table s).0 ≡ record s {
      in_table = false;
      peers = shrink s.polled (grow s.active s.peers s.polled) s.active;
      active = s.polled;
    }
unfolding end_table
end_table_lem s m =
    ap (λ (t : State). record ((disconnect_gone t s.active).0) { active = s.polled })
      (connect_new_lem (record s { in_table = false }) s.polled m)
    ∙ ap (λ (t : State). record t { active = s.polled }) (disconnect_gone_lem _ s.active)

-- At the end of a table, the peers are its addresses, if before they were the active clients.
end_table-IsTracked : (s : State) → IsTracked s → IsTracked (end_table s).0
end_table-IsTracked s (m, t) = subst IsTracked (sym (end_table_lem s m)) (
  m,
  λ v. ground (
    arith,
    member-shrink v s.polled (grow s.active s.peers s.polled) s.active,
    member-grow v s.active s.peers s.polled,
    t v,
  ),
)

if-IsTracked :
    (b : Bool) (x y : State × List Effect)
    → IsTracked x.0
    → IsTracked y.0
    → IsTracked (if b then x else y).0
if-IsTracked true x y h k = h
if-IsTracked false x y h k = k

take_row-IsTracked : (s : State) (line : Bytes) → IsTracked s → IsTracked (take_row s line)
unfolding take_row
take_row-IsTracked s line t = elim (Bool-cases (is_empty (parse_routing_row line))) [
  | inl e ↦ rw (e, take_row) t
  | inr e ↦ rw (e, take_row) t
]

parse_mgmt_line-IsTracked :
    (s : State) (line : Bytes) → IsTracked s → IsTracked (parse_mgmt_line s line).0
unfolding parse_mgmt_line take_row
parse_mgmt_line-IsTracked s line t = if-IsTracked (starts_with line (codes ">LOG:")) _ _ t (
    if-IsTracked (equal line (codes "ROUTING TABLE")) _ _ t (
      if-IsTracked (equal line (codes "GLOBAL STATS") || equal line (codes "END")) _ _
        (if-IsTracked s.in_table _ _ (end_table-IsTracked s t) t)
        (if-IsTracked s.in_table _ _ (take_row-IsTracked s line t) t)))

pub parse_line-IsTracked :
    (s : State) (line : Bytes) → IsTracked s → IsTracked (parse_line s line).0
unfolding parse_line
parse_line-IsTracked s line t = elim (Bool-cases (is_empty (chomp line))) [
  | inl e ↦ rw (e, parse_line) t
  | inr e ↦ rw (e, parse_line) (parse_mgmt_line-IsTracked s (chomp line) t)
]

pub parse_lines-IsTracked :
    (s : State) (ls : List Bytes) → IsTracked s → IsTracked (parse_lines s ls).0
unfolding parse_lines
parse_lines-IsTracked s [] t = t
parse_lines-IsTracked s (l ∷ ls) t =
    parse_lines-IsTracked (parse_line s l).0 ls (parse_line-IsTracked s l t)

-- With MQTT enabled, if the clients with a subscription are the active ones, they still are after any bytes from the management interface.
handle_read-IsTracked :
    (m : Reader) (bytes : Bytes) (dry_run : Bool)
    → IsTracked m.clients
    → IsTracked (handle_read m bytes dry_run).0.clients
unfolding handle_read
handle_read-IsTracked m bytes true t = t
handle_read-IsTracked m bytes false t =
    parse_lines-IsTracked m.clients (drain_all next_line (m.buf ++ bytes)).0 t
