-- ===== src/Config/Listeners/Ports.antt =====
-- Which tables of listeners are accepted, and as what.
use grace_server.Base.{
  ℕ, ◌≤◌, ◌<◌, ◌≡◌, ◌↔◌, refl, sym, ap, ◌∙◌, subst, inl, inr, true, false, none, some, List, [],
  ◌∷◌, ◌++◌, arith, Bytes, codes, is_empty, Bool-cases, Option-cases,
}
use grace_server.Gnmi.{ℤ, pos, negsuc}
use grace_server.Config.{
  nil_value, string_value, bool_value, uint_value, int_value, double_value, Entry, of_value,
  of_values, of_table, of_tables, Table, no_members, member, Result, ok, err, as_value,
  value_string, port_of,
}
use grace_server.Config.Listeners.{Listener, or_empty, consed, read_listeners}

-- A number that a port can have.
abbrev pub IsPort : ℕ → Type 0
IsPort p = (0 < p) × (p ≤ 65535)

pub port_of_iff : (i : ℤ) (p : ℕ) → (port_of i ≡ some p) ↔ ((i ≡ pos p) × IsPort p)
unfolding port_of
port_of_iff (negsuc n) p = (λ h. absurd (cc h), λ h. absurd (cc h.0))
port_of_iff (pos n) p = (λ h. ground arith, λ h. ground arith)

-- The listeners are those of the members, one each and in their order: the key's number is the
-- port, and the value, a text that is not empty, is the target.
abbrev pub Lists : (Bytes → ℤ) → Table → List Listener → Type 0
Lists strtol no_members [] = Unit
Lists strtol no_members (l ∷ ls) = ⊥
Lists strtol (member key e t) [] = ⊥
Lists strtol (member key e t) (l ∷ ls) =
    (strtol key ≡ pos l.port)
    × IsPort l.port
    × (e ≡ of_value (string_value l.target))
    × (is_empty l.target ≡ false)
    × Lists strtol t ls

target_of :
    (e : Entry) (s : Bytes)
    → or_empty (value_string (as_value (some e))) ≡ s
    → is_empty s ≡ false
    → e ≡ of_value (string_value s)
unfolding as_value value_string
target_of (of_value (string_value t)) s h n = ap (λ x. of_value (string_value x)) h
target_of (of_value nil_value) s h n = absurd (ground arith)
target_of (of_value (bool_value b)) s h n = absurd (ground arith)
target_of (of_value (uint_value b)) s h n = absurd (ground arith)
target_of (of_value (int_value b)) s h n = absurd (ground arith)
target_of (of_value (double_value b)) s h n = absurd (ground arith)
target_of (of_values vs) s h n = absurd (ground arith)
target_of (of_table t) s h n = absurd (ground arith)
target_of (of_tables t) s h n = absurd (ground arith)

text_of : (s : Bytes) → or_empty (value_string (as_value (some (of_value (string_value s))))) ≡ s
unfolding as_value value_string
text_of s = refl

module _ (strtol : Bytes → ℤ) where
  not_ok : {m : Bytes} {ls : List Listener} → err m ≡ ok ls → ⊥
  not_ok h = absurd (cc h)

  bad_port :
      (key : Bytes) (e : Entry) (t : Table)
      → port_of (strtol key) ≡ none
      → (m : Bytes) × (read_listeners strtol (member key e t) ≡ err m)
  unfolding read_listeners
  bad_port key e t q =
      (codes "listener port key invalid: '" ++ key ++ codes "'", rw (q, read_listeners) refl)

  bad_target :
      (key : Bytes) (e : Entry) (t : Table) (p : ℕ)
      → port_of (strtol key) ≡ some p
      → is_empty (or_empty (value_string (as_value (some e)))) ≡ true
      → (m : Bytes) × (read_listeners strtol (member key e t) ≡ err m)
  unfolding read_listeners
  bad_target key e t p q n =
      (codes "listener '" ++ key ++ codes "' has no target string", rw (q, read_listeners, n) refl)

  good_member :
      (key : Bytes) (e : Entry) (t : Table) (p : ℕ)
      → port_of (strtol key) ≡ some p
      → is_empty (or_empty (value_string (as_value (some e)))) ≡ false
      → read_listeners strtol (member key e t)
        ≡ consed
            (record { port = p; target = or_empty (value_string (as_value (some e))) })
            (read_listeners strtol t)
  unfolding read_listeners
  good_member key e t p q n = rw (q, read_listeners, n) refl

  consed_ok :
      (l : Listener) (r : Result (List Listener)) (ls : List Listener)
      → consed l r ≡ ok ls
      → (ls' : List Listener) × (r ≡ ok ls') × (l ∷ ls' ≡ ls)
  consed_ok l (ok ls') ls h = (ls', refl, ground arith)
  consed_ok l (err m) ls h = absurd (cc h)

  read_listeners-Lists :
      (t : Table) (ls : List Listener) → read_listeners strtol t ≡ ok ls → Lists strtol t ls
  unfolding read_listeners
  read_listeners-Lists no_members [] h = tt
  read_listeners-Lists no_members (l ∷ ls) h = absurd (ground arith)
  read_listeners-Lists (member key e t) ls h =
      let target = or_empty (value_string (as_value (some e))) in
      elim (Option-cases (port_of (strtol key))) [
        | inl q ↦ absurd (not_ok (sym (bad_port key e t q).1 ∙ h))
        | inr (p, q) ↦ elim (Bool-cases (is_empty target)) [
          | inl n ↦ absurd (not_ok (sym (bad_target key e t p q n).1 ∙ h))
          | inr n ↦
              let (ls', f, s) =
                consed_ok _ (read_listeners strtol t) ls (sym (good_member key e t p q n) ∙ h) in
              let (i, b) = (port_of_iff (strtol key) p).0 q in
              subst (Lists strtol (member key e t)) s
                (i, b, target_of e target refl n, n, read_listeners-Lists t ls' f)
        ]
      ]

  Lists-read_listeners :
      (t : Table) (ls : List Listener) → Lists strtol t ls → read_listeners strtol t ≡ ok ls
  unfolding read_listeners
  Lists-read_listeners no_members [] h = refl
  Lists-read_listeners no_members (l ∷ ls) h = absurd h
  Lists-read_listeners (member key e t) [] h = absurd h
  Lists-read_listeners (member key e t) (l ∷ ls) (i, b, f, n, h) =
      let same : or_empty (value_string (as_value (some e))) ≡ l.target =
        ap (λ x. or_empty (value_string (as_value (some x)))) f ∙ text_of l.target in
      good_member key e t l.port ((port_of_iff (strtol key) l.port).1 (i, b)) (ap is_empty same ∙ n)
      ∙ ap (λ s. consed (record { port = l.port; target = s }) (read_listeners strtol t)) same
      ∙ ap (consed l) (Lists-read_listeners t ls h)

-- A table of listeners is read as a list of listeners exactly if the list has one for each member,
-- in order, with the member's key as a port from 1 to 65535 and its value, a text that is not empty,
-- as the target. Any other table is refused.
pub read_listeners_iff :
    (strtol : Bytes → ℤ) (t : Table) (ls : List Listener)
    → (read_listeners strtol t ≡ ok ls) ↔ Lists strtol t ls
read_listeners_iff strtol t ls =
    (read_listeners-Lists strtol t ls, Lists-read_listeners strtol t ls)
