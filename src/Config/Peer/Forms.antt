-- ===== src/Config/Peer/Forms.antt =====
-- The two forms of an endpoint, and the ports that a configuration can have.
use grace_server.Base.{
  ℕ, ◌<◌, ◌^◌, ◌≡◌, ◌∙◌, refl, subst, inl, inr, false, ◌||◌, Option, none, some, ◌∷◌, ◌++◌, arith,
  ◌==◌, Bytes, codes, is_empty, equal, split_last, Option-cases, both_branches,
}
use grace_server.Base.Split.{Lacks, split_last-append}
use grace_server.Gnmi.{ℤ, pos, negsuc}
use grace_server.Config.{
  string_value, lua_integer, signed, Entry, of_value, of_values, of_table, of_tables, Table,
  no_members, member, Result, ok, err, find_member, as_table, as_value, value_string, value_int,
  port_of,
}
use grace_server.Config.Listeners.Ports.{IsPort, port_of_iff}
use grace_server.Config.Peer.{
  Endpoint, PeerConfig, port_from_long, resolve_text, resolve_table, resolve_entry,
  resolve_endpoint, resolve_side, load_peer_config,
}

-- A number that 32 bits with a sign can hold.
abbrev pub IsInt32 : ℤ → Type 0
IsInt32 (pos n) = n < 2 ^ 31
IsInt32 (negsuc n) = n < 2 ^ 31

value_int-lua_integer :
    (double_to_long : ℕ → ℤ) (i : ℤ)
    → IsInt32 i
    → value_int double_to_long (some (lua_integer i)) ≡ some i
unfolding value_int lua_integer signed
value_int-lua_integer double_to_long (pos n) h = ground arith
value_int-lua_integer double_to_long (negsuc n) h = ground arith

module _ (strtol : Bytes → ℤ) (double_to_long : ℕ → ℤ) where
  resolve_text-append :
      (host port who : Bytes)
      → is_empty host ≡ false
      → is_empty port ≡ false
      → Lacks b':' port
      → resolve_text strtol double_to_long (host ++ b':' ∷ port) who
        ≡ port_from_long host (strtol port) who
  unfolding resolve_text
  resolve_text-append host port who h p l =
      rw (split_last-append (λ c. c == b':') host port b':' refl l, resolve_text, h, p) refl

  -- The two forms of an endpoint mean the same: "host:port" is resolved, or refused, as the table
  -- with that host and the number that `strtol` reads of the port, if neither is empty, the port's
  -- text has no colon, and the number fits in 32 bits with a sign, as the Lua engine keeps it. The
  -- host may have some colons.
  pub resolve_entry_forms :
      (host port who : Bytes)
      → is_empty host ≡ false
      → is_empty port ≡ false
      → Lacks b':' port
      → IsInt32 (strtol port)
      → resolve_entry strtol double_to_long
          (some (of_value (string_value (host ++ b':' ∷ port))))
          who
        ≡ resolve_entry strtol double_to_long
            (some (
              of_table (
                member
                  (codes "ip")
                  (of_value (string_value host))
                  (member (codes "port") (of_value (lua_integer (strtol port))) no_members))))
            who
  unfolding resolve_entry value_string resolve_text resolve_table find_member as_value value_int
      equal
  resolve_entry_forms host port who h p l i =
      resolve_text-append host port who h p l
      ∙ both (strtol port) (value_int-lua_integer double_to_long (strtol port) i)
    where
      both :
          (n : ℤ)
          → value_int double_to_long (some (lua_integer n)) ≡ some n
          → port_from_long host n who
            ≡ resolve_entry strtol double_to_long
                (some (
                  of_table (
                    member
                      (codes "ip")
                      (of_value (string_value host))
                      (member (codes "port") (of_value (lua_integer n)) no_members))))
                who
      both n e = rw (e, resolve_table) refl

  -- An endpoint, if there is one, has a port.
  abbrev HasPort : Result Endpoint → Type 0
  HasPort (ok e) = IsPort e.port
  HasPort (err m) = Unit

  port_from_long-HasPort :
      (host : Bytes) (p : ℤ) (who : Bytes) → HasPort (port_from_long host p who)
  unfolding port_from_long
  port_from_long-HasPort host p who = elim (Option-cases (port_of p)) [
    | inl q ↦ rw (q, port_from_long) tt
    | inr (n, q) ↦ rw (q, port_from_long) ((port_of_iff p n).0 q).1
  ]

  resolve_text-HasPort : (s who : Bytes) → HasPort (resolve_text strtol double_to_long s who)
  unfolding resolve_text
  resolve_text-HasPort s who = elim (Option-cases (split_last (λ c. c == b':') s)) [
    | inl q ↦ rw (q, resolve_text) tt
    | inr ((host, port), q) ↦
        rw (q, resolve_text)
          (both_branches HasPort (is_empty host || is_empty port) _ _ tt
            (port_from_long-HasPort host (strtol port) who))
  ]

  resolve_table-HasPort :
      (t : Table) (who : Bytes) → HasPort (resolve_table strtol double_to_long t who)
  unfolding resolve_table
  resolve_table-HasPort t who =
      elim (Option-cases (value_string (as_value (find_member t (codes "ip"))))) [
        | inl q ↦ rw (q, resolve_table) tt
        | inr (ip, q) ↦
            elim (Option-cases
              (value_int double_to_long (as_value (find_member t (codes "port"))))) [
                | inl r ↦ rw (q, resolve_table, r) tt
                | inr (p, r) ↦ rw (q, resolve_table, r) (port_from_long-HasPort ip p who)
              ]
      ]

  resolve_entry-HasPort :
      (e : Option Entry) (who : Bytes) → HasPort (resolve_entry strtol double_to_long e who)
  unfolding resolve_entry
  resolve_entry-HasPort none who = tt
  resolve_entry-HasPort (some (of_value v)) who = elim (Option-cases (value_string (some v))) [
    | inl q ↦ rw (q, resolve_entry) tt
    | inr (s, q) ↦ rw (q, resolve_entry) (resolve_text-HasPort s who)
  ]
  resolve_entry-HasPort (some (of_values vs)) who = tt
  resolve_entry-HasPort (some (of_table t)) who = resolve_table-HasPort t who
  resolve_entry-HasPort (some (of_tables ts)) who = tt

  resolve_side-HasPort :
      (root : Table) (who : Bytes) → HasPort (resolve_side strtol double_to_long root who)
  unfolding resolve_side resolve_endpoint
  resolve_side-HasPort root who = elim (Option-cases (as_table (find_member root who))) [
    | inl q ↦ rw (q, resolve_side) tt
    | inr (t, q) ↦
        rw (q, resolve_side) (resolve_entry-HasPort (find_member t (codes "endpoint")) who)
  ]

  -- Both ends of a configuration that is accepted have a port from 1 to 65535.
  pub load_peer_config-IsPort :
      (path : Bytes) (root : Option Table) (cfg : PeerConfig)
      → load_peer_config strtol double_to_long path root ≡ ok cfg
      → IsPort cfg.local.port × IsPort cfg.remote.port
  unfolding load_peer_config
  load_peer_config-IsPort path none cfg h = absurd (cc h)
  load_peer_config-IsPort path (some root) cfg h =
      split (resolve_side strtol double_to_long root (codes "local")) refl
        (resolve_side strtol double_to_long root (codes "remote")) refl
    where
      split :
          (here : Result Endpoint)
          → resolve_side strtol double_to_long root (codes "local") ≡ here
          → (there : Result Endpoint)
          → resolve_side strtol double_to_long root (codes "remote") ≡ there
          → IsPort cfg.local.port × IsPort cfg.remote.port
      split (err m) p there q = absurd (ground arith)
      split (ok e) p (err m) q = absurd (ground arith)
      split (ok e) p (ok e') q =
          let a = subst HasPort p (resolve_side-HasPort root (codes "local")) in
          let b = subst HasPort q (resolve_side-HasPort root (codes "remote")) in
          let i : e ≡ cfg.local = ground arith in
          let j : e' ≡ cfg.remote = ground arith in
          (subst (λ (x : Endpoint). IsPort x.port) i a, subst (λ (x : Endpoint). IsPort x.port) j b)
