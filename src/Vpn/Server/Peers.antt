-- ===== src/Vpn/Server/Peers.antt =====
-- The peers, and the channels that hold an address.
use grace_server.Base.{
  ℕ, ◌≡◌, refl, sym, ap, subst, ◌∙◌, inl, inr, true, false, none, List, [], ◌∷◌, ◌++◌, arith,
  if◌then◌else◌, Bool-cases, Option-cases,
}
use grace_server.Base.Dict.{Dict, lookup, is_some, lookup-insert, lookup-erase}
use grace_server.Base.Keys.{num_key}
use grace_server.Vpn.Pool.{Pool, Inet, assign, assign_address, release}
use grace_server.Vpn.Pool.Conservation.{IsPool, step-IsPool, assigns, releases}
use grace_server.Vpn.Server.{
  Server, Peer, handle_connect, handle_close, emplace, vpn_peer, manage_client_route,
}

-- A channel has a peer exactly if it holds an address.
abbrev pub IsMatched : Server → Type 0
IsMatched s = (ch : ℕ) → is_some (lookup ch s.peers) ≡ is_some (lookup ch s.pool.assigned)

pub record IsServer (s : Server) : Type 0 where
  pub matched : IsMatched s
  pub pool_ok : IsPool s.pool

lookup-emplace :
    (ch j : ℕ) (p : Peer) (m : Dict ℕ Peer)
    → is_some (lookup j (emplace ch p m))
      ≡ (if num_key.beq ch j then true else is_some (lookup j m))
unfolding emplace
lookup-emplace ch j p m = elim (Bool-cases (is_some (lookup ch m))) [
  | inl e ↦ rw e (ground (arith, num_key.beq_iff ch j))
  | inr e ↦ rw e (ground (arith, lookup-insert ch j p m))
]

assign_address-lookup :
    (p : Pool) (ch j a : ℕ) (rest : List ℕ)
    → p.free ≡ a ∷ rest
    → is_some (lookup j (assign_address p ch).0.assigned)
      ≡ (if num_key.beq ch j then true else is_some (lookup j p.assigned))
unfolding assign_address
assign_address-lookup p ch j a rest e =
    rw (e, assign_address) (ground (arith, lookup-insert ch j a p.assigned))

release-lookup :
    (p : Pool) (ch j : ℕ)
    → is_some (lookup j (release p ch).assigned)
      ≡ (if num_key.beq ch j then false else is_some (lookup j p.assigned))
unfolding release
release-lookup p ch j = elim (Option-cases (lookup ch p.assigned)) [
  | inl e ↦ rw (e, release) (ground (arith, e, num_key.beq_iff ch j))
  | inr (a, e) ↦ rw (e, release) (ground (arith, lookup-erase ch j p.assigned))
]

-- The two outcomes of a connection, by whether an address is free.
handle_connect_none :
    (inet : Inet) (s : Server) (ch : ℕ) → s.pool.free ≡ [] → (handle_connect inet s ch).0 ≡ s
unfolding handle_connect assign assign_address
handle_connect_none inet s ch e = ground arith

handle_connect_some :
    (inet : Inet) (s : Server) (ch a : ℕ) (rest : List ℕ)
    → s.pool.free ≡ a ∷ rest
    → handle_connect inet s ch ≡ (
      record s {
        pool = (assign_address s.pool ch).0;
        peers = emplace ch (vpn_peer ch (inet.ntop a) s.netmask s.mqtt_cfg).0 s.peers;
      },
      true,
      (vpn_peer ch (inet.ntop a) s.netmask s.mqtt_cfg).1
          ++ manage_client_route s (inet.ntop a) true,
    )
unfolding handle_connect assign assign_address
handle_connect_some inet s ch a rest e = ground (arith, inet.ntop_nonempty a)

-- A connection on a channel that holds no address keeps the server well formed, whether an address
-- is free or not.
pub handle_connect-IsServer :
    (inet : Inet) (s : Server) (ch : ℕ)
    → IsServer s
    → lookup ch s.pool.assigned ≡ none
    → IsServer (handle_connect inet s ch).0
handle_connect-IsServer inet s ch v f = go s.pool.free refl
  where
    go : (free : List ℕ) → s.pool.free ≡ free → IsServer (handle_connect inet s ch).0
    go [] e = subst IsServer (sym (handle_connect_none inet s ch e)) v
    go (a ∷ rest) e =
        subst (λ r. IsServer (r.0)) (sym (handle_connect_some inet s ch a rest e))
          (record {
            matched = λ j.
                lookup-emplace ch j _ s.peers
                ∙ ap (λ b. if num_key.beq ch j then true else b) (v.matched j)
                ∙ sym (assign_address-lookup s.pool ch j a rest e);
            pool_ok = step-IsPool s.pool (assigns ch) v.pool_ok f;
          })

-- So does the end of a connection: the peer and the address go together.
pub handle_close-IsServer :
    (inet : Inet) (s : Server) (ch : ℕ) → IsServer s → IsServer (handle_close inet s ch).0
unfolding handle_close
handle_close-IsServer inet s ch v = record {
  matched = λ j. ground (arith, lookup-erase ch j s.peers, v.matched j, release-lookup s.pool ch j);
  pool_ok = step-IsPool s.pool (releases ch) v.pool_ok tt;
}
