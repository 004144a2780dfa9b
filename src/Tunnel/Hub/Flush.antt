-- ===== src/Tunnel/Hub/Flush.antt =====
-- What becomes of the bytes that a bridge holds back.
use grace_server.Base.{
  ℕ, ◌≡◌, refl, sym, ap, ◌∙◌, inl, inr, Bool, true, false, ◌||◌, some, List, [], ◌∷◌, ◌++◌,
  append-nil, subst, arith, Bytes, Bool-cases, is_empty,
}
use grace_server.Base.Dict.{lookup, lookup-insert_self}
use grace_server.Base.Keys.{num_key}
use grace_server.Tunnel.Hub.Messages.{Encoding}
use grace_server.Tunnel.Hub.{Hub, Bridge, pair, pair_tunnel, accept_bytes, from_operator}
use grace_server.Tunnel.Hub.Table.{IsLinked}
use grace_server.Tunnel.Hub.Relay.{
  Arrival, bytes_come, stream_comes, arrive, arrivals, sent_bytes, Carries, arrivals_relay,
  linked_paired, stream_of,
}

-- The device's stream is among the arrivals.
abbrev pub has_stream : List Arrival → Bool
has_stream [] = false
has_stream (bytes_come bs ∷ later) = has_stream later
has_stream (stream_comes g sid ∷ later) = true

-- The bridge that an arrival leaves.
abbrev arrived : Encoding → Bridge → Arrival → Bridge
arrived enc b (bytes_come bs) = (accept_bytes enc b bs).0
arrived enc b (stream_comes g sid) = (pair enc b g sid).0

arrive-lookup :
    (enc : Encoding) (tag : ℕ) (h : Hub) (b : Bridge) (a : Arrival)
    → lookup tag h.bridges ≡ some b
    → lookup tag (arrive enc tag h a).0.bridges ≡ some (arrived enc b a)
unfolding from_operator pair_tunnel
arrive-lookup enc tag h b (bytes_come bs) e =
    rw (e, from_operator) (lookup-insert_self tag _ h.bridges)
arrive-lookup enc tag h b (stream_comes g sid) e =
    rw (e, pair_tunnel) (lookup-insert_self tag _ h.bridges)

paired-accept_bytes :
    (enc : Encoding) (b : Bridge) (bs : Bytes) → (accept_bytes enc b bs).0.paired ≡ b.paired
unfolding accept_bytes
paired-accept_bytes enc b bs = elim (Bool-cases b.paired) [ inl e ↦ rw e refl | inr e ↦ rw e refl ]

paired-pair : (enc : Encoding) (b : Bridge) (g sid : ℕ) → (pair enc b g sid).0.paired ≡ true
unfolding pair
paired-pair enc b g sid = elim (Bool-cases (is_empty b.buffered)) [
  | inl e ↦ rw e refl
  | inr e ↦ rw e refl
]

or_true : (b : Bool) → (b || true) ≡ true
or_true true = refl
or_true false = refl

-- A stream among the arrivals pairs the bridge, and nothing that arrives undoes it.
arrivals-paired :
    (enc : Encoding) (tag : ℕ) (h : Hub) (b : Bridge) (events : List Arrival)
    → lookup tag h.bridges ≡ some b
    → (b.paired || has_stream events) ≡ true
    → (b' : Bridge) × (lookup tag (arrivals enc tag h events).0.bridges ≡ some b')
      × (b'.paired ≡ true)
arrivals-paired enc tag h b [] e p = (b, e, ground arith)
arrivals-paired enc tag h b (bytes_come bs ∷ later) e p =
    arrivals-paired enc tag (arrive enc tag h (bytes_come bs)).0 (arrived enc b (bytes_come bs))
      later (arrive-lookup enc tag h b (bytes_come bs) e)
      (ap (λ x. x || has_stream later) (paired-accept_bytes enc b bs) ∙ p)
arrivals-paired enc tag h b (stream_comes g sid ∷ later) e p =
    arrivals-paired enc tag (arrive enc tag h (stream_comes g sid)).0
      (arrived enc b (stream_comes g sid)) later (arrive-lookup enc tag h b (stream_comes g sid) e)
      (ap (λ x. x || has_stream later) (paired-pair enc b g sid))

-- Whatever an operator sends reaches the device in the end: once the device's stream is among the
-- arrivals at an open bridge that stands under its own tag and, if it is paired, has its stream and
-- holds nothing back, the bytes carried in `Data` messages, each on the stream that was paired last,
-- are all those that the bridge held at first and all that the operator sent, in order, and the
-- bridge holds nothing back.
pub arrivals_delivered :
    (enc : Encoding) (tag : ℕ) (h : Hub) (b : Bridge) (events : List Arrival)
    → lookup tag h.bridges ≡ some b
    → b.tag ≡ tag
    → IsLinked b
    → has_stream events ≡ true
    → (b' : Bridge) × (lookup tag (arrivals enc tag h events).0.bridges ≡ some b')
      × (b'.buffered ≡ [])
      × Carries enc tag
          (stream_of b)
          events
          (arrivals enc tag h events).1
          (b.buffered ++ sent_bytes events)
arrivals_delivered enc tag h b events e t l s =
    let (b', carried, e', k, q, t', l') = arrivals_relay enc tag h b events e t l in
    let (b'', e'', p) =
      arrivals-paired enc tag h b events e (ap (λ x. b.paired || x) s ∙ or_true b.paired) in
    let same : b'' ≡ b' = some_injective (sym e'' ∙ e') in
    let empty = (linked_paired b' (sym (ap (λ (x : Bridge). x.paired) same) ∙ p) l').0 in
    (
      b',
      e',
      empty,
      subst (Carries enc tag (stream_of b) events (arrivals enc tag h events).1)
          (sym (append-nil carried) ∙ ap (◌++◌ carried) (sym empty) ∙ q) k,
    )
  where
    some_injective : {x y : Bridge} → some x ≡ some y → x ≡ y
    some_injective h = ground arith
