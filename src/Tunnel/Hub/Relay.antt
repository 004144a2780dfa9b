-- ===== src/Tunnel/Hub/Relay.antt =====
-- The bytes of an operator on their way to the device, and the independence of the bridges.
use grace_server.Base.{
  ℕ, ◌≡◌, ◌≢◌, refl, sym, ap, ◌∙◌, inl, inr, true, false, Option, none, some, List, [], ◌∷◌, ◌++◌,
  append-nil, ◌⊎◌, subst, append_assoc, arith, Bytes, Option-cases, Bool-cases, is_empty,
}
use grace_server.Base.Dict.{
  lookup, is_some, lookup-insert_self, lookup-insert_ne, lookup-erase_self, lookup-erase_ne,
}
use grace_server.Base.Keys.{num_key, bytes_key}
use grace_server.Tunnel.Hub.Messages.{Encoding}
use grace_server.Tunnel.Hub.{
  Hub, Bridge, Effect, stream_send, pair, pair_tunnel, accept_bytes, from_operator,
  close_from_operator, close_from_device,
}
use grace_server.Tunnel.Hub.Table.{IsLinked}

-- What reaches the hub for one bridge: bytes of its operator, or the device's stream.
pub data Arrival : Type 0 where
  bytes_come : Bytes → Arrival
  stream_comes : ℕ → ℕ → Arrival

abbrev pub arrive : Encoding → ℕ → Hub → Arrival → Hub × List Effect
arrive enc tag h (bytes_come bs) = from_operator enc h tag bs
arrive enc tag h (stream_comes g sid) = pair_tunnel enc h tag g sid

abbrev pub arrivals : Encoding → ℕ → Hub → List Arrival → Hub × List Effect
arrivals enc tag h [] = (h, [])
arrivals enc tag h (a ∷ later) = (
  (arrivals enc tag (arrive enc tag h a).0 later).0,
  (arrive enc tag h a).1 ++ (arrivals enc tag (arrive enc tag h a).0 later).1,
)

-- All that the operator sent.
abbrev pub sent_bytes : List Arrival → Bytes
sent_bytes [] = []
sent_bytes (bytes_come bs ∷ later) = bs ++ sent_bytes later
sent_bytes (stream_comes g sid ∷ later) = sent_bytes later

-- The session, if any, and the number of a bridge's stream.
abbrev pub stream_of : Bridge → Option ℕ × ℕ
stream_of b = (b.tunnel_grpc, b.tunnel_sid)

-- The stream behind an arrival: the one that comes takes the place of the one before.
abbrev pub stream_after : Option ℕ × ℕ → Arrival → Option ℕ × ℕ
stream_after s (bytes_come bs) = s
stream_after s (stream_comes g sid) = (some g, sid)

-- From a bridge with that stream, each arrival causes nothing, or one `Data` message of the bridge
-- on the stream that the bridge has then; the messages' bytes, in order, are `carried`.
pub data Carries (enc : Encoding) (tag : ℕ)
    : Option ℕ × ℕ → List Arrival → List Effect → Bytes → Type 0 where
  nothing : {s : Option ℕ × ℕ} → Carries enc tag s [] [] []
  silent :
      {s : Option ℕ × ℕ} {a : Arrival} {later : List Arrival} {es : List Effect} {rest : Bytes}
      → Carries enc tag (stream_after s a) later es rest
      → Carries enc tag s (a ∷ later) es rest
  chunk :
      {s : Option ℕ × ℕ} {a : Arrival} {later : List Arrival} {es : List Effect} {rest : Bytes}
      (g sid : ℕ) (bs : Bytes)
      → stream_after s a ≡ (some g, sid)
      → Carries enc tag (stream_after s a) later es rest
      → Carries enc tag s
          (a ∷ later)
          (stream_send g sid (enc.data_pb (record { tag = tag; bytes = bs; close = false })) ∷ es)
          (bs ++ rest)

-- What one arrival causes, at a bridge that then has the stream `s`.
abbrev Sends : Encoding → ℕ → Option ℕ × ℕ → List Effect → Bytes → Type 0
Sends enc tag s es carried =
    ((es ≡ []) × (carried ≡ []))
    ⊎ ((g : ℕ) × (sid : ℕ) × (s ≡ (some g, sid))
        × (es
            ≡ stream_send g sid (enc.data_pb (record { tag = tag; bytes = carried; close = false }))
              ∷ []))

Sends-Carries :
    (enc : Encoding) (tag : ℕ) (s : Option ℕ × ℕ) (a : Arrival) (later : List Arrival)
    (es fs : List Effect) (b c : Bytes)
    → Sends enc tag (stream_after s a) es b
    → Carries enc tag (stream_after s a) later fs c
    → Carries enc tag s (a ∷ later) (es ++ fs) (b ++ c)
Sends-Carries enc tag s a later es fs b c (inl (p, q)) k = rw (p, q) (silent k)
Sends-Carries enc tag s a later es fs b c (inr (g, sid, e, p)) k = rw p (chunk g sid b e k)

-- What one arrival does to a bridge: the bytes carried and those still held back make up what
-- was held back and what came, and the bridge has the stream `s`.
abbrev Passes : Encoding → ℕ → Option ℕ × ℕ → Bridge → Bytes → Bridge × List Effect → Type 0
Passes enc tag s b came r =
    (carried : Bytes) × Sends enc tag s r.1 carried
    × (stream_of r.0 ≡ s)
    × (carried ++ r.0.buffered ≡ b.buffered ++ came)
    × (r.0.tag ≡ tag)
    × IsLinked r.0

accept_bytes_held :
    (enc : Encoding) (b : Bridge) (bs : Bytes)
    → b.paired ≡ false
    → accept_bytes enc b bs ≡ (record b { buffered = b.buffered ++ bs }, [])
unfolding accept_bytes
accept_bytes_held enc b bs e = ground arith

accept_bytes_sent :
    (enc : Encoding) (tag : ℕ) (b : Bridge) (bs : Bytes) (g : ℕ)
    → b.tag ≡ tag
    → b.paired ≡ true
    → b.tunnel_grpc ≡ some g
    → accept_bytes enc b bs ≡ (
      b,
      stream_send g b.tunnel_sid (enc.data_pb (record { tag = tag; bytes = bs; close = false }))
          ∷ [],
    )
unfolding accept_bytes
accept_bytes_sent enc tag b bs g t e k = ground arith

pair_flush :
    (enc : Encoding) (tag : ℕ) (b : Bridge) (g sid : ℕ)
    → b.tag ≡ tag
    → is_empty b.buffered ≡ false
    → pair enc b g sid ≡ (
      record b { tunnel_grpc = some g; tunnel_sid = sid; paired = true; buffered = [] },
      stream_send g sid (enc.data_pb (record { tag = tag; bytes = b.buffered; close = false }))
          ∷ [],
    )
unfolding pair
pair_flush enc tag b g sid t e = ground arith

some_grpc : (o : Option ℕ) → is_some o ≡ true → (g : ℕ) × (o ≡ some g)
some_grpc none h = absurd (cc h)
some_grpc (some g) h = (g, refl)

-- A linked bridge that is paired has an empty buffer and a stream.
pub linked_paired :
    (b : Bridge)
    → b.paired ≡ true
    → IsLinked b
    → (b.buffered ≡ []) × ((g : ℕ) × (b.tunnel_grpc ≡ some g))
linked_paired b e (inl k) = absurd (ground arith)
linked_paired b e (inr (k, s)) = (k, some_grpc b.tunnel_grpc s)

accept_bytes-Passes :
    (enc : Encoding) (tag : ℕ) (b : Bridge) (bs : Bytes)
    → b.tag ≡ tag
    → IsLinked b
    → Passes enc tag (stream_of b) b bs (accept_bytes enc b bs)
accept_bytes-Passes enc tag b bs t l = elim (Bool-cases b.paired) [
  | inl e ↦
      let (empty, stream) = linked_paired b e l in
      let (g, s) = stream in
      rw (accept_bytes_sent enc tag b bs g t e s) (
        bs,
        inr (g, b.tunnel_sid, ap (λ o. (o, b.tunnel_sid)) s, refl),
        refl,
        ap (◌++◌ bs) empty ∙ append-nil bs ∙ ap (λ x. x ++ bs) (sym empty),
        t,
        l,
      )
  | inr e ↦ rw (accept_bytes_held enc b bs e) ([], inl (refl, refl), refl, refl, t, inl e)
]

pair-Passes :
    (enc : Encoding) (tag : ℕ) (b : Bridge) (g sid : ℕ)
    → b.tag ≡ tag
    → IsLinked b
    → Passes enc tag (some g, sid) b [] (pair enc b g sid)
unfolding pair
pair-Passes enc tag b g sid t l = elim (Bool-cases (is_empty b.buffered)) [
  | inl e ↦
      rw e ([], inl (refl, refl), refl, sym (append-nil b.buffered), t, inr (ground arith, refl))
  | inr e ↦
      rw (pair_flush enc tag b g sid t e)
        (b.buffered, inr (g, sid, refl, refl), refl, refl, t, inr (refl, refl))
]

sent_bytes-cons :
    (a : Arrival) (later : List Arrival)
    → sent_bytes (a ∷ []) ++ sent_bytes later ≡ sent_bytes (a ∷ later)
sent_bytes-cons (bytes_come bs) later = rw (append-nil bs)
sent_bytes-cons (stream_comes g sid) later = refl

-- The same at a call of the hub: the bridge under `tag` before and behind it.
arrive-Passes :
    (enc : Encoding) (tag : ℕ) (h : Hub) (b : Bridge) (a : Arrival)
    → lookup tag h.bridges ≡ some b
    → b.tag ≡ tag
    → IsLinked b
    → (b' : Bridge) × (lookup tag (arrive enc tag h a).0.bridges ≡ some b')
      × Passes enc tag
          (stream_after (stream_of b) a)
          b
          (sent_bytes (a ∷ []))
          (b', (arrive enc tag h a).1)
unfolding from_operator pair_tunnel
arrive-Passes enc tag h b (bytes_come bs) e t l =
    let (carried, c, z, q, t', l') = accept_bytes-Passes enc tag b bs t l in
    (
      (accept_bytes enc b bs).0,
      rw (e, from_operator) (lookup-insert_self tag _ h.bridges),
      rw (e, from_operator) (carried, c, z, rw append-nil q, t', l'),
    )
arrive-Passes enc tag h b (stream_comes g sid) e t l = (
  (pair enc b g sid).0,
  rw (e, pair_tunnel) (lookup-insert_self tag _ h.bridges),
  rw (e, pair_tunnel) (pair-Passes enc tag b g sid t l),
)

-- Nothing an operator sends is lost, repeated, misdirected or put out of order, whenever the device's
-- stream is paired: after any sequence of arrivals at an open bridge that stands under its own tag
-- and, if it is paired, has its stream and holds nothing back, each arrival has caused at most one
-- effect, a `Data` message of the bridge on the stream that was paired last; the bytes carried in
-- these, followed by those that the bridge still holds back, are the bytes that the bridge held at
-- first, followed by all that the operator sent.
pub arrivals_relay :
    (enc : Encoding) (tag : ℕ) (h : Hub) (b : Bridge) (events : List Arrival)
    → lookup tag h.bridges ≡ some b
    → b.tag ≡ tag
    → IsLinked b
    → (b' : Bridge) × (carried : Bytes) × (lookup tag (arrivals enc tag h events).0.bridges
        ≡ some b')
      × Carries enc tag (stream_of b) events (arrivals enc tag h events).1 carried
      × (carried ++ b'.buffered ≡ b.buffered ++ sent_bytes events)
      × (b'.tag ≡ tag)
      × IsLinked b'
arrivals_relay enc tag h b [] e t l = (b, [], e, nothing, sym (append-nil b.buffered), t, l)
arrivals_relay enc tag h b (a ∷ later) e t l =
    let (b1, e1, p) = arrive-Passes enc tag h b a e t l in
    let (c1, k1, z1, q1, t1, l1) = p in
    let (b2, c2, e2, k2, q2, t2, l2) =
      arrivals_relay enc tag (arrive enc tag h a).0 b1 later e1 t1 l1 in
    let after = (arrivals enc tag (arrive enc tag h a).0 later).1 in
    (
      b2,
      c1 ++ c2,
      e2,
      Sends-Carries enc tag (stream_of b) a later (arrive enc tag h a).1 after c1 c2 k1
          (subst (λ s. Carries enc tag s later after c2) z1 k2),
      append_assoc c1 c2 b2.buffered
          ∙ ap (◌++◌ c1) q2
          ∙ sym (append_assoc c1 b1.buffered (sent_bytes later))
          ∙ ap (λ x. x ++ sent_bytes later) q1
          ∙ append_assoc b.buffered (sent_bytes (a ∷ [])) (sent_bytes later)
          ∙ ap (◌++◌ b.buffered) (sent_bytes-cons a later),
      t2,
      l2,
    )

-- A call about one bridge leaves every other bridge as it was.
pub bridge_isolation :
    (enc : Encoding) (h : Hub) (tag other g sid : ℕ) (bytes : Bytes)
    → tag ≢ other
    → (lookup other (from_operator enc h tag bytes).0.bridges ≡ lookup other h.bridges)
      × (lookup other (pair_tunnel enc h tag g sid).0.bridges ≡ lookup other h.bridges)
      × (lookup other (close_from_operator enc h tag).0.bridges ≡ lookup other h.bridges)
      × (lookup other (close_from_device h tag).0.bridges ≡ lookup other h.bridges)
unfolding from_operator pair_tunnel close_from_operator close_from_device
bridge_isolation enc h tag other g sid bytes n = elim (Option-cases (lookup tag h.bridges)) [
  | inl e ↦ (
    rw (e, from_operator) refl,
    rw (e, pair_tunnel) refl,
    rw (e, close_from_operator) refl,
    rw (e, close_from_device) refl,
  )
  | inr (b, e) ↦ (
    rw (e, from_operator) (lookup-insert_ne tag other _ h.bridges n),
    rw (e, pair_tunnel) (lookup-insert_ne tag other _ h.bridges n),
    rw (e, close_from_operator) (lookup-erase_ne tag other h.bridges n),
    rw (e, close_from_device) (lookup-erase_ne tag other h.bridges n),
  )
]

pub lookup-close_from_operator :
    (enc : Encoding) (h : Hub) (t : ℕ) → lookup t (close_from_operator enc h t).0.bridges ≡ none
unfolding close_from_operator
lookup-close_from_operator enc h t = elim (Option-cases (lookup t h.bridges)) [
  | inl e ↦ rw (e, close_from_operator) e
  | inr (b, e) ↦ rw (e, close_from_operator) (lookup-erase_self t h.bridges)
]
