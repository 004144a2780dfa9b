-- ===== src/MgmtHub/Requests.antt =====
-- Requests to the sessions, and the commands that their answers belong to.
use grace_server.Base.{
  ℕ, ◌≡◌, ◌≢◌, ◌⊎◌, refl, ap, inl, inr, true, false, List, [], ◌∷◌, map, Bytes, is_empty,
  Bool-cases,
}
use grace_server.Base.Dict.{lookup-insert_self, lookup-insert_ne}
use grace_server.Base.Keys.{bytes_key}
use grace_server.MgmtHub.{
  Sess, Hub, DeviceRequest, Effect, stream_send, send_all, send_request, gen_rpc_id, command_for,
  or_nothing,
}

-- What a send does: nothing and an empty id without a session; otherwise the same bytes go to
-- every session, once each and in their order, the request's id is returned, and the label is
-- found under it.
abbrev pub IsSent : Hub → Bytes → Bytes → Bytes → Hub × Bytes × List Effect → Type 0
IsSent h rpc_id pb label r =
    ((is_empty h.sessions ≡ true) × (r ≡ (h, [], [])))
    ⊎ ((is_empty h.sessions ≡ false)
        × (r.1 ≡ rpc_id)
        × (r.0.sessions ≡ h.sessions)
        × (r.2 ≡ map (λ s. stream_send s.grpc s.sid pb) h.sessions)
        × (command_for r.0 rpc_id ≡ label)
        × ((other : Bytes) → rpc_id ≢ other → command_for r.0 other ≡ command_for h other))

pub send_all-map :
    (ss : List Sess) (pb : Bytes) → send_all ss pb ≡ map (λ s. stream_send s.grpc s.sid pb) ss
unfolding send_all
send_all-map [] pb = refl
send_all-map (s ∷ ss) pb = ap (◌∷◌ (stream_send s.grpc s.sid pb)) (send_all-map ss pb)

module _ (encode : DeviceRequest → Bytes) where
  -- A request is sent to all or, with no session open, not at all; the id in the
  -- message is the one returned, under it the label is found, and every other id finds what it
  -- found before.
  pub send_request-IsSent :
      (h : Hub) (draws : List ℕ) (op device_id label : Bytes)
      → IsSent h
          (gen_rpc_id draws)
          (encode (record { rpc_id = gen_rpc_id draws; device_id = device_id; request = op }))
          label
          (send_request encode h draws op device_id label)
  unfolding send_request command_for
  send_request-IsSent h draws op device_id label = elim (Bool-cases (is_empty h.sessions)) [
    | inl e ↦ inl (e, rw e refl)
    | inr e ↦ inr (
      e,
      rw e refl,
      rw e refl,
      rw e (send_all-map h.sessions _),
      rw e (ap or_nothing (lookup-insert_self (gen_rpc_id draws) label h.pending)),
      λ other.
          rw e (λ n. ap or_nothing (lookup-insert_ne (gen_rpc_id draws) other label h.pending n)),
    )
  ]
