-- ===== src/Service/Close/Kept.antt =====
-- What the hubs' calls keep of a property of the connections that they name.
use grace_server.Base.{
  ℕ, ◌≡◌, refl, sym, subst, inl, inr, Bool, false, List, [], ◌∷◌, Bytes, is_empty, Bool-cases,
  Option-cases,
}
use grace_server.Base.Dict.{lookup, remove_if}
use grace_server.Base.Every.{All, All-append, All-remove_if, All-both, remove_if-none}
use grace_server.Base.Keys.{num_key, bytes_key}
use grace_server.MgmtHub.{Sess, update_stream, is_stream, note_device, set_identity, add_session}
use grace_server.MgmtHub as MgmtHub
use grace_server.Tunnel.Hub.Messages.{Encoding}
use grace_server.Tunnel.Hub.{
  Reg, pair_tunnel, from_operator, close_from_operator, close_from_device, open_bridge,
}
use grace_server.Tunnel.Hub as TunnelHub

-- The sessions of the management hub, by their connections.
abbrev pub AllSessions : (ℕ → Type 0) → MgmtHub.Hub → Type 0
AllSessions P h = All (λ s. P s.grpc) h.sessions

abbrev pub AllTargets : (ℕ → Type 0) → TunnelHub.Hub → Type 0
AllTargets P h = All (λ e. P e.1.grpc) h.targets

module _ (P : ℕ → Type 0) where
  All-update_stream :
      (g sid : ℕ) (f : Sess → Sess) (ss : List Sess)
      → ((s : Sess) → (f s).grpc ≡ s.grpc)
      → All (λ s. P s.grpc) ss
      → All (λ s. P s.grpc) (update_stream g sid f ss)
  unfolding update_stream
  All-update_stream g sid f [] k a = a
  All-update_stream g sid f (s ∷ ss) k a = elim (Bool-cases (is_stream g sid s)) [
    | inl e ↦ rw e (subst P (sym (k s)) a.0, All-update_stream g sid f ss k a.1)
    | inr e ↦ rw e (a.0, All-update_stream g sid f ss k a.1)
  ]

  pub AllSessions-add_session :
      (h : MgmtHub.Hub) (g sid now : ℕ)
      → P g
      → AllSessions P h
      → AllSessions P (add_session h g sid now).0
  unfolding add_session
  AllSessions-add_session h g sid now p a = All-append (λ s. P s.grpc) h.sessions _ a (p, tt)

  pub AllSessions-note_device :
      (h : MgmtHub.Hub) (g sid : ℕ) (device : Bytes)
      → AllSessions P h
      → AllSessions P (note_device h g sid device)
  unfolding note_device
  AllSessions-note_device h g sid device a = elim (Bool-cases (is_empty device)) [
    | inl e ↦ rw e a
    | inr e ↦ rw e (All-update_stream g sid _ h.sessions (λ s. refl) a)
  ]

  pub AllSessions-set_identity :
      (h : MgmtHub.Hub) (g sid : ℕ) (hostname role : Bytes)
      → AllSessions P h
      → AllSessions P (set_identity h g sid hostname role)
  unfolding set_identity
  AllSessions-set_identity h g sid hostname role a =
      All-update_stream g sid _ h.sessions (λ s. refl) a

  pub AllTargets-pair_tunnel :
      (enc : Encoding) (h : TunnelHub.Hub) (tag g sid : ℕ)
      → AllTargets P h
      → AllTargets P (pair_tunnel enc h tag g sid).0
  unfolding pair_tunnel
  AllTargets-pair_tunnel enc h tag g sid a = elim (Option-cases (lookup tag h.bridges)) [
    | inl e ↦ rw (e, pair_tunnel) a
    | inr (b, e) ↦ rw (e, pair_tunnel) a
  ]

  pub AllTargets-close_from_device :
      (h : TunnelHub.Hub) (tag : ℕ) → AllTargets P h → AllTargets P (close_from_device h tag).0
  unfolding close_from_device
  AllTargets-close_from_device h tag a = elim (Option-cases (lookup tag h.bridges)) [
    | inl e ↦ rw (e, close_from_device) a
    | inr (b, e) ↦ rw (e, close_from_device) a
  ]

-- What a test leaves has the property that follows where the test fails.
pub All-left {ℓ κ μ} :
    {A : Type ℓ} (P : A → Type κ) (Q : A → Type μ) (t : A → Bool) (xs : List A)
    → ((x : A) → P x → t x ≡ false → Q x)
    → All P xs
    → All Q (remove_if t xs)
All-left P Q t xs f a = All-both Q f _ (All-remove_if P t xs a) (remove_if-none t xs)
