-- ===== src/MgmtHub/Sessions.antt =====
-- The ids of the open sessions.
use mathlib.Core.List.{Perm, perm_middle}
use mathlib.Core.List.Perm
use grace_server.Base.{
  ℕ, ◌+◌, ◌≤◌, ◌<◌, ◌≡◌, refl, inl, inr, Bool, false, List, [], ◌∷◌, ◌++◌, arith, Bytes, ◌==◌,
  is_empty, Bool-cases,
}
use grace_server.Base.Dict.{remove_if, select}
use grace_server.Base.Every.{All, remove_if-none}
use grace_server.MgmtHub.{
  Sess, Hub, add_session, remove_by_stream, note_device, set_identity, update_stream, is_stream,
  on_grpc, ids,
}

-- The ids go up, from above `lo` to at most `hi`.
abbrev pub Between : ℕ → ℕ → List Sess → Type 0
Between lo hi [] = lo ≤ hi
Between lo hi (s ∷ ss) = (lo < s.id) × Between s.id hi ss

-- No two sessions have an id in common, and none has an id that is still to be given out.
abbrev pub IsWf : Hub → Type 0
IsWf h = Between 0 h.next_id h.sessions

-- The calls that change the sessions.
pub data Call : Type 0 where
  opens : ℕ → ℕ → ℕ → Call
  closes : ℕ → Call
  notes : ℕ → ℕ → Bytes → Call
  identifies : ℕ → ℕ → Bytes → Bytes → Call

abbrev pub step : Hub → Call → Hub
step h (opens g sid now) = (add_session h g sid now).0
step h (closes g) = (remove_by_stream h g).0
step h (notes g sid device) = note_device h g sid device
step h (identifies g sid hostname role) = set_identity h g sid hostname role

abbrev pub run : Hub → List Call → Hub
run h [] = h
run h (c ∷ cs) = run (step h c) cs

Between-add :
    (lo hi : ℕ) (ss : List Sess) (s : Sess)
    → s.id ≡ hi + 1
    → Between lo hi ss
    → Between lo (hi + 1) (ss ++ s ∷ [])
Between-add lo hi [] s e b = (omega arith, omega arith)
Between-add lo hi (t ∷ ss) s e (l, b) = (l, Between-add t.id hi ss s e b)

Between-below :
    (lo below hi : ℕ) (ss : List Sess) → below ≤ lo → Between lo hi ss → Between below hi ss
Between-below lo below hi [] l b = omega arith
Between-below lo below hi (s ∷ ss) l b = (omega arith, b.1)

Between-remove_if :
    (t : Sess → Bool) (lo hi : ℕ) (ss : List Sess)
    → Between lo hi ss
    → Between lo hi (remove_if t ss)
unfolding remove_if
Between-remove_if t lo hi [] b = b
Between-remove_if t lo hi (s ∷ ss) (l, b) = elim (Bool-cases (t s)) [
  | inl e ↦ rw e (Between-below s.id lo hi _ (omega arith) (Between-remove_if t s.id hi ss b))
  | inr e ↦ rw e (l, Between-remove_if t s.id hi ss b)
]

Between-update_stream :
    (g sid : ℕ) (f : Sess → Sess) (lo hi : ℕ) (ss : List Sess)
    → ((s : Sess) → (f s).id ≡ s.id)
    → Between lo hi ss
    → Between lo hi (update_stream g sid f ss)
unfolding update_stream
Between-update_stream g sid f lo hi [] k b = b
Between-update_stream g sid f lo hi (s ∷ ss) k (l, b) =
    let rest = Between-update_stream g sid f s.id hi ss k b in
    elim (Bool-cases (is_stream g sid s)) [ inl e ↦ rw (e, k s) (l, rest) | inr e ↦ rw e (l, rest) ]

step-IsWf : (h : Hub) (c : Call) → IsWf h → IsWf (step h c)
unfolding add_session remove_by_stream note_device set_identity
step-IsWf h (opens g sid now) w = Between-add 0 h.next_id h.sessions _ refl w
step-IsWf h (closes g) w = Between-remove_if (on_grpc g) 0 h.next_id h.sessions w
step-IsWf h (notes g sid device) w = elim (Bool-cases (is_empty device)) [
  | inl e ↦ rw e w
  | inr e ↦ rw e (Between-update_stream g sid _ 0 h.next_id h.sessions (λ s. refl) w)
]
step-IsWf h (identifies g sid hostname role) w =
    Between-update_stream g sid _ 0 h.next_id h.sessions (λ s. refl) w

-- From a hub where it is so, such as the empty one, however devices connect, answer and go, no two
-- open sessions have the same id, and every id is one that was given out.
pub session_ids : (h : Hub) (cs : List Call) → IsWf h → IsWf (run h cs)
session_ids h [] w = w
session_ids h (c ∷ cs) w = session_ids (step h c) cs (step-IsWf h c w)

select-ids :
    (t : Sess → Bool) (ss : List Sess) → Perm (ids ss) (ids (select t ss) ++ ids (remove_if t ss))
unfolding select remove_if
select-ids t [] = Perm.rfl
select-ids t (s ∷ ss) = elim (Bool-cases (t s)) [
  | inl e ↦ rw e (Perm.cons s.id (select-ids t ss))
  | inr e ↦ rw e (
      Perm.trans (Perm.cons s.id (select-ids t ss))
        (Perm.symm (perm_middle (ids (select t ss)) (ids (remove_if t ss)))))
]

-- When a connection closes, no session of it is left, and the ids reported as gone are, with those
-- of the sessions that stay, the ids of before, each once.
pub closed_sessions :
    (h : Hub) (g : ℕ)
    → All (λ (s : Sess). (s.grpc == g) ≡ false) (remove_by_stream h g).0.sessions
      × Perm (ids h.sessions) ((remove_by_stream h g).1 ++ ids (remove_by_stream h g).0.sessions)
unfolding remove_by_stream
closed_sessions h g = (remove_if-none (on_grpc g) h.sessions, select-ids (on_grpc g) h.sessions)
