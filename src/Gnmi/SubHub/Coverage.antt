-- ===== src/Gnmi/SubHub/Coverage.antt =====
-- Which subscriptions hear of a change.
use grace_server.Base.{
  ◌≡◌, ◌↔◌, ◌⊎◌, sym, ◌∙◌, true, false, List, [], ◌∷◌, ◌++◌, arith, Bytes, codes, equal_iff,
  is_empty, starts_with, starts_with_iff, append_assoc,
}
use grace_server.Gnmi.{ℤ, GnmiPath, Notification, SubscribeResponse, update, SetRequest}
use grace_server.Gnmi.Paths.{path_to_string}
use grace_server.Gnmi.SubHub.{Sub, Effect, stream_send, covers, matches, has_any}

-- A path `sp` of a subscription stands over the change at `u`: the root, `u` itself, or a path
-- that `u` continues behind a slash.
abbrev pub Over : Bytes → Bytes → Type 0
Over sp u = (sp ≡ codes "/") ⊎ (u ≡ sp) ⊎ ((r : Bytes) × (u ≡ sp ++ b'/' ∷ r))

-- One of the paths does.
abbrev pub AnyOver : List Bytes → Bytes → Type 0
AnyOver [] u = ⊥
AnyOver (sp ∷ paths) u = Over sp u ⊎ AnyOver paths u

under_iff :
    (u sp : Bytes) → (starts_with u (sp ++ codes "/") ≡ true) ↔ ((r : Bytes) × (u ≡ sp ++ b'/' ∷ r))
under_iff u sp = (
  λ h.
      let (r, e) = (starts_with_iff u (sp ++ codes "/")).0 h in
      (r, e ∙ append_assoc sp (codes "/") r),
  λ (r, e). (starts_with_iff u (sp ++ codes "/")).1 (r, e ∙ sym (append_assoc sp (codes "/") r)),
)

covers_iff : (paths : List Bytes) (u : Bytes) → (covers paths u ≡ true) ↔ AnyOver paths u
unfolding covers
covers_iff [] u = (λ h. absurd (cc h), λ h. absurd h)
covers_iff (sp ∷ paths) u =
    ground (arith, equal_iff sp (codes "/"), equal_iff u sp, under_iff u sp, covers_iff paths u)

-- A change at a path concerns a subscription exactly if the subscription lists no path, or lists
-- the root, that path, or a path that it continues behind a slash.
pub matches_iff :
    (paths : List Bytes) (p : GnmiPath)
    → (matches paths p ≡ true) ↔ ((is_empty paths ≡ true) ⊎ AnyOver paths (path_to_string p))
unfolding matches
matches_iff paths p = ground (arith, covers_iff paths (path_to_string p))

-- The second list is those of the first that have the property, in order.
pub data Filtered {A : Type 0} (P : A → Type 0) : List A → List A → Type 0 where
  end : Filtered P [] []
  keep : {xs ys : List A} (x : A) → P x → Filtered P xs ys → Filtered P (x ∷ xs) (x ∷ ys)
  pass : {xs ys : List A} (x : A) → (P x → ⊥) → Filtered P xs ys → Filtered P (x ∷ xs) ys

-- A change at the path concerns a subscription with these paths.
abbrev pub Concerns : List Bytes → GnmiPath → Type 0
Concerns paths p = (is_empty paths ≡ true) ⊎ AnyOver paths (path_to_string p)

-- What a subscription hears of a set: of the notification with the set's time, the updates and then
-- replaces that concern it and the deletes that concern it, one message on its own stream, or
-- nothing, if nothing is in it.
abbrev pub Hears : (SubscribeResponse → Bytes) → Sub → ℤ → SetRequest → List Effect → Type 0
Hears encode s ts req own =
    (n : Notification) × (n.timestamp ≡ ts)
    × (n.prefix ≡ [])
    × Filtered (λ u. Concerns s.paths u.path) (req.updates ++ req.replaces) n.updates
    × Filtered (Concerns s.paths) req.deletes n.deletes
    × (((has_any n ≡ false) × (own ≡ []))
        ⊎ ((has_any n ≡ true) × (own ≡ stream_send s.grpc s.stream_id (encode (update n)) ∷ [])))
