-- ===== src/Watch/Changes.antt =====
-- What the watched changes do to the table of loaded files.
use grace_server.Base.{
  ℕ, ◌≡◌, ◌⊎◌, refl, ap, ◌∙◌, inl, inr, true, false, ◌&&◌, Option, none, some, List, [], ◌∷◌, ◌++◌,
  Bytes, if◌then◌else◌, Bool-cases, arith, length, length-append,
}
use grace_server.Base.Dict.{lookup, erase, lookup-erase, lookup-erase_ne}
use grace_server.Base.Keys.{bytes_key}
use grace_server.Base.Every.{All}
use grace_server.Watch.{
  Event, State, is_lua, process_delete_luafile, process_inotify_onchange, on_event, on_events,
  on_file, finish_move,
}

-- The mask that the constructor watches has IN_CLOSE_WRITE, IN_DELETE, IN_MOVED_TO and
-- IN_MOVED_FROM, so these two bits never come.
abbrev pub IsWatched : Event → Type 0
IsWatched e = (e.in_create ≡ false) × (e.in_modify ≡ false)

-- No file is moved into the directory.
abbrev pub IsNoArrival : Event → Type 0
IsNoArrival e = IsWatched e × (e.in_moved_to ≡ false)

module _ {ℓ} {A : Type ℓ} (load : Bytes → Option A) where
  -- An entry of the second table is the same in the first.
  abbrev Shrinks : State A → State A → Type ℓ
  Shrinks s t =
      (k : Bytes) → (lookup k t.commands ≡ lookup k s.commands) ⊎ (lookup k t.commands ≡ none)

  erase-Shrinks : (s : State A) (fname : Bytes) → Shrinks s (process_delete_luafile load s fname)
  unfolding process_delete_luafile
  erase-Shrinks s fname k = elim (Bool-cases (bytes_key.beq fname k)) [
    | inl e ↦
        inr (lookup-erase fname k s.commands ∙ ap (λ b. if b then none else lookup k s.commands) e)
    | inr e ↦
        inl (lookup-erase fname k s.commands ∙ ap (λ b. if b then none else lookup k s.commands) e)
  ]

  Shrinks-trans : (s t u : State A) → Shrinks s t → Shrinks t u → Shrinks s u
  Shrinks-trans s t u h g k = elim (g k) [
    | inl e ↦ elim (h k) [ inl f ↦ inl (e ∙ f) | inr f ↦ inr (e ∙ f) ]
    | inr e ↦ inr e
  ]

  on_file-Shrinks :
      (s : State A) (fname : Bytes) (e : Event) → IsNoArrival e → Shrinks s (on_file load s fname e)
  unfolding on_file
  on_file-Shrinks s fname e ((c, m), t) k = elim (Bool-cases e.in_moved_from) [
    | inl f ↦ rw (c, m, t, f) (inl refl)
    | inr f ↦ elim (Bool-cases e.in_delete) [
      | inl d ↦ rw (c, m, t, f, d) (erase-Shrinks s fname k)
      | inr d ↦ rw (c, m, t, f, d) (inl refl)
    ]
  ]

  on_event-Shrinks :
      (location : Bytes) (s : State A) (e : Event)
      → IsNoArrival e
      → Shrinks s (on_event load location s e)
  unfolding on_event
  on_event-Shrinks location s e n k = elim (Bool-cases (e.has_name && is_lua e.name)) [
    | inl f ↦ rw (f, on_event) (on_file-Shrinks s (location ++ b'/' ∷ e.name) e n k)
    | inr f ↦ rw (f, on_event) (inl refl)
  ]

  on_events-Shrinks :
      (location : Bytes) (s : State A) (es : List Event)
      → All IsNoArrival es
      → Shrinks s (on_events load location s es)
  unfolding on_events
  on_events-Shrinks location s [] n k = inl refl
  on_events-Shrinks location s (e ∷ es) n k =
      Shrinks-trans s (on_event load location s e) (on_events load location s (e ∷ es))
        (on_event-Shrinks location s e n.0)
        (on_events-Shrinks location (on_event load location s e) es n.1) k

  finish_move-Shrinks : (s : State A) (o : Option (Bytes × ℕ)) → Shrinks s (finish_move load s o)
  unfolding finish_move
  finish_move-Shrinks s none k = inl refl
  finish_move-Shrinks s (some (old_name, cookie)) k = erase-Shrinks s old_name k

  -- With the mask that is watched, and unless a file is moved into the directory, no batch of
  -- events loads or reloads a file: each entry stays as it was or goes, and none is new, also for
  -- files that were written and closed.
  pub saved_files_ignored :
      (location : Bytes) (s : State A) (e : Event) (es : List Event) (k : Bytes)
      → All IsNoArrival (e ∷ es)
      → (lookup k (process_inotify_onchange load location s e es).commands ≡ lookup k s.commands)
        ⊎ (lookup k (process_inotify_onchange load location s e es).commands ≡ none)
  unfolding process_inotify_onchange
  saved_files_ignored location s e es k n =
      let done = on_events load location s (e ∷ es) in
      Shrinks-trans s done (finish_move load done done.old_event)
        (on_events-Shrinks location s (e ∷ es) n) (finish_move-Shrinks done done.old_event) k

  on_event-moved_from :
      (location : Bytes) (s : State A) (e : Event)
      → IsNoArrival e
      → e.has_name ≡ true
      → is_lua e.name ≡ true
      → e.in_moved_from ≡ true
      → on_event load location s e ≡ record s { old_event = some (e.name, e.cookie) }
  unfolding on_event on_file
  on_event-moved_from location s e ((c, m), t) n l f = rw (n, l, c, m, t, f) refl

  -- A Lua file that is moved out of the directory, by one watched event, stays loaded: what is
  -- deleted is the entry of its bare name, and the entry of its path is as it was.
  pub moved_away_kept :
      (location : Bytes) (s : State A) (e : Event)
      → IsNoArrival e
      → e.has_name ≡ true
      → is_lua e.name ≡ true
      → e.in_moved_from ≡ true
      → ((process_inotify_onchange load location s e []).commands ≡ erase e.name s.commands)
        × (lookup
              (location ++ b'/' ∷ e.name)
              (process_inotify_onchange load location s e []).commands
            ≡ lookup (location ++ b'/' ∷ e.name) s.commands)
  unfolding process_inotify_onchange on_events finish_move process_delete_luafile
  moved_away_kept location s e n h l f =
      let path = location ++ b'/' ∷ e.name in
      let deleted : (process_inotify_onchange load location s e []).commands
          ≡ erase e.name s.commands =
        ap (λ t. (finish_move load t t.old_event).commands)
          (on_event-moved_from location s e n h l f) in
      (
        deleted,
        ap (lookup path) deleted
            ∙ lookup-erase_ne e.name path s.commands (λ q. absurd (longer location e.name q)),
      )
    where
      longer : (loc name : Bytes) → name ≡ loc ++ b'/' ∷ name → ⊥
      longer loc name q = absurd (omega (arith, ap length q, length-append loc (b'/' ∷ name)))
