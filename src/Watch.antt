-- ===== src/Watch.antt =====
-- app/src/fs_app.cpp, with the table of loaded files of app/src/lua_engine.cpp: the watched directory.
-- What `luaL_dofile` makes of a file is a parameter, none if it does not load, and so is the table's
-- type. An inotify event is a record; a name has no slash in it.
pub mod Changes
use grace_server.Base.{
  ℕ, Bool, true, false, not, ◌&&◌, ◌||◌, Option, none, some, List, [], ◌∷◌, ◌++◌, ◌==◌,
  if◌then◌else◌, Bytes, codes, equal,
}
use grace_server.Base.Dict.{Dict, insert, erase}
use grace_server.Base.Keys.{bytes_key}

-- `struct inotify_event`: whether `len` is not 0, and the bits of `mask`.
pub record Event : Type 0 where
  pub has_name : Bool
  pub name : Bytes
  pub cookie : ℕ
  pub in_create : Bool
  pub in_modify : Bool
  pub in_moved_to : Bool
  pub in_moved_from : Bool
  pub in_delete : Bool

-- `fn.extension() == ".lua"`, for a file name behind the last slash: something stands before the
-- extension, so that ".lua" itself has none.
unfoldable pub is_lua : Bytes → Bool
is_lua [] = false
is_lua (x ∷ xs) = equal xs (codes ".lua") || is_lua xs

-- `m_commands`, and `m_old_event` with its name and cookie if it is not empty.
pub record State {ℓ} (A : Type ℓ) : Type ℓ where
  pub commands : Dict Bytes A
  pub old_event : Option (Bytes × ℕ)

module _ {ℓ} {A : Type ℓ} (load : Bytes → Option A) where
  unfoldable pub process_create_luafile : State A → Bytes → State A
  process_create_luafile s fname = elim (load fname) [
    | none ↦ s
    | some table ↦ record s { commands = insert fname table s.commands }
  ]

  unfoldable pub process_delete_luafile : State A → Bytes → State A
  process_delete_luafile s fname = record s { commands = erase fname s.commands }

  -- IN_MOVED_TO, with the event that is remembered, if any.
  unfoldable pub on_moved_to : State A → Option (Bytes × ℕ) → Bytes → ℕ → State A
  unfolding process_create_luafile process_delete_luafile
  on_moved_to s none fname cookie = process_create_luafile s fname
  on_moved_to s (some (old_name, old_cookie)) fname cookie =
      if old_cookie == cookie
      then record (process_create_luafile (process_delete_luafile s old_name) fname) {
        old_event = none;
      }
      else s

  -- The branches for a file with the extension.
  unfoldable pub on_file : State A → Bytes → Event → State A
  unfolding on_moved_to
  on_file s fname e =
      if e.in_create
      then process_create_luafile s fname
      else if e.in_modify
      then process_create_luafile (process_delete_luafile s fname) fname
      else if e.in_moved_to
      then on_moved_to s s.old_event fname e.cookie
      else if e.in_moved_from
      then record s { old_event = some (e.name, e.cookie) }
      else if e.in_delete
      then process_delete_luafile s fname
      else s

  unfoldable pub on_event : Bytes → State A → Event → State A
  unfolding on_file
  on_event location s e =
      if e.has_name && is_lua e.name then on_file s (location ++ b'/' ∷ e.name) e else s

  unfoldable pub on_events : Bytes → State A → List Event → State A
  unfolding on_event
  on_events location s [] = s
  on_events location s (e ∷ es) = on_events location (on_event location s e) es

  -- What a remembered move is taken for at the end of a batch: a file that has left the directory.
  unfoldable pub finish_move : State A → Option (Bytes × ℕ) → State A
  unfolding process_delete_luafile
  finish_move s none = s
  finish_move s (some (old_name, cookie)) = record (process_delete_luafile s old_name) {
    old_event = none;
  }

  -- The events of one read, at least one; `in` holds them one after the other.
  unfoldable pub process_inotify_onchange : Bytes → State A → Event → List Event → State A
  unfolding on_events finish_move
  process_inotify_onchange location s e es =
      let done = on_events location s (e ∷ es) in finish_move done done.old_event
