-- ===== src/Tests/Files.antt =====
-- A watched directory with one file loaded.
use grace_server.Base.{
  ℕ, ◌≡◌, ◌⊎◌, refl, true, false, Option, none, some, [], ◌∷◌, ◌++◌, Bytes, codes, equal,
}
use grace_server.Base.Dict.{lookup, erase}
use grace_server.Base.Keys.{bytes_key}
use grace_server.Watch.{Event, State, is_lua, process_inotify_onchange}
use grace_server.Watch.Changes.{saved_files_ignored, moved_away_kept}

-- Every file loads, as the number 2.
abbrev load : Bytes → Option ℕ
load fname = some 2

abbrev state : State ℕ
state = record { commands = (codes "command/set.lua", 1) ∷ []; old_event = none }

-- The file is written and closed: no bit that the code looks at.
abbrev saved : Event
saved = record {
  has_name = true;
  name = codes "set.lua";
  cookie = 0;
  in_create = false;
  in_modify = false;
  in_moved_to = false;
  in_moved_from = false;
  in_delete = false;
}

abbrev after : State ℕ
after = process_inotify_onchange load (codes "command") state saved []

saved_files_ignored_example :
    (lookup (codes "command/set.lua") after.commands
      ≡ lookup (codes "command/set.lua") state.commands)
    ⊎ (lookup (codes "command/set.lua") after.commands ≡ none)
saved_files_ignored_example =
    saved_files_ignored load (codes "command") state saved [] (codes "command/set.lua")
      (((refl, refl), refl), tt)

abbrev left : Event
left = record saved { in_moved_from = true }

moved_away_kept_example :
    ((process_inotify_onchange load (codes "command") state left []).commands
      ≡ erase (codes "set.lua") state.commands)
    × (lookup
          (codes "command" ++ b'/' ∷ codes "set.lua")
          (process_inotify_onchange load (codes "command") state left []).commands
        ≡ lookup (codes "command" ++ b'/' ∷ codes "set.lua") state.commands)
unfolding is_lua equal
moved_away_kept_example =
    moved_away_kept load (codes "command") state left ((refl, refl), refl) refl refl refl
