-- ===== src/Gnmi/SubHub.antt =====
-- app/inc/sub_hub.hpp: the STREAM subscriptions, and the fan-out of a Set's operations. An owner
-- and a session are numbers; `SerializeToString` is a parameter, and so is the time.
pub mod Coverage
use grace_server.Base.{
  ℕ, Bool, true, false, not, ◌&&◌, ◌||◌, List, [], ◌∷◌, ◌++◌, ◌==◌, if◌then◌else◌, Bytes, codes,
  equal, is_empty, starts_with,
}
use grace_server.Base.Dict.{remove_if, select}
use grace_server.Gnmi.{ℤ, GnmiPath, Update, Notification, SubscribeResponse, update, SetRequest}
use grace_server.Gnmi.Paths.{path_to_string}

-- `sub_hub::sub`.
pub record Sub : Type 0 where
  pub owner : ℕ
  pub grpc : ℕ
  pub stream_id : ℕ
  pub paths : List Bytes

-- `stream_send(grpc, sid, pb)`.
pub data Effect : Type 0 where
  stream_send : ℕ → ℕ → Bytes → Effect

unfoldable pub add : List Sub → ℕ → ℕ → ℕ → List Bytes → List Sub
add subs owner grpc sid paths =
    subs ++ record { owner = owner; grpc = grpc; stream_id = sid; paths = paths } ∷ []

abbrev pub owned_by : ℕ → Sub → Bool
owned_by owner s = s.owner == owner

unfoldable pub remove : List Sub → ℕ → List Sub
remove subs owner = remove_if (owned_by owner) subs

-- The loop of `matches` over the subscribed paths.
unfoldable pub covers : List Bytes → Bytes → Bool
covers [] u = false
covers (sp ∷ paths) u =
    equal sp (codes "/") || equal u sp || starts_with u (sp ++ codes "/") || covers paths u

unfoldable pub matches : List Bytes → GnmiPath → Bool
unfolding covers
matches paths p = is_empty paths || covers paths (path_to_string p)

abbrev pub covers_update : List Bytes → Update → Bool
covers_update paths u = matches paths u.path

-- The notification that a subscription gets: updates, then replaces, then deletes.
unfoldable pub notification_for : ℤ → SetRequest → Sub → Notification
notification_for ts req s = record {
  timestamp = ts;
  prefix = [];
  updates =
      select (covers_update s.paths) req.updates ++ select (covers_update s.paths) req.replaces;
  deletes = select (matches s.paths) req.deletes;
}

-- The flag `any`.
abbrev pub has_any : Notification → Bool
has_any n = not (is_empty n.updates && is_empty n.deletes)

module _ (encode : SubscribeResponse → Bytes) where
  unfoldable pub publish_to : ℤ → SetRequest → Sub → List Effect
  unfolding notification_for
  publish_to ts req s =
      if not (has_any (notification_for ts req s))
      then []
      else stream_send s.grpc s.stream_id (encode (update (notification_for ts req s))) ∷ []

  unfoldable pub publish : List Sub → ℤ → SetRequest → List Effect
  unfolding publish_to
  publish [] ts req = []
  publish (s ∷ subs) ts req = publish_to ts req s ++ publish subs ts req
