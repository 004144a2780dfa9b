-- ===== src/Tests/Updates.antt =====
-- gNMI paths, values and subscriptions.
use grace_server.Base.{◌≡◌, refl, some, List, [], ◌∷◌, ◌++◌, arith, Bytes, codes}
use grace_server.Base.Dict.{lookup}
use grace_server.Gnmi.{GnmiPath, string_val, SubscribeResponse, SetRequest}
use grace_server.Gnmi.Paths.{parse_yang_path, path_to_string}
use grace_server.Gnmi.Paths.RoundTrip.{parse_yang_path-path_to_string}
use grace_server.Gnmi.Json.{quote}
use grace_server.Gnmi.Json.Escape.{read_string, read_string-quote}
use grace_server.Gnmi.SubHub.{Sub}

abbrev path : GnmiPath
path =
    record { name = codes "a"; keys = (codes "k", codes "v") ∷ [] }
    ∷ record { name = codes "b"; keys = [] }
    ∷ []

parse_yang_path-path_to_string_example : parse_yang_path (path_to_string path) ≡ path
unfolding lookup
parse_yang_path-path_to_string_example = parse_yang_path-path_to_string path (
  (
    refl,
    (refl, tt),
    (refl, tt),
    (((refl, tt), (refl, tt), (refl, tt), (refl, tt), (refl, tt)), tt),
    (refl, tt),
  ),
  ((refl, (refl, tt), (refl, tt), tt, tt), tt),
)

-- A quote, a newline and a bell.
abbrev text : Bytes
text = 34 ∷ 10 ∷ 7 ∷ 97 ∷ []

read_string-quote_example :
    (t : Bytes) × (quote text ++ 44 ∷ [] ≡ b'"' ∷ t) × (read_string 5 t ≡ some (text, 44 ∷ []))
read_string-quote_example = read_string-quote text (44 ∷ []) 5 (omega arith)

abbrev subscribed : List Bytes
subscribed = codes "/a[k=v]" ∷ []

abbrev sub : Sub
sub = record { owner = 1; grpc = 1; stream_id = 3; paths = subscribed }

abbrev request : SetRequest
request = record {
  updates = record { path = path; val = string_val (codes "up") } ∷ [];
  replaces = [];
  deletes = [];
}

-- Messages are not told apart.
abbrev encode : SubscribeResponse → Bytes
encode r = 1 ∷ []
