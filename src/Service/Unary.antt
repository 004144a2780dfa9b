-- ===== src/Service/Unary.antt =====
-- The unary methods of `register_gnmi_handlers`: Capabilities, Get, Set and IsAlive. The generated
-- classes' `ParseFromString` and `SerializeToString` are parameters. An answer is a gRPC status and
-- a payload.
pub mod Authority
use grace_server.Base.{
  ℕ, ◌≡◌, refl, Bool, true, false, not, Option, none, some, List, [], ◌∷◌, ◌++◌, map, length,
  if◌then◌else◌, Bytes, codes, equal, is_empty, to_string,
}
use grace_server.Gnmi.{
  ℤ, GnmiPath, TypedValue, Update, SubscribeResponse, SetRequest, Operation, UpdateResult,
  op_update, op_replace, op_delete,
}
use grace_server.Gnmi.Json.{op_to_json}
use grace_server.Gnmi.SubHub.{publish}
use grace_server.Service.{State, Effect, print, complain, emit, of_sub_hub}

-- A `gnmi::Path` used as a prefix: the role stands in its target.
pub record Prefix : Type 0 where
  pub target : Bytes
  pub elems : GnmiPath

pub record GetRequest : Type 0 where
  pub prefix : Prefix
  pub paths : List GnmiPath

-- `gnmi::Encoding`.
pub data Encoding : Type 0 where
  json proto : Encoding

pub record Codec : Type 0 where
  pub parse_capability_request : Bytes → Bool
  pub capability_response : List Encoding → Bytes
  pub parse_get_request : Bytes → Option GetRequest
  -- A `GetResponse`, by the prefixes of its notifications.
  pub get_response : List Prefix → Bytes
  -- The target of the prefix, and the operations.
  pub parse_set_request : Bytes → Option (Bytes × SetRequest)
  pub set_response : List UpdateResult → Bytes
  pub subscribe_response : SubscribeResponse → Bytes
  -- `std::to_string` of a double.
  pub show_double : ℕ → Bytes

abbrev pub Answer : Type 0
Answer = (ℕ × Bytes) × List Effect

unfoldable pub capabilities : Codec → Bytes → Answer
capabilities c req_pb =
    if not (c.parse_capability_request req_pb)
    then ((3, []), complain (codes "[Capabilities] failed to parse request") ∷ [])
    else ((0, c.capability_response (json ∷ proto ∷ [])), [])

abbrev or_viewer : Bytes → Bytes → Bytes
or_viewer role viewer = if is_empty role then viewer else role

unfoldable pub get : Codec → Bytes → Answer
get c req_pb = elim (c.parse_get_request req_pb) [
  | none ↦ ((3, []), complain (codes "[Get] failed to parse request") ∷ [])
  | some req ↦ (
    (0, c.get_response (map (λ p. req.prefix) req.paths)),
    print (
          codes "[Get] role="
          ++ or_viewer req.prefix.target (codes "VIEWER")
          ++ codes " path_count="
          ++ to_string (length req.paths))
        ∷ [],
  )
]

-- One round of the loops over a Set's operations: the result, and the line for the observers.
pub record Change : Type 0 where
  pub op : Operation
  pub path : GnmiPath
  pub val : Option TypedValue

abbrev pub op_text : Operation → Bytes
op_text op_replace = codes "REPLACE"
op_text op_delete = codes "DELETE"
op_text _ = codes "UPDATE"

abbrev pub update_change : Operation → Update → Change
update_change op u = record { op = op; path = u.path; val = some u.val }

abbrev pub delete_change : GnmiPath → Change
delete_change p = record { op = op_delete; path = p; val = none }

-- The operations in the order of the three loops.
unfoldable pub changes : SetRequest → List Change
changes req =
    map (update_change op_update) req.updates
    ++ map (update_change op_replace) req.replaces
    ++ map delete_change req.deletes

abbrev pub result_of : Change → UpdateResult
result_of ch = record { path = ch.path; op = ch.op }

abbrev pub line_of : (ℕ → Bytes) → Change → Bytes
line_of show_double ch = op_to_json show_double (op_text ch.op) ch.path ch.val

unfoldable pub report : (ℕ → Bytes) → List ℕ → List Change → List Effect
unfolding emit
report show_double sinks [] = []
report show_double sinks (ch ∷ chs) =
    emit sinks (line_of show_double ch) ++ report show_double sinks chs

-- `now` is the time that the hub puts on its notifications.
unfoldable pub set : Codec → State → ℤ → Bytes → Answer
unfolding changes report
set c st now req_pb = elim (c.parse_set_request req_pb) [
  | none ↦ ((3, []), complain (codes "[Set] failed to parse request") ∷ [])
  | some (role, req) ↦
      if not (equal role (codes "ADMIN"))
      then (
        (7, codes "PERMISSION_DENIED: ADMIN role required for Set"),
        complain (codes "[Set] PERMISSION_DENIED role=" ++ or_viewer role (codes "VIEWER(default)"))
            ∷ [],
      )
      else (
        (0, c.set_response (map result_of (changes req))),
        print (
                codes "[Set] role=ADMIN update_count="
                ++ to_string (length req.updates)
                ++ codes " replace_count="
                ++ to_string (length req.replaces)
                ++ codes " delete_count="
                ++ to_string (length req.deletes))
              ∷ report c.show_double st.sinks (changes req)
            ++ of_sub_hub (publish c.subscribe_response st.subs now req),
      )
]

unfoldable pub is_alive : Bytes → Answer
is_alive req_pb = (
  (0, []),
  print (
        codes "[IsAlive] DialTcc liveness probe ("
        ++ to_string (length req_pb)
        ++ codes " req bytes) -> OK")
      ∷ [],
)
