-- ===== src/Gnmi/Command/EndToEnd.antt =====
-- The console's commands and the server's handlers.
use grace_server.Base.{
  ℕ, ◌≡◌, refl, ap, ◌⊎◌, inl, inr, Bool, true, not, ◌&&◌, ◌||◌, some, List, [], ◌∷◌, map, Bytes,
  codes, equal, is_empty, split_at, ◌==◌, Bool-cases, Option-cases, both_branches,
}
use grace_server.Base.Every.{All, All-append}
use grace_server.Gnmi.{ℤ, GnmiPath, Update}
use grace_server.Gnmi.Command.{
  Codec, Subscription, Endpoint, Effect, out, push, subscribe, read_pairs, do_set, do_get,
  do_subscribe, peel_interval, pieces, read_paths, subscription, help, dispatch, read_verb, trim,
  first_line,
}
use grace_server.Gnmi.Paths.{path_to_string}
use grace_server.Gnmi.SubHub.{add}
use grace_server.Service.{State, Client}
use grace_server.Service.Unary as Unary
use grace_server.Service.Streaming as Streaming

-- What a command's text asks for: the updates of a Set, the paths of a Get, the subscriptions.
abbrev pub set_updates : Bytes → List Update
set_updates spec = (read_pairs (pieces spec)).0

abbrev pub get_paths : Bytes → List GnmiPath
get_paths spec = read_paths (pieces spec)

abbrev pub subscriptions : Codec → Bytes → List Subscription
subscriptions c spec =
    map (subscription (peel_interval c spec).1) (read_paths (pieces (peel_interval c spec).0))

-- The two sides' generated classes are those of one schema: the server reads the requests that a
-- text can become as they were written.
pub record Agree (c : Codec) (u : Unary.Codec) (s : Streaming.Codec) (spec : Bytes) : Type 0 where
  pub set_agrees :
      u.parse_set_request (c.set_request (codes "ADMIN") (set_updates spec))
      ≡ some (codes "ADMIN", record { updates = set_updates spec; replaces = []; deletes = [] })
  pub get_agrees :
      u.parse_get_request (c.get_request (codes "VIEWER") (get_paths spec))
      ≡ some (record {
        prefix = record { target = codes "VIEWER"; elems = [] };
        paths = get_paths spec;
      })
  pub subscribe_agrees :
      (mode : Bool)
      → s.parse_subscribe_request (c.subscribe_request (codes "VIEWER") mode (subscriptions c spec))
        ≡ some (record {
          subscriptions = map (λ (x : Subscription). x.path) (subscriptions c spec);
          streaming = mode;
        })

module _ (c : Codec) (u : Unary.Codec) (s : Streaming.Codec) where
  module _ (st : State) (me : Client) (now : ℤ) (sid : ℕ) where
    -- A Set or a Get is answered OK, and a subscription is registered with the paths asked for.
    abbrev pub IsAccepted : Bytes → Effect → Type 0
    IsAccepted spec (out line) = Unit
    IsAccepted spec (push path pb) =
        ((path ≡ codes "/gnmi.gNMI/Set") × ((Unary.set u st now pb).0.0 ≡ 0))
        ⊎ ((path ≡ codes "/gnmi.gNMI/Get") × ((Unary.get u pb).0.0 ≡ 0))
    IsAccepted spec (subscribe pb) =
        (Streaming.start_subscription s st me sid pb).0.subs
        ≡ add st.subs me.this me.grpc sid
            (map path_to_string (read_paths (pieces (peel_interval c spec).0)))

    set_accepted :
        (spec : Bytes)
        → Agree c u s spec
        → (Unary.set u st now (c.set_request (codes "ADMIN") (set_updates spec))).0.0 ≡ 0
    unfolding Unary.set equal
    set_accepted spec agree = rw (agree.set_agrees, Unary.set) refl

    get_accepted :
        (spec : Bytes)
        → Agree c u s spec
        → (Unary.get u (c.get_request (codes "VIEWER") (get_paths spec))).0.0 ≡ 0
    unfolding Unary.get
    get_accepted spec agree = rw (agree.get_agrees, Unary.get) refl

    subscribe_request-IsAccepted :
        (spec : Bytes)
        → Agree c u s spec
        → IsAccepted spec
            (subscribe (c.subscribe_request (codes "VIEWER") true (subscriptions c spec)))
    unfolding Streaming.start_subscription
    subscribe_request-IsAccepted spec agree =
        rw (agree.subscribe_agrees true, Streaming.start_subscription)
          (ap (add st.subs me.this me.grpc sid)
            (asked (read_paths (pieces (peel_interval c spec).0))))
      where
        asked :
            (ps : List GnmiPath)
            → map path_to_string (
                map (λ (x : Subscription). x.path) (map (subscription (peel_interval c spec).1) ps))
              ≡ map path_to_string ps
        asked [] = refl
        asked (p ∷ ps) = ap (◌∷◌ (path_to_string p)) (asked ps)

    abbrev Accepts : Bytes → List Effect → Type 0
    Accepts spec = All (IsAccepted spec)

    read_pairs-Accepts : (spec : Bytes) (ps : List Bytes) → Accepts spec (read_pairs ps).1
    unfolding read_pairs
    read_pairs-Accepts spec [] = tt
    read_pairs-Accepts spec (p ∷ ps) = elim (Bool-cases (is_empty (trim p))) [
      | inl e ↦ rw e (read_pairs-Accepts spec ps)
      | inr e ↦ elim (Option-cases (split_at b':' (trim p))) [
        | inl f ↦ rw (e, f) (tt, read_pairs-Accepts spec ps)
        | inr (kv, f) ↦ rw (e, f) (read_pairs-Accepts spec ps)
      ]
    ]

    do_set-Accepts :
        (remote : Endpoint) (spec : Bytes) → Agree c u s spec → Accepts spec (do_set c remote spec)
    unfolding do_set
    do_set-Accepts remote spec agree =
        let r = read_pairs (pieces spec) in
        let said = read_pairs-Accepts spec (pieces spec) in
        both_branches (Accepts spec) (is_empty spec) _ _ (tt, tt)
          (both_branches (Accepts spec) (is_empty r.0) _ _
            (All-append (IsAccepted spec) r.1 _ said (tt, tt))
            (All-append (IsAccepted spec) r.1 _ said
              (tt, (inl (refl, set_accepted spec agree), tt))))

    do_get-Accepts :
        (remote : Endpoint) (spec : Bytes) → Agree c u s spec → Accepts spec (do_get c remote spec)
    unfolding do_get
    do_get-Accepts remote spec agree =
        let paths = read_paths (pieces spec) in
        both_branches (Accepts spec) (is_empty spec) _ _ (tt, tt)
          (both_branches (Accepts spec) (is_empty paths) _ _ (tt, tt)
            (tt, (inr (refl, get_accepted spec agree), tt)))

    do_subscribe-Accepts :
        (remote : Endpoint) (spec : Bytes)
        → Agree c u s spec
        → Accepts spec (do_subscribe c remote spec)
    unfolding do_subscribe
    do_subscribe-Accepts remote spec agree =
        let peeled = peel_interval c spec in
        let paths = read_paths (pieces peeled.0) in
        both_branches (Accepts spec) (is_empty spec) _ _ (tt, tt)
          (both_branches (Accepts spec) (not (is_empty peeled.2) && peeled.1 == 0) _ _ (tt, tt)
            (both_branches (Accepts spec) (is_empty paths) _ _ (tt, tt)
              (tt, (subscribe_request-IsAccepted spec agree, tt))))

    help-Accepts : (spec : Bytes) → Accepts spec help
    unfolding help
    help-Accepts spec = (tt, (tt, (tt, (tt, (tt, (tt, (tt, (tt, tt))))))))

    -- Whatever is typed at the console, each request that comes of it is one that the server accepts, if
    -- the server reads the requests that the line's text can become as they were written: a Set and a
    -- Get are answered OK, whatever the server's state, and a subscription, its mode being STREAM, is
    -- registered for the connection and the stream that it came on, with the paths typed.
    pub dispatch-Accepts :
        (remote : Endpoint) (line : Bytes)
        → Agree c u s (trim (first_line (read_verb line).1))
        → All (IsAccepted (trim (first_line (read_verb line).1))) (dispatch c remote line).1
    unfolding dispatch
    dispatch-Accepts remote line agree =
        let verb = (read_verb line).0 in
        let spec = trim (first_line (read_verb line).1) in
        let P : Bool × List Effect → Type 0 = λ r. Accepts spec r.1 in
        both_branches P (equal verb (codes "set")) _ _ (do_set-Accepts remote spec agree) (
          both_branches P (equal verb (codes "get")) _ _ (do_get-Accepts remote spec agree) (
            both_branches P (equal verb (codes "subscribe") || equal verb (codes "sub")) _ _
              (do_subscribe-Accepts remote spec agree)
              (both_branches P (equal verb (codes "help")) _ _ (help-Accepts spec) (
                both_branches P (equal verb (codes "quit") || equal verb (codes "exit")) _ _ tt
                  (both_branches P (not (is_empty verb)) _ _ (tt, tt) tt)))))
