-- ===== src/Gnmi/Client/Once.antt =====
-- How often a call's answer is handed over.
use grace_server.Base.{
  ◌≡◌, refl, sym, ap, ◌∙◌, ◌⊎◌, inl, inr, true, false, Option, none, some, List, [], ◌∷◌, ◌++◌,
  append-nil, subst, arith, Bytes, ℕ, codes, Bool-cases, Option-cases, is_empty,
}
use grace_server.Base.Dict.{Dict, lookup}
use grace_server.Base.Keys.{bytes_key}
use grace_server.Gnmi.{ℤ, negsuc, Response}
use grace_server.Gnmi.Client.{
  Connection, Effect, tx, submit_request, complain, calls, notifies, throws, flush, call_done,
  finish, capture_response, failed, Received, recv_error, received, handle_read, handle_event,
  handle_close, status_or,
}

-- What happens to a connection that has been opened.
pub data Event : Type 0 where
  reads : Received → Bytes → Event
  times_out closes : Event

-- The responses handed to a callback.
abbrev pub handed : List Effect → List Response
handed [] = []
handed (calls cb r ∷ es) = r ∷ handed es
handed (tx b ∷ es) = handed es
handed (submit_request p h hs b ∷ es) = handed es
handed (complain l ∷ es) = handed es
handed (notifies cb b ∷ es) = handed es
handed (throws ∷ es) = handed es

pub handed-append : (es fs : List Effect) → handed (es ++ fs) ≡ handed es ++ handed fs
handed-append [] fs = refl
handed-append (calls cb r ∷ es) fs = ap (◌∷◌ r) (handed-append es fs)
handed-append (tx b ∷ es) fs = handed-append es fs
handed-append (submit_request p h hs b ∷ es) fs = handed-append es fs
handed-append (complain l ∷ es) fs = handed-append es fs
handed-append (notifies cb b ∷ es) fs = handed-append es fs
handed-append (throws ∷ es) fs = handed-append es fs

handed-flush : (out : Bytes) → handed (flush out) ≡ []
unfolding flush
handed-flush out = elim (Bool-cases (is_empty out)) [ inl e ↦ rw e refl | inr e ↦ rw e refl ]

finish_done : (c : Connection) (r : Response) → c.done ≡ true → finish c r ≡ (c, [])
unfolding finish
finish_done c r d = ground arith

finish_first :
    (c : Connection) (r : Response)
    → c.done ≡ false
    → finish c r ≡ (record c { response = r; done = true }, call_done c.on_done r)
unfolding finish
finish_first c r d = ground arith

handle_close_done : (c : Connection) → c.done ≡ true → handle_close c ≡ (c, [])
unfolding handle_close
handle_close_done c d = ground arith

handle_close_first :
    (c : Connection)
    → c.done ≡ false
    → handle_close c ≡ (
      (finish c (failed (codes "connection closed before response"))).0,
      complain (codes "[gnmi_connection] connection closed before response")
          ∷ (finish c (failed (codes "connection closed before response"))).1,
    )
unfolding handle_close
handle_close_first c d = ground arith

-- Nothing has been handed over so far, or the response has, and the connection is done.
abbrev pub IsOnce : Connection → List Response → Type 0
IsOnce c rs = ((c.done ≡ false) × (rs ≡ [])) ⊎ ((c.done ≡ true) × (rs ≡ c.response ∷ []))

module _ (cb : ℕ) where
  -- From a connection that is done nothing comes any more.
  abbrev IsStep : Connection → Connection → List Response → Type 0
  IsStep c c' rs =
      ((c.done ≡ true) × (c' ≡ c) × (rs ≡ []))
      ⊎ ((c.done ≡ false) × (c'.on_done ≡ some cb) × IsOnce c' rs)

  finish-IsStep :
      (c : Connection) (r : Response)
      → c.on_done ≡ some cb
      → IsStep c (finish c r).0 (handed (finish c r).1)
  finish-IsStep c r e = elim (Bool-cases c.done) [
    | inl d ↦
        subst (λ (x : Connection × List Effect). IsStep c x.0 (handed x.1))
          (sym (finish_done c r d)) (inl (d, refl, refl))
    | inr d ↦
        subst (λ (x : Connection × List Effect). IsStep c x.0 (handed x.1))
          (sym (finish_first c r d)) (inr (d, e, inr (refl, ap (λ o. handed (call_done o r)) e)))
  ]

  module _ (gzip_inflate : Bytes → Bytes) (stoi : Bytes → Option ℤ) where
    abbrev pub step : Connection → Event → Connection × List Effect
    step c (reads got out) = handle_read gzip_inflate stoi c got out
    step c times_out = handle_event c
    step c closes = handle_close c

    abbrev pub run : Connection → List Event → Connection × List Effect
    run c [] = (c, [])
    run c (ev ∷ evs) = ((run (step c ev).0 evs).0, (step c ev).1 ++ (run (step c ev).0 evs).1)

    idle :
        (c : Connection) (es : List Effect)
        → c.on_done ≡ some cb
        → handed es ≡ []
        → IsStep c c (handed es)
    idle c es e q = elim (Bool-cases c.done) [
      | inl d ↦ inl (d, refl, q)
      | inr d ↦ inr (d, e, inl (d, q))
    ]

    closes_first :
        (c : Connection)
        → c.done ≡ false
        → IsStep c
            (finish c (failed (codes "connection closed before response"))).0
            (handed (finish c (failed (codes "connection closed before response"))).1)
        → IsStep c (handle_close c).0 (handed (handle_close c).1)
    closes_first c d h =
        subst (λ (x : Connection × List Effect). IsStep c x.0 (handed x.1))
          (sym (handle_close_first c d)) h

    capture_response-IsStep :
        (c : Connection) (headers : Dict Bytes Bytes) (body : Bytes)
        → c.on_done ≡ some cb
        → IsStep c
            (capture_response gzip_inflate stoi c headers body).0
            (handed (capture_response gzip_inflate stoi c headers body).1)
    unfolding capture_response
    capture_response-IsStep c headers body e =
        elim (Option-cases (status_or stoi (negsuc 0) (lookup (codes "grpc-status") headers))) [
          | inl q ↦ rw (q, capture_response) (idle c (throws ∷ []) e refl)
          | inr (status, q) ↦ rw (q, capture_response) (finish-IsStep c _ e)
        ]

    step-IsStep :
        (c : Connection) (ev : Event)
        → c.on_done ≡ some cb
        → IsStep c (step c ev).0 (handed (step c ev).1)
    unfolding handle_read handle_event handle_close
    step-IsStep c (reads (recv_error code) out) e = finish-IsStep c _ e
    step-IsStep c (reads (received none) out) e = idle c (flush out) e (handed-flush out)
    step-IsStep c (reads (received (some (headers, body))) out) e =
        let r = capture_response gzip_inflate stoi c headers body in
        subst (IsStep c r.0)
          (sym (
            handed-append r.1 (flush out)
            ∙ ap (λ x. handed r.1 ++ x) (handed-flush out)
            ∙ append-nil (handed r.1)))
          (capture_response-IsStep c headers body e)
    step-IsStep c times_out e = finish-IsStep c _ e
    step-IsStep c closes e = elim (Bool-cases c.done) [
      | inl d ↦
          subst (λ (x : Connection × List Effect). IsStep c x.0 (handed x.1))
            (sym (handle_close_done c d)) (inl (d, refl, refl))
      | inr d ↦ closes_first c d (finish-IsStep c _ e)
    ]

    subst_handed : (c : Connection) {xs ys : List Response} → xs ≡ ys → IsOnce c xs → IsOnce c ys
    subst_handed c e h = subst (IsOnce c) e h

    -- A connection that is done stays as it is.
    run_done :
        (c : Connection) (evs : List Event)
        → c.on_done ≡ some cb
        → c.done ≡ true
        → ((run c evs).0 ≡ c) × (handed (run c evs).1 ≡ [])
    run_done c [] e d = (refl, refl)
    run_done c (ev ∷ evs) e d = elim (step-IsStep c ev e) [
      | inr (n, _, _) ↦ absurd (cc (d, n))
      | inl (_, q, s) ↦
          let same = ap (λ (x : Connection). run x evs) q in
          let (p, t) = run_done c evs e d in
          (
            ap (λ (x : Connection × List Effect). x.0) same ∙ p,
            handed-append (step c ev).1 (run (step c ev).0 evs).1
                ∙ ap (λ x. x ++ handed (run (step c ev).0 evs).1) s
                ∙ ap (λ (x : Connection × List Effect). handed x.1) same
                ∙ t,
          )
    ]

    -- The answer to a call is handed over at most once, whatever is read, times out and closes and in
    -- whatever order: of a connection that is not done and has a callback, either it is still not
    -- done and the callback has not been called, or it is done and the callback was called once, with
    -- the response that the connection keeps.
    pub run-IsOnce :
        (c : Connection) (evs : List Event)
        → c.on_done ≡ some cb
        → c.done ≡ false
        → IsOnce (run c evs).0 (handed (run c evs).1)
    run-IsOnce c [] e d = inl (d, refl)
    run-IsOnce c (ev ∷ evs) e d = elim (step-IsStep c ev e) [
      | inl (n, _, _) ↦ absurd (cc (d, n))
      | inr (_, e', inl (d', s)) ↦
          subst_handed (run (step c ev).0 evs).0
            (sym (
              handed-append (step c ev).1 (run (step c ev).0 evs).1
              ∙ ap (λ x. x ++ handed (run (step c ev).0 evs).1) s))
            (run-IsOnce (step c ev).0 evs e' d')
      | inr (_, e', inr (d', s)) ↦
          let (p, t) = run_done (step c ev).0 evs e' d' in
          inr (
            ap (λ (x : Connection). x.done) p ∙ d',
            handed-append (step c ev).1 (run (step c ev).0 evs).1
                ∙ ap (λ x. x ++ handed (run (step c ev).0 evs).1) s
                ∙ ap (λ x. (step c ev).0.response ∷ x) t
                ∙ ap (λ (x : Connection). x.response ∷ []) (sym p),
          )
    ]
