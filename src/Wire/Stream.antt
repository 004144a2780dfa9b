-- ===== src/Wire/Stream.antt =====
-- A decoder that reads one item off the front of a buffer is run until it finds no whole item.
-- Two laws of the decoder make the result independent of how the stream was cut into chunks.
use grace_server.Base.{
  ℕ, zero, suc, ◌≤◌, ◌<◌, ◌≡◌, refl, sym, ap, ◌∙◌, inl, inr, Option, none, some, List, [], ◌∷◌,
  ◌++◌, arith, length, length-append, Bytes, Option-cases,
}

module _ {ℓ} {A : Type ℓ} (next : Bytes → Option (A × Bytes)) where
  -- The items at the front of the buffer, and what is left of it.
  unfoldable pub drain : ℕ → Bytes → List A × Bytes
  drain zero b = ([], b)
  drain (suc f) b = elim (next b) [
    | none ↦ ([], b)
    | some (a, r) ↦ (a ∷ (drain f r).0, (drain f r).1)
  ]

  -- Each item is taken off the front, and bytes behind a whole item do not change it.
  pub record IsDecoder : Type ℓ where
    pub shrinks : (b : Bytes) (a : A) (r : Bytes) → next b ≡ some (a, r) → length r < length b
    pub extends :
        (b c : Bytes) (a : A) (r : Bytes) → next b ≡ some (a, r) → next (b ++ c) ≡ some (a, r ++ c)

module _ {ℓ} {A : Type ℓ} (next : Bytes → Option (A × Bytes)) where
  pub drain-none : (f : ℕ) (b : Bytes) → next b ≡ none → drain next f b ≡ ([], b)
  unfolding drain
  drain-none zero b e = refl
  drain-none (suc f) b e = rw (e, drain)

  pub drain-some :
      (f : ℕ) (b : Bytes) {a : A} {r : Bytes}
      → next b ≡ some (a, r)
      → drain next (suc f) b ≡ (a ∷ (drain next f r).0, (drain next f r).1)
  unfolding drain
  drain-some f b e = rw (e, drain)

  -- Fuel above the length is enough: no whole item is left behind.
  pub drain_done :
      (d : IsDecoder next) (f : ℕ) (b : Bytes) → length b < f → next (drain next f b).1 ≡ none
  drain_done d zero b h = elim h [ ]
  drain_done d (suc f) b h = elim (Option-cases (next b)) [
    | inl e ↦ rw (drain-none (suc f) b e) e
    | inr ((a, r), e) ↦
        rw (drain-some f b e) (drain_done d f r (let s = d.shrinks b a r e in omega arith))
  ]

  -- More fuel changes nothing.
  pub drain_fuel :
      (d : IsDecoder next) (f g : ℕ) (b : Bytes)
      → length b < f
      → length b < g
      → drain next f b ≡ drain next g b
  drain_fuel d zero g b h k = elim h [ ]
  drain_fuel d (suc f) zero b h k = elim k [ ]
  drain_fuel d (suc f) (suc g) b h k = elim (Option-cases (next b)) [
    | inl e ↦ drain-none (suc f) b e ∙ sym (drain-none (suc g) b e)
    | inr ((a, r), e) ↦
        let s = d.shrinks b a r e in
        rw (drain-some f b e, drain-some g b e, drain_fuel d f g r (omega arith) (omega arith))
  ]

  -- The items of a buffer that grows by `c` are those found before, then those found in what
  -- was left with `c` behind it.
  pub drain-append :
      (d : IsDecoder next) (f g : ℕ) (b c : Bytes)
      → length (b ++ c) < f
      → length (b ++ c) < g
      → drain next f (b ++ c) ≡ (
        (drain next f b).0 ++ (drain next g ((drain next f b).1 ++ c)).0,
        (drain next g ((drain next f b).1 ++ c)).1,
      )
  drain-append d zero g b c h k = elim h [ ]
  drain-append d (suc f) g b c h k = elim (Option-cases (next b)) [
    | inl e ↦ rw (drain-none (suc f) b e) (drain_fuel d (suc f) g (b ++ c) h k)
    | inr ((a, r), e) ↦
        let s = d.shrinks b a r e in
        let lb = length-append b c in
        let lr = length-append r c in
        rw (drain-some f (b ++ c) (d.extends b c a r e), drain-some f b e)
          (ap (λ (p : List A × Bytes). (a ∷ p.0, p.1))
            (drain-append d f g r c (omega arith) (omega arith)))
  ]

  drain-le : (d : IsDecoder next) (f : ℕ) (b : Bytes) → length (drain next f b).1 ≤ length b
  drain-le d zero b = unfold drain in omega arith
  drain-le d (suc f) b = elim (Option-cases (next b)) [
    | inl e ↦ rw (drain-none (suc f) b e) (omega arith)
    | inr ((a, r), e) ↦
        let s = d.shrinks b a r e in rw (drain-some f b e) (omega (arith, drain-le d f r))
  ]

  -- The fuel that always suffices.
  unfoldable pub drain_all : Bytes → List A × Bytes
  drain_all b = drain next (suc (length b)) b

  pub drain_all_done : IsDecoder next → (b : Bytes) → next (drain_all b).1 ≡ none
  unfolding drain_all
  drain_all_done d b = drain_done d (suc (length b)) b (omega arith)

  -- What a buffer that grows by `c` holds is what was found before, then what is found in the
  -- bytes left with `c` behind them.
  pub drain_all-append :
      IsDecoder next
      → (b c : Bytes)
      → drain_all (b ++ c) ≡ (
        (drain_all b).0 ++ (drain_all ((drain_all b).1 ++ c)).0,
        (drain_all ((drain_all b).1 ++ c)).1,
      )
  unfolding drain_all
  drain_all-append d b c =
      let lb = length-append b c in
      let left = (drain next (suc (length b)) b).1 in
      let ll = length-append left c in
      let le = drain-le d (suc (length b)) b in
      drain_fuel d (suc (length (b ++ c))) (suc (length (b ++ c))) (b ++ c) (omega arith)
        (omega arith)
      ∙ drain-append d (suc (length (b ++ c))) (suc (length (b ++ c))) b c (omega arith)
          (omega arith)
      ∙ rw (
        drain_fuel d (suc (length (b ++ c))) (suc (length b)) b (omega arith) (omega arith),
        drain_fuel d (suc (length (b ++ c))) (suc (length (left ++ c))) (left ++ c) (omega arith)
            (omega arith),
      )
