-- ===== src/Base/Split.antt =====
-- Lemmas on `split_at`, `std::string::find` of one byte.
use grace_server.Base.{
  ℕ, ◌<◌, ◌≡◌, refl, inl, inr, Bool, true, false, none, some, [], ◌∷◌, ◌++◌, arith, length, ◌==◌,
  Bytes, split_at, split_last, Bool-cases, Option-cases,
}
use grace_server.Base.Every.{All}

-- The byte is nowhere in the text.
abbrev pub Lacks : ℕ → Bytes → Type 0
Lacks c s = All (λ x. (x == c) ≡ false) s

pub split_at-Lacks : (c : ℕ) (s t : Bytes) → Lacks c s → split_at c (s ++ c ∷ t) ≡ some (s, t)
unfolding split_at
split_at-Lacks c [] t h = ground arith
split_at-Lacks c (x ∷ s) t h = rw (h.0, split_at-Lacks c s t h.1) refl

pub split_at-none : (c : ℕ) (s : Bytes) → Lacks c s → split_at c s ≡ none
unfolding split_at
split_at-none c [] h = refl
split_at-none c (x ∷ s) h = rw (h.0, split_at-none c s h.1) refl

pub split_at-shrinks : (c : ℕ) (b a r : Bytes) → split_at c b ≡ some (a, r) → length r < length b
unfolding split_at
split_at-shrinks c [] a r e = absurd (cc e)
split_at-shrinks c (x ∷ b) a r e = elim (Bool-cases (x == c)) [
  | inl q ↦ ground arith
  | inr q ↦ elim (Option-cases (split_at c b)) [
    | inl n ↦ absurd (ground arith)
    | inr ((a', r'), f) ↦ let l = split_at-shrinks c b a' r' f in ground arith
  ]
]

pub split_at-extends :
    (c : ℕ) (b t a r : Bytes) → split_at c b ≡ some (a, r) → split_at c (b ++ t) ≡ some (a, r ++ t)
unfolding split_at
split_at-extends c [] t a r e = absurd (cc e)
split_at-extends c (x ∷ b) t a r e = elim (Bool-cases (x == c)) [
  | inl q ↦ ground arith
  | inr q ↦ elim (Option-cases (split_at c b)) [
    | inl n ↦ absurd (ground arith)
    | inr ((a', r'), f) ↦ let l = split_at-extends c b t a' r' f in ground arith
  ]
]

pub split_last-none : (t : ℕ → Bool) (s : Bytes) → All (λ x. t x ≡ false) s → split_last t s ≡ none
unfolding split_last
split_last-none t [] h = refl
split_last-none t (x ∷ s) h = rw (split_last-none t s h.1, h.0) refl

-- The last byte chosen is the one with none behind it.
pub split_last-append :
    (t : ℕ → Bool) (a b : Bytes) (c : ℕ)
    → t c ≡ true
    → All (λ x. t x ≡ false) b
    → split_last t (a ++ c ∷ b) ≡ some (a, b)
unfolding split_last
split_last-append t [] b c e h = rw (split_last-none t b h, e) refl
split_last-append t (x ∷ a) b c e h = rw (split_last-append t a b c e h) refl
