-- ===== src/Vpn/Pool/Filling.antt =====
-- The constructor's loop, and ranges that end at 255.255.255.255.
use grace_server.Base.{
  ℕ, zero, suc, ◌+◌, ◌-◌, ◌%◌, ◌^◌, ◌≤◌, ◌<◌, ◌≡◌, refl, sym, ap, ◌∙◌, true, false, none, some,
  List, [], ◌∷◌, ◌++◌, append-nil, append_assoc, arith, leb,
}
use grace_server.Base.Every.{All, All-append}
use grace_server.Vpn.Pool.{fill, set_insert}

-- a, a + 1, …, n of them.
abbrev pub range : ℕ → ℕ → List ℕ
range a zero = []
range a (suc n) = a ∷ range (a + 1) n

set_insert_above : (a : ℕ) (xs : List ℕ) → All (λ x. x < a) xs → set_insert a xs ≡ xs ++ a ∷ []
unfolding set_insert
set_insert_above a [] h = refl
set_insert_above a (x ∷ xs) h = ground (arith, set_insert_above a xs)

All-below_mono : (a b : ℕ) (xs : List ℕ) → a ≤ b → All (λ x. x < a) xs → All (λ x. x < b) xs
All-below_mono a b [] h k = tt
All-below_mono a b (x ∷ xs) h k = (omega arith, All-below_mono a b xs h k.1)

-- With enough rounds the addresses from `a` to `hi` join those below `a`.
fill-range' :
    (fuel n a hi : ℕ) (free : List ℕ)
    → n < fuel
    → a + n ≡ hi + 1
    → hi + 1 < 2 ^ 32
    → All (λ x. x < a) free
    → fill fuel a hi free ≡ some (free ++ range a n)
unfolding fill
fill-range' zero n a hi free h e k b = elim h [ ]
fill-range' (suc fuel) zero a hi free h e k b =
    let past : leb a hi ≡ false = ground arith in rw past (ap some (sym (append-nil free)))
fill-range' (suc fuel) (suc n) a hi free h e k b =
    let here : leb a hi ≡ true = ground arith in
    let up : (a + 1) % 2 ^ 32 ≡ a + 1 = omega arith in
    let grown =
      All-append (λ x. x < a + 1) free (a ∷ []) (All-below_mono a (a + 1) free (omega arith) b)
        (omega arith, tt) in
    rw (here, up, set_insert_above a free b)
      (fill-range' fuel n (a + 1) hi (free ++ a ∷ []) (omega arith) (omega arith) k grown
        ∙ ap some (append_assoc free (a ∷ []) (range (a + 1) n)))

-- For a range from `lo` that ends below 255.255.255.255, the pool holds exactly its addresses, once
-- each and in order, with one round more than there are addresses; an empty range (whose end is
-- `lo` - 1, so `lo` is not 0) gives an empty pool.
pub fill-range :
    (fuel lo n : ℕ)
    → n < fuel
    → lo + n < 2 ^ 32
    → 0 < lo + n
    → fill fuel lo (lo + n - 1) [] ≡ some (range lo n)
fill-range fuel lo n h k p = fill-range' fuel n lo (lo + n - 1) [] h (omega arith) (omega arith) tt

-- A range that ends at 255.255.255.255 is never filled: the counter wraps below the end, so the
-- loop goes on after any number of rounds.
pub fill_diverges : (fuel a : ℕ) (free : List ℕ) → a < 2 ^ 32 → fill fuel a (2 ^ 32 - 1) free ≡ none
unfolding fill
fill_diverges zero a free h = refl
fill_diverges (suc fuel) a free h =
    let here : leb a (2 ^ 32 - 1) ≡ true = ground arith in
    rw here (fill_diverges fuel ((a + 1) % 2 ^ 32) (set_insert a free) (omega arith))
