-- ===== src/Service/Streaming/Packing.antt =====
-- How tokens, such as those of a notification's leaves, are packed into lines.
use grace_server.Base.{
  ◌+◌, ◌≤◌, ◌≡◌, refl, sym, ap, ◌∙◌, ◌⊎◌, inl, inr, true, false, List, [], ◌∷◌, ◌++◌, map, length,
  length-append, append-nil, append_assoc, arith, ltb, Bytes, codes, Bool-cases,
}
use grace_server.Base.Every.{All}
use grace_server.Service.Streaming.{pack_all, overflows, indent, width}

-- What a line shows of its tokens.
abbrev pub body : List Bytes → Bytes
body [] = []
body (tok ∷ toks) = (tok ++ codes "  ") ++ body toks

abbrev pub line_of : List Bytes → Bytes
line_of toks = indent ++ body toks

abbrev pub flat : List (List Bytes) → List Bytes
flat [] = []
flat (g ∷ gs) = g ++ flat gs

-- A line is no wider than it should be, or holds one token alone.
abbrev pub IsFitting : List Bytes → Type 0
IsFitting toks = (length (line_of toks) ≤ width) ⊎ (length toks ≡ 1)

abbrev pub IsPacking : List Bytes → List Bytes → Type 0
IsPacking toks lines =
    (groups : List (List Bytes)) × (lines ≡ map line_of groups)
    × (flat groups ≡ toks)
    × All IsFitting groups

body-snoc : (g : List Bytes) (tok : Bytes) → body (g ++ tok ∷ []) ≡ body g ++ (tok ++ codes "  ")
body-snoc [] tok = append-nil (tok ++ codes "  ")
body-snoc (x ∷ g) tok =
    ap (◌++◌ (x ++ codes "  ")) (body-snoc g tok)
    ∙ sym (append_assoc (x ++ codes "  ") (body g) (tok ++ codes "  "))

line_of-snoc :
    (g : List Bytes) (tok : Bytes) → line_of g ++ (tok ++ codes "  ") ≡ line_of (g ++ tok ∷ [])
line_of-snoc g tok =
    append_assoc indent (body g) (tok ++ codes "  ") ∙ ap (◌++◌ indent) (sym (body-snoc g tok))

length-line_of :
    (x : Bytes) (g : List Bytes) → length (line_of (x ∷ g)) ≡ 6 + length x + length (body g)
length-line_of x g =
    omega (arith, length-append (x ++ codes "  ") (body g), length-append x (codes "  "))

holds_token : (x : Bytes) (g : List Bytes) → ltb 4 (length (line_of (x ∷ g))) ≡ true
holds_token x g = ground (arith, length-line_of x g)

length-snoc :
    (line tok : Bytes) → length (line ++ (tok ++ codes "  ")) ≡ length line + length tok + 2
length-snoc line tok =
    omega (arith, length-append line (tok ++ codes "  "), length-append tok (codes "  "))

fits_snoc :
    (x : Bytes) (g : List Bytes) (tok : Bytes)
    → overflows (line_of (x ∷ g)) tok ≡ false
    → IsFitting ((x ∷ g) ++ tok ∷ [])
fits_snoc x g tok e =
    let l : length (line_of (x ∷ g)) + length tok + 2 ≤ width =
      ground (arith, holds_token x g, e) in
    inl (omega (arith, l, ap length (line_of-snoc (x ∷ g) tok), length-snoc (line_of (x ∷ g)) tok))

-- From a line that holds a group already.
pack_group :
    (x : Bytes) (g toks : List Bytes)
    → IsFitting (x ∷ g)
    → IsPacking ((x ∷ g) ++ toks) (pack_all (line_of (x ∷ g)) toks)
unfolding pack_all
pack_group x g [] f = rw (holds_token x g) ((x ∷ g) ∷ [], refl, refl, (f, tt))
pack_group x g (tok ∷ toks) f = elim (Bool-cases (overflows (line_of (x ∷ g)) tok)) [
  | inl e ↦
      let (groups, p, q, a) = pack_group tok [] toks (inr refl) in
      rw e (
        (x ∷ g) ∷ groups,
        ap (◌∷◌ (line_of (x ∷ g)))
            (ap (λ b. pack_all (indent ++ b) toks) (sym (append-nil (tok ++ codes "  "))) ∙ p),
        ap (◌++◌ (x ∷ g)) q,
        (f, a),
      )
  | inr e ↦
      let (groups, p, q, a) = pack_group x (g ++ tok ∷ []) toks (fits_snoc x g tok e) in
      rw e (
        groups,
        ap (λ l. pack_all l toks) (line_of-snoc (x ∷ g) tok) ∙ p,
        q ∙ append_assoc (x ∷ g) (tok ∷ []) toks,
        a,
      )
]

-- Tokens, whatever they are, are packed whole and in their order: the lines are those of groups of
-- tokens that together are all the tokens, each once. No line is wider than 118 bytes unless it
-- holds one token alone. The tokens of a pushed notification are its leaves, with the values cut to
-- 28 bytes before.
pub pack_all-IsPacking : (toks : List Bytes) → IsPacking toks (pack_all indent toks)
unfolding pack_all
pack_all-IsPacking [] = ([], refl, refl, tt)
pack_all-IsPacking (tok ∷ toks) =
    let (groups, p, q, a) = pack_group tok [] toks (inr refl) in
    (groups, ap (λ b. pack_all (indent ++ b) toks) (sym (append-nil (tok ++ codes "  "))) ∙ p, q, a)
