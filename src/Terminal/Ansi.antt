-- ===== src/Terminal/Ansi.antt =====
-- `strip_ansi` of app/inc/ansi_util.hpp. `std::isalpha` is that of the C locale.
use grace_server.Base.{
  ℕ, ◌≡◌, refl, ap, ◌∙◌, subst, true, Bool, false, ◌&&◌, ◌||◌, [], ◌∷◌, ◌++◌, leb, ◌==◌,
  if◌then◌else◌, Bytes, tested_branches,
}
use grace_server.Base.Every.{All, All-append}
use grace_server.Base.Split.{Lacks}

-- Where the loop stands: in the text, behind an escape byte, in a CSI or an OSC sequence, or behind
-- an escape byte of an OSC sequence.
pub data Place : Type 0 where
  text escape csi osc osc_escape : Place

abbrev pub esc : ℕ
esc = 0x1B

abbrev pub is_alpha : ℕ → Bool
is_alpha c = leb b'A' c && leb c b'Z' || leb b'a' c && leb c b'z'

-- The place behind a byte, and what is put out.
unfoldable pub in_text : ℕ → Place × Bytes
in_text x = if x == esc then (escape, []) else (text, x ∷ [])

unfoldable pub in_osc : ℕ → Place × Bytes
in_osc x = if x == 7 then (text, []) else if x == esc then (osc_escape, []) else (osc, [])

unfoldable pub next : Place → ℕ → Place × Bytes
unfolding in_text in_osc
next text x = in_text x
next escape x = if x == b'[' then (csi, []) else if x == b']' then (osc, []) else in_text x
next csi x = if is_alpha x then (text, []) else (csi, [])
next osc x = in_osc x
next osc_escape x = if x == b'\\' then (text, []) else in_osc x

unfoldable pub strip_from : Place → Bytes → Bytes
unfolding next
strip_from p [] = []
strip_from p (x ∷ xs) = (next p x).1 ++ strip_from (next p x).0 xs

unfoldable pub strip_ansi : Bytes → Bytes
unfolding strip_from
strip_ansi s = strip_from text s

abbrev Clean : Place × Bytes → Type 0
Clean r = Lacks esc r.1

in_text-Clean : (x : ℕ) → Clean (in_text x)
unfolding in_text
in_text-Clean x = tested_branches Clean (x == esc) _ _ (λ e. tt) (λ e. (e, tt))

in_osc-Clean : (x : ℕ) → Clean (in_osc x)
unfolding in_osc
in_osc-Clean x =
    tested_branches Clean (x == 7) _ _ (λ e. tt)
      (λ e. tested_branches Clean (x == esc) _ _ (λ f. tt) (λ f. tt))

next-Clean : (p : Place) (x : ℕ) → Clean (next p x)
unfolding next
next-Clean text x = in_text-Clean x
next-Clean escape x =
    tested_branches Clean (x == b'[') _ _ (λ e. tt)
      (λ e. tested_branches Clean (x == b']') _ _ (λ f. tt) (λ f. in_text-Clean x))
next-Clean csi x = tested_branches Clean (is_alpha x) _ _ (λ e. tt) (λ e. tt)
next-Clean osc x = in_osc-Clean x
next-Clean osc_escape x = tested_branches Clean (x == b'\\') _ _ (λ e. tt) (λ e. in_osc-Clean x)

strip_from-Lacks : (p : Place) (s : Bytes) → Lacks esc (strip_from p s)
unfolding strip_from
strip_from-Lacks p [] = tt
strip_from-Lacks p (x ∷ xs) =
    All-append (λ y. (y == esc) ≡ false) (next p x).1 (strip_from (next p x).0 xs) (next-Clean p x)
      (strip_from-Lacks (next p x).0 xs)

-- The second text, with escape sequences in it: CSI sequences, up to their letter, and OSC
-- sequences, up to a bell or to an escape byte and a backslash.
pub data Marked : Bytes → Bytes → Type 0 where
  end : Marked [] []
  plain : {s t : Bytes} (x : ℕ) → (x == esc) ≡ false → Marked s t → Marked (x ∷ s) (x ∷ t)
  csi_sequence :
      {s t : Bytes} (params : Bytes) (letter : ℕ)
      → All (λ c. is_alpha c ≡ false) params
      → is_alpha letter ≡ true
      → Marked s t
      → Marked (esc ∷ b'[' ∷ (params ++ letter ∷ s)) t
  osc_with_bell :
      {s t : Bytes} (title : Bytes)
      → All (λ c. ((c == 7) ≡ false) × ((c == esc) ≡ false)) title
      → Marked s t
      → Marked (esc ∷ b']' ∷ (title ++ 7 ∷ s)) t
  osc_with_st :
      {s t : Bytes} (title : Bytes)
      → All (λ c. ((c == 7) ≡ false) × ((c == esc) ≡ false)) title
      → Marked s t
      → Marked (esc ∷ b']' ∷ (title ++ esc ∷ b'\\' ∷ s)) t

strip_csi :
    (params s : Bytes) (letter : ℕ)
    → All (λ c. is_alpha c ≡ false) params
    → is_alpha letter ≡ true
    → strip_from csi (params ++ letter ∷ s) ≡ strip_from text s
unfolding strip_from next
strip_csi [] s letter a l = rw l refl
strip_csi (c ∷ params) s letter a l = rw (a.0) (strip_csi params s letter a.1 l)

strip_osc :
    (title s : Bytes)
    → All (λ c. ((c == 7) ≡ false) × ((c == esc) ≡ false)) title
    → strip_from osc (title ++ s) ≡ strip_from osc s
unfolding strip_from next in_osc
strip_osc [] s a = refl
strip_osc (c ∷ title) s a = rw (a.0.0, a.0.1) (strip_osc title s a.1)

strip_from-Marked : (s t : Bytes) → Marked s t → strip_from text s ≡ t
unfolding strip_from next in_text in_osc
strip_from-Marked _ _ end = refl
strip_from-Marked _ _ (plain {s = s} {t = t} x e m) = rw e (ap (◌∷◌ x) (strip_from-Marked s t m))
strip_from-Marked _ _ (csi_sequence {s = s} {t = t} params letter a l m) =
    strip_csi params s letter a l ∙ strip_from-Marked s t m
strip_from-Marked _ _ (osc_with_bell {s = s} {t = t} title a m) =
    strip_osc title (7 ∷ s) a ∙ strip_from-Marked s t m
strip_from-Marked _ _ (osc_with_st {s = s} {t = t} title a m) =
    strip_osc title (esc ∷ b'\\' ∷ s) a ∙ strip_from-Marked s t m

-- Of a text with whole escape sequences in it, exactly these are taken out, wherever they stand and
-- however many there are: what is left is the text without them, and it has no escape byte. The
-- sequences are CSI up to their letter, and OSC up to a bell or an escape byte with a backslash.
pub strip_ansi-Marked : (s t : Bytes) → Marked s t → (strip_ansi s ≡ t) × Lacks esc t
unfolding strip_ansi
strip_ansi-Marked s t m =
    let e = strip_from-Marked s t m in (e, subst (Lacks esc) e (strip_from-Lacks text s))
