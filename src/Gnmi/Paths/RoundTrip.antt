-- ===== src/Gnmi/Paths/RoundTrip.antt =====
-- Paths that are printed, and their reading.
use grace_server.Base.{
  ℕ, zero, suc, ◌+◌, ◌<◌, ◌≤◌, ◌≡◌, refl, sym, subst, ap, ◌∙◌, inl, inr, false, none, [], ◌∷◌, ◌++◌,
  arith, append-nil, append_assoc, map, length, length-append, ◌==◌, Bytes, is_empty, Bool-cases,
}
use grace_server.Base.Split.{Lacks, split_at-Lacks, split_at-none}
use grace_server.Base.Dict.{Dict, lookup, insert, remove_if}
use grace_server.Base.Keys.{bytes_key}
use grace_server.Base.Every.{All, All-append}
use grace_server.Base.Distinct.{Distinct}
use grace_server.Gnmi.{PathElem, GnmiPath}
use grace_server.Gnmi.Paths.{
  pieces, segments, set_key, read_keys, parse_elem, strip_slash, parse_yang_path, keys_to_string,
  elems_to_string, path_to_string,
}

-- Keys without '/', '=' and ']' and values without '/' and ']'.
abbrev pub IsPlainKey : Bytes × Bytes → Type 0
IsPlainKey (k, v) = Lacks b'=' k × Lacks b']' k × Lacks b'/' k × Lacks b']' v × Lacks b'/' v

-- A name that is not empty and has no '/' and no '[', and such keys, each once.
abbrev pub IsPlain : PathElem → Type 0
IsPlain e =
    (is_empty e.name ≡ false)
    × Lacks b'/' e.name
    × Lacks b'[' e.name
    × All IsPlainKey e.keys
    × Distinct e.keys

pieces-Lacks : (s t : Bytes) → Lacks b'/' s → pieces (s ++ b'/' ∷ t) ≡ s ∷ pieces t
unfolding pieces
pieces-Lacks [] t h = refl
pieces-Lacks (x ∷ s) t h = rw (h.0, pieces-Lacks s t h.1) refl

pieces-whole : (s : Bytes) → Lacks b'/' s → pieces s ≡ s ∷ []
unfolding pieces
pieces-whole [] h = refl
pieces-whole (x ∷ s) h = rw (h.0, pieces-whole s h.1) refl

-- A new key goes to the end.
insert-end :
    (k v : Bytes) (m : Dict Bytes Bytes) → lookup k m ≡ none → insert k v m ≡ m ++ (k, v) ∷ []
unfolding insert lookup
insert-end k v [] h = refl
insert-end k v ((j, w) ∷ m) h = elim (Bool-cases (bytes_key.beq j k)) [
  | inl e ↦ absurd (ground arith)
  | inr e ↦ rw e (ap (◌∷◌ (j, w)) (insert-end k v m (ground arith)))
]

lookup-before :
    (j k v : Bytes) (m rest : Dict Bytes Bytes)
    → lookup j (m ++ (k, v) ∷ rest) ≡ none
    → bytes_key.beq j k ≡ false
unfolding lookup
lookup-before j k v [] rest h = ground (arith, bytes_key.beq_iff j k, bytes_key.beq_iff k j)
lookup-before j k v ((i, w) ∷ m) rest h = elim (Bool-cases (bytes_key.beq i j)) [
  | inl e ↦ absurd (ground arith)
  | inr e ↦ lookup-before j k v m rest (ground arith)
]

Distinct-before :
    (k v : Bytes) (m rest : Dict Bytes Bytes) → Distinct (m ++ (k, v) ∷ rest) → lookup k m ≡ none
unfolding lookup
Distinct-before k v [] rest d = refl
Distinct-before k v ((j, w) ∷ m) rest (n, d) =
    rw (lookup-before j k v m rest n) (Distinct-before k v m rest d)

keys-length : (kvs : Dict Bytes Bytes) → length kvs + length kvs ≤ length (keys_to_string kvs)
unfolding keys_to_string
keys-length [] = omega arith
keys-length ((k, v) ∷ kvs) = omega (
  arith,
  keys-length kvs,
  length-append k (b'=' ∷ (v ++ b']' ∷ keys_to_string kvs)),
  length-append v (b']' ∷ keys_to_string kvs),
)

read_keys-step :
    (fuel : ℕ) (k v rest : Bytes) (acc : Dict Bytes Bytes)
    → IsPlainKey (k, v)
    → lookup k acc ≡ none
    → read_keys (suc fuel) (b'[' ∷ (k ++ b'=' ∷ (v ++ b']' ∷ rest))) acc
      ≡ read_keys fuel rest (acc ++ (k, v) ∷ [])
unfolding read_keys set_key
read_keys-step fuel k v rest acc (ke, kb, ks, vb, vs) n =
    let whole = All-append (λ x. (x == b']') ≡ false) k (b'=' ∷ v) kb (refl, vb) in
    rw
      (
        sym (append_assoc k (b'=' ∷ v) (b']' ∷ rest)),
        split_at-Lacks b']' (k ++ b'=' ∷ v) rest whole,
        set_key,
        split_at-Lacks b'=' k v ke,
        insert-end k v acc n,
      )
      refl

read_keys-keys_to_string :
    (fuel : ℕ) (kvs acc : Dict Bytes Bytes)
    → length kvs < fuel
    → All IsPlainKey kvs
    → Distinct (acc ++ kvs)
    → read_keys fuel (keys_to_string kvs) acc ≡ acc ++ kvs
unfolding keys_to_string read_keys
read_keys-keys_to_string zero kvs acc h p d = elim h [ ]
read_keys-keys_to_string (suc fuel) [] acc h p d = sym (append-nil acc)
read_keys-keys_to_string (suc fuel) ((k, v) ∷ kvs) acc h p d =
    let moved = append_assoc acc ((k, v) ∷ []) kvs in
    read_keys-step fuel k v (keys_to_string kvs) acc p.0 (Distinct-before k v acc kvs d)
    ∙ read_keys-keys_to_string fuel kvs (acc ++ (k, v) ∷ []) (omega arith) p.1
        (subst Distinct (sym moved) d)
    ∙ moved

-- The text of one element.
abbrev word : PathElem → Bytes
word e = e.name ++ keys_to_string e.keys

parse_elem-parts :
    (name : Bytes) (keys : Dict Bytes Bytes)
    → Lacks b'[' name
    → All IsPlainKey keys
    → Distinct keys
    → parse_elem (name ++ keys_to_string keys) ≡ record { name = name; keys = keys }
unfolding parse_elem keys_to_string
parse_elem-parts name [] b p d =
    ap parse_elem (append-nil name) ∙ rw (parse_elem, split_at-none b'[' name b) refl
parse_elem-parts name ((k, v) ∷ kvs) b p d =
    rw (parse_elem, split_at-Lacks b'[' name _ b)
      (ap (λ m. record { name = name; keys = m })
        (read_keys-keys_to_string (suc (length (k ++ b'=' ∷ (v ++ b']' ∷ keys_to_string kvs))))
          ((k, v) ∷ kvs) [] (omega (arith, keys-length ((k, v) ∷ kvs))) p d))

parse_elem-word : (e : PathElem) → IsPlain e → parse_elem (word e) ≡ e
parse_elem-word e (n, s, b, p, d) = parse_elem-parts e.name e.keys b p d

keys-Lacks : (kvs : Dict Bytes Bytes) → All IsPlainKey kvs → Lacks b'/' (keys_to_string kvs)
unfolding keys_to_string
keys-Lacks [] p = tt
keys-Lacks ((k, v) ∷ kvs) ((ke, kb, ks, vb, vs), p) =
    (refl, All-append _ k _ ks (refl, All-append _ v _ vs (refl, keys-Lacks kvs p)))

word-Lacks : (e : PathElem) → IsPlain e → Lacks b'/' (word e)
word-Lacks e (n, s, b, p, d) = All-append _ e.name _ s (keys-Lacks e.keys p)

append-is_empty : (s t : Bytes) → is_empty s ≡ false → is_empty (s ++ t) ≡ false
append-is_empty [] t h = absurd (cc h)
append-is_empty (x ∷ s) t h = refl

segments-elems :
    (e : PathElem) (es : GnmiPath)
    → IsPlain e
    → All IsPlain es
    → segments (word e ++ elems_to_string es) ≡ word e ∷ map word es
unfolding segments elems_to_string remove_if
segments-elems e [] p ps =
    let full = append-is_empty e.name (keys_to_string e.keys) p.0 in
    rw (append-nil (word e), pieces-whole (word e) (word-Lacks e p), full) refl
segments-elems e (f ∷ es) p ps =
    let full = append-is_empty e.name (keys_to_string e.keys) p.0 in
    rw
      (
        pieces-Lacks (word e) (f.name ++ keys_to_string f.keys ++ elems_to_string es)
            (word-Lacks e p),
        full,
      )
      (ap (◌∷◌ (word e)) (segments-elems f es ps.0 ps.1))

map-parse_elem : (es : GnmiPath) → All IsPlain es → map parse_elem (map word es) ≡ es
map-parse_elem [] p = refl
map-parse_elem (e ∷ es) p = rw (parse_elem-word e p.0, map-parse_elem es p.1) refl

-- A path is printed so that reading the text gives back its elements, their names and their keys,
-- if no name is empty or has a '/' or '[', no key or value has a '/' or ']', no key has a '=', and
-- no key stands twice; the empty path is printed as "/".
pub parse_yang_path-path_to_string :
    (p : GnmiPath) → All IsPlain p → parse_yang_path (path_to_string p) ≡ p
unfolding parse_yang_path path_to_string elems_to_string strip_slash
parse_yang_path-path_to_string [] h = unfold segments pieces remove_if in refl
parse_yang_path-path_to_string (e ∷ es) h =
    ap (map parse_elem) (segments-elems e es h.0 h.1) ∙ map-parse_elem (e ∷ es) h
