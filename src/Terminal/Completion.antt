-- ===== src/Terminal/Completion.antt =====
-- `get_sub_keys` of app/cli/src/completion_helpers.cpp: the keys of a Lua table that complete a
-- text.
use grace_server.Base.{
  ◌≡◌, refl, sym, ◌∙◌, Bool, true, false, not, ◌&&◌, List, [], ◌∷◌, ◌++◌, append_assoc,
  if◌then◌else◌, Bytes, codes, is_empty, starts_with, tested_branches, ◌==◌, subst, arith, inl, inr,
  Bool-cases,
}
use grace_server.Base.Every.{All, All-append}
use grace_server.Config.{Entry, of_value, of_values, of_table, of_tables, Table, no_members, member}

unfoldable pub full_path : Bytes → Bytes → Bytes
full_path prefix key = if is_empty prefix then key else prefix ++ codes "." ++ key

-- The match of an entry whose path starts with the filter.
unfoldable pub own_match : Bytes → Entry → List Bytes
own_match path (of_value v) = (path ++ codes "=") ∷ []
own_match path (of_values vs) = (path ++ codes "=") ∷ []
own_match path (of_table t) = (path ++ codes ".") ∷ []
own_match path (of_tables ts) = []

unfoldable mutual
  get_sub_keys : Table → Bytes → Bytes → List Bytes
  get_sub_keys no_members prefix filter = []
  get_sub_keys (member key e t) prefix filter =
      let path = full_path prefix key in
      let rest = get_sub_keys t prefix filter in
      let below = sub_keys e path filter in
      if not (starts_with path filter) && not (starts_with filter path)
      then rest
      else (if starts_with path filter then own_match path e else []) ++ below ++ rest

  -- The matches below an entry.
  sub_keys : Entry → Bytes → Bytes → List Bytes
  sub_keys (of_table t) path filter = get_sub_keys t path filter
  sub_keys (of_value v) path filter = []
  sub_keys (of_values vs) path filter = []
  sub_keys (of_tables ts) path filter = []

-- The same without the test that skips a member.
unfoldable mutual
  all_keys : Table → Bytes → Bytes → List Bytes
  all_keys no_members prefix filter = []
  all_keys (member key e t) prefix filter =
      (if starts_with (full_path prefix key) filter then own_match (full_path prefix key) e else [])
      ++ all_below e (full_path prefix key) filter
      ++ all_keys t prefix filter

  all_below : Entry → Bytes → Bytes → List Bytes
  all_below (of_table t) path filter = all_keys t path filter
  all_below (of_value v) path filter = []
  all_below (of_values vs) path filter = []
  all_below (of_tables ts) path filter = []

-- Neither text is the start of the other.
abbrev Apart : Bytes → Bytes → Type 0
Apart p f = (starts_with p f ≡ false) × (starts_with f p ≡ false)

Apart-append : (p f r : Bytes) → Apart p f → Apart (p ++ r) f
unfolding starts_with
Apart-append [] f r (a, b) = absurd (ground arith)
Apart-append (x ∷ p) [] r (a, b) = absurd (ground arith)
Apart-append (x ∷ p) (y ∷ f) r (a, b) = elim (Bool-cases (x == y)) [
  | inl e ↦ let rest = Apart-append p f r (ground arith) in ground arith
  | inr e ↦ ground arith
]

Apart-full_path : (p f key : Bytes) → Apart p f → Apart (full_path p key) f
unfolding full_path starts_with
Apart-full_path [] f key (a, b) = absurd (ground arith)
Apart-full_path (x ∷ p) f key h =
    subst (λ q. Apart q f) (sym (append_assoc (x ∷ p) (codes ".") key))
      (Apart-append (x ∷ p) f (codes "." ++ key) h)

mutual
  unfolding all_keys

  all_keys_none : (t : Table) (p f : Bytes) → Apart p f → all_keys t p f ≡ []
  all_keys_none no_members p f h = refl
  all_keys_none (member key e t) p f h =
      let here = Apart-full_path p f key h in
      rw (here.0, all_below_none e (full_path p key) f here, all_keys_none t p f h) refl

  all_below_none : (e : Entry) (p f : Bytes) → Apart p f → all_below e p f ≡ []
  all_below_none (of_table t) p f h = all_keys_none t p f h
  all_below_none (of_value v) p f h = refl
  all_below_none (of_values vs) p f h = refl
  all_below_none (of_tables ts) p f h = refl

starts_with_nil : (s : Bytes) → starts_with s [] ≡ true
unfolding starts_with
starts_with_nil [] = refl
starts_with_nil (x ∷ s) = refl

starts_with-append : (p q f : Bytes) → starts_with p f ≡ true → starts_with (p ++ q) f ≡ true
unfolding starts_with
starts_with-append p q [] h = starts_with_nil (p ++ q)
starts_with-append [] q (y ∷ f) h = absurd (cc h)
starts_with-append (x ∷ p) q (y ∷ f) h = elim (Bool-cases (x == y)) [
  | inl e ↦ let rest = starts_with-append p q f (ground arith) in ground arith
  | inr e ↦ ground arith
]

own_match-All :
    (path f : Bytes) (e : Entry)
    → starts_with path f ≡ true
    → All (λ m. starts_with m f ≡ true) (own_match path e)
unfolding own_match
own_match-All path f (of_value v) h = (starts_with-append path (codes "=") f h, tt)
own_match-All path f (of_values vs) h = (starts_with-append path (codes "=") f h, tt)
own_match-All path f (of_table t) h = (starts_with-append path (codes ".") f h, tt)
own_match-All path f (of_tables ts) h = tt

mutual
  unfolding all_keys

  all_keys-All :
      (t : Table) (prefix filter : Bytes)
      → All (λ m. starts_with m filter ≡ true) (all_keys t prefix filter)
  all_keys-All no_members prefix filter = tt
  all_keys-All (member key e t) prefix filter =
      let path = full_path prefix key in
      let P : Bytes → Type 0 = λ m. starts_with m filter ≡ true in
      let here = if starts_with path filter then own_match path e else [] in
      All-append P (here ++ all_below e path filter) (all_keys t prefix filter)
        (All-append P here (all_below e path filter)
          (tested_branches (All P) (starts_with path filter) _ _
            (λ h. own_match-All path filter e h) (λ h. tt))
          (all_below-All e path filter))
        (all_keys-All t prefix filter)

  all_below-All :
      (e : Entry) (path filter : Bytes)
      → All (λ m. starts_with m filter ≡ true) (all_below e path filter)
  all_below-All (of_table t) path filter = all_keys-All t path filter
  all_below-All (of_value v) path filter = tt
  all_below-All (of_values vs) path filter = tt
  all_below-All (of_tables ts) path filter = tt

apart : (a b : Bool) → (not a && not b) ≡ true → (a ≡ false) × (b ≡ false)
apart a b h = ground arith

mutual
  unfolding get_sub_keys all_keys

  get_sub_keys_same :
      (t : Table) (prefix filter : Bytes) → get_sub_keys t prefix filter ≡ all_keys t prefix filter
  get_sub_keys_same no_members prefix filter = refl
  get_sub_keys_same (member key e t) prefix filter =
      let path = full_path prefix key in
      let here = if starts_with path filter then own_match path e else [] in
      let rest = get_sub_keys_same t prefix filter in
      tested_branches (λ r. r ≡ here ++ all_below e path filter ++ all_keys t prefix filter)
        (not (starts_with path filter) && not (starts_with filter path)) _ _
        (λ d.
          let dead = apart (starts_with path filter) (starts_with filter path) d in
          rest ∙ rw (dead.0, all_below_none e path filter dead) refl)
        (λ d. rw (rest, sub_keys_same e path filter) refl)

  sub_keys_same :
      (e : Entry) (path filter : Bytes) → sub_keys e path filter ≡ all_below e path filter
  sub_keys_same (of_table t) path filter = get_sub_keys_same t path filter
  sub_keys_same (of_value v) path filter = refl
  sub_keys_same (of_values vs) path filter = refl
  sub_keys_same (of_tables ts) path filter = refl

-- The search passes over a member whose path can lead to no match, and loses none by it: the
-- completions are, in order, those that a search of the whole table finds, without that test, and
-- each starts with the filter.
get_sub_keys_lem :
    (t : Table) (prefix filter : Bytes)
    → (get_sub_keys t prefix filter ≡ all_keys t prefix filter)
      × All (λ m. starts_with m filter ≡ true) (get_sub_keys t prefix filter)
get_sub_keys_lem t prefix filter =
    let same = get_sub_keys_same t prefix filter in
    (same, subst (All (λ m. starts_with m filter ≡ true)) (sym same) (all_keys-All t prefix filter))
