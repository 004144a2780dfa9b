-- ===== src/Vpn/Pool.antt =====
-- app/openvpn/src/vpn_server.cpp, `ip_pool`: the addresses that are free, in a `std::set` (here a
-- list in ascending order), and those that channels hold. An address is the host-order number; its
-- dotted form is the work of `inet_ntop` and `inet_pton`, which are parameters.
pub mod Filling
pub mod Conservation
use grace_server.Base.{
  ℕ, zero, suc, ◌+◌, ◌%◌, ◌^◌, ◌<◌, ◌≡◌, Bool, true, false, Option, none, some, List, [], ◌∷◌, leb,
  ltb, ◌==◌, if◌then◌else◌, Bytes, is_empty,
}
use grace_server.Base.Dict.{Dict, lookup, insert, erase}
use grace_server.Base.Keys.{num_key}

-- The two library calls, at `AF_INET`: a dotted address is read back as the number it shows.
pub record Inet : Type 0 where
  pub ntop : ℕ → Bytes
  pub pton : Bytes → Option ℕ
  pub pton-ntop : (a : ℕ) → a < 2 ^ 32 → pton (ntop a) ≡ some a
  pub ntop_nonempty : (a : ℕ) → is_empty (ntop a) ≡ false

pub record Pool : Type 0 where
  pub free : List ℕ
  pub assigned : Dict ℕ ℕ

zero_if_none : Option ℕ → ℕ
zero_if_none none = 0
zero_if_none (some a) = a

-- `std::set::insert`.
unfoldable pub set_insert : ℕ → List ℕ → List ℕ
set_insert a [] = a ∷ []
set_insert a (x ∷ xs) =
    let later = set_insert a xs in
    if ltb a x then a ∷ x ∷ xs else if a == x then x ∷ xs else x ∷ later

-- `for (uint32_t a = lo; a <= hi; ++a) m_free.insert(a)`: the counter wraps at 2^32. `none` means
-- that the rounds ran out.
unfoldable pub fill : ℕ → ℕ → ℕ → List ℕ → Option (List ℕ)
unfolding set_insert
fill zero a hi free = none
fill (suc fuel) a hi free =
    let rest = fill fuel ((a + 1) % 2 ^ 32) hi (set_insert a free) in
    if leb a hi then rest else some free

-- The lowest free address, or none if the pool is exhausted.
unfoldable pub assign_address : Pool → ℕ → Pool × Option ℕ
assign_address p channel = elim p.free [
  | [] ↦ (p, none)
  | a ∷ rest ↦ (record { free = rest; assigned = insert channel a p.assigned }, some a)
]

unfoldable pub release : Pool → ℕ → Pool
unfolding set_insert
release p channel = elim (lookup channel p.assigned) [
  | none ↦ p
  | some a ↦ record { free = set_insert a p.free; assigned = erase channel p.assigned }
]

-- The channel that holds an address; -1 is `none`.
unfoldable pub channel_of : ℕ → Dict ℕ ℕ → Option ℕ
channel_of a [] = none
channel_of a ((ch, b) ∷ m) = if b == a then some ch else channel_of a m

module _ (inet : Inet) where
  -- The zero that `inet_pton` leaves untouched on a text that is no address.
  unfoldable pub to_u32 : Bytes → ℕ
  unfolding zero_if_none
  to_u32 ip = zero_if_none (inet.pton ip)

  unfoldable pub to_str : ℕ → Bytes
  to_str a = inet.ntop a

  -- The constructor.
  unfoldable pub ip_pool : ℕ → Bytes → Bytes → Option Pool
  unfolding to_u32
  ip_pool fuel start_ip end_ip = elim (fill fuel (to_u32 start_ip) (to_u32 end_ip) []) [
    | none ↦ none
    | some free ↦ some (record { free = free; assigned = [] })
  ]

  shown : Option ℕ → Bytes
  shown none = []
  shown (some a) = to_str a

  unfoldable pub assign : Pool → ℕ → Pool × Bytes
  unfolding shown to_str
  assign p channel = ((assign_address p channel).0, shown (assign_address p channel).1)

  unfoldable pub get : Pool → ℕ → Bytes
  unfolding shown to_str
  get p channel = shown (lookup channel p.assigned)

  unfoldable pub find_channel : Pool → Bytes → Option ℕ
  unfolding to_u32
  find_channel p ip = channel_of (to_u32 ip) p.assigned
