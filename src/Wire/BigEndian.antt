-- ===== src/Wire/BigEndian.antt =====
-- `htonl` and `ntohl` over the four bytes of a `uint32_t` that `memcpy` writes and reads.
use grace_server.Base.{ℕ, ◌+◌, ◌*◌, ◌/◌, ◌%◌, ◌^◌, ◌<◌, ◌≡◌, [], ◌∷◌, arith, Bytes}

abbrev pub u32_mod : ℕ
u32_mod = 2 ^ 32

-- `len_be = htonl(len)`, copied into the frame.
abbrev pub htonl : ℕ → Bytes
htonl n = (n / 2 ^ 24 % 256) ∷ (n / 2 ^ 16 % 256) ∷ (n / 2 ^ 8 % 256) ∷ (n % 256) ∷ []

-- `ntohl(len_be)`, of four bytes copied from the frame.
unfoldable pub ntohl : ℕ → ℕ → ℕ → ℕ → ℕ
ntohl a b c d = a * 2 ^ 24 + b * 2 ^ 16 + c * 2 ^ 8 + d

pub ntohl-htonl :
    (n : ℕ)
    → n < 2 ^ 32
    → ntohl (n / 2 ^ 24 % 256) (n / 2 ^ 16 % 256) (n / 2 ^ 8 % 256) (n % 256) ≡ n
unfolding ntohl
ntohl-htonl n h = omega arith
