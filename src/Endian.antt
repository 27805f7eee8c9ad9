-- ===== src/Endian.antt =====
-- The byte order of the host and of the network (lib/utils.cpp, include/utils.h). `little` is the
-- outcome of `little_endian()` on the machine that runs the program.
use hula.Common.{ℕ, ◌+◌, ◌*◌, ◌/◌, ◌%◌, ◌<◌, ◌≡◌, Bool, List, [], ◌∷◌, arith, if◌then◌else◌}

abbrev pub IsByte : ℕ → Type 0
IsByte b = b < 256

-- The value that two bytes in memory have as a uint16_t, and four as a uint32_t.
abbrev pub load16 : Bool → ℕ → ℕ → ℕ
load16 little a b = if little then a + 256 * b else 256 * a + b

abbrev pub load32 : Bool → ℕ → ℕ → ℕ → ℕ → ℕ
load32 little a b c d =
    if little
    then a + 256 * b + 65536 * c + 16777216 * d
    else 16777216 * a + 65536 * b + 256 * c + d

-- The bytes that a value has in memory.
abbrev pub store16 : Bool → ℕ → List ℕ
store16 little v = if little then (v % 256) ∷ (v / 256) ∷ [] else (v / 256) ∷ (v % 256) ∷ []

abbrev pub store32 : Bool → ℕ → List ℕ
store32 little v =
    let a = v % 256 in
    let b = v / 256 % 256 in
    let c = v / 65536 % 256 in
    let d = v / 16777216 in if little then a ∷ b ∷ c ∷ d ∷ [] else d ∷ c ∷ b ∷ a ∷ []

-- `__int_16 vx` over the value, its two bytes exchanged.
unfoldable pub k_htons : Bool → ℕ → ℕ
k_htons little v = if little then v / 256 + 256 * (v % 256) else v

unfoldable pub k_ntohs : Bool → ℕ → ℕ
k_ntohs little v = if little then v / 256 + 256 * (v % 256) else v

-- `_ipv4_addr vx` over the value: a with d, and b with c.
unfoldable pub k_htonl : Bool → ℕ → ℕ
k_htonl little v =
    if little
    then v / 16777216 + 256 * (v / 65536 % 256) + 65536 * (v / 256 % 256) + 16777216 * (v % 256)
    else v

unfoldable pub k_ntohl : Bool → ℕ → ℕ
k_ntohl little v =
    if little
    then v / 16777216 + 256 * (v / 65536 % 256) + 65536 * (v / 256 % 256) + 16777216 * (v % 256)
    else v

-- Reading a big-endian field does not depend on the host.
pub k_ntohs-load16 :
    (little : Bool) (a b : ℕ)
    → IsByte a
    → IsByte b
    → k_ntohs little (load16 little a b) ≡ 256 * a + b
unfolding k_ntohs
k_ntohs-load16 little a b ha hb = ground arith

pub k_ntohl-load32 :
    (little : Bool) (a b c d : ℕ)
    → IsByte a
    → IsByte b
    → IsByte c
    → IsByte d
    → k_ntohl little (load32 little a b c d) ≡ 16777216 * a + 65536 * b + 256 * c + d
unfolding k_ntohl
k_ntohl-load32 little a b c d ha hb hc hd = ground arith

-- Nor does writing one.
pub store16-k_htons :
    (little : Bool) (v : ℕ)
    → v < 65536
    → store16 little (k_htons little v) ≡ (v / 256) ∷ (v % 256) ∷ []
unfolding k_htons
store16-k_htons little v h = ground arith

pub store32-k_htonl :
    (little : Bool) (v : ℕ)
    → v < 4294967296
    → store32 little (k_htonl little v)
      ≡ (v / 16777216) ∷ (v / 65536 % 256) ∷ (v / 256 % 256) ∷ (v % 256) ∷ []
unfolding k_htonl
store32-k_htonl little v h = ground arith

pub k_ntohs-k_htons : (little : Bool) (v : ℕ) → v < 65536 → k_ntohs little (k_htons little v) ≡ v
unfolding k_ntohs k_htons
k_ntohs-k_htons little v h = ground arith

pub k_ntohl-k_htonl :
    (little : Bool) (v : ℕ) → v < 4294967296 → k_ntohl little (k_htonl little v) ≡ v
unfolding k_ntohl k_htonl
k_ntohl-k_htonl little v h = ground arith
