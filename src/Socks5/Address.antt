-- ===== src/Socks5/Address.antt =====
-- IPv4 addresses in text (lib/utils.cpp).
use hula.Common.{
  ℕ, suc, ◌+◌, ◌-◌, ◌*◌, ◌/◌, ◌%◌, Bool, ◌&&◌, ◌||◌, not, Option, none, some, List, [], ◌∷◌, ◌++◌,
  length, take, drop, ltb, leb, ◌==◌, if◌then◌else◌,
}

-- "%d" of a byte
unfoldable pub byte_to_str : ℕ → List ℕ
byte_to_str n =
    if ltb n 10
    then (48 + n) ∷ []
    else if ltb n 100
    then (48 + n / 10) ∷ (48 + n % 10) ∷ []
    else (48 + n / 100) ∷ (48 + n / 10 % 10) ∷ (48 + n % 10) ∷ []

-- The four bytes are those in memory, in order.
unfoldable pub ip4_to_str : ℕ → ℕ → ℕ → ℕ → List ℕ
ip4_to_str a b c d =
    byte_to_str a ++ (46 ∷ byte_to_str b) ++ (46 ∷ byte_to_str c) ++ (46 ∷ byte_to_str d)

abbrev pub is_digit : ℕ → Bool
is_digit c = leb 48 c && leb c 57

-- The loop: the positions of the dots, `l` being the position and `dots` those found.
unfoldable pub find_dots : ℕ → List ℕ → List ℕ → Option (List ℕ)
find_dots l dots [] = some dots
find_dots l dots (c ∷ s) =
    let digit = find_dots (suc l) dots s in
    let dot = find_dots (suc l) (dots ++ (l ∷ [])) s in
    if ltb 19 l
    then none
    else if is_digit c
    then digit
    else if not (c == 46)
    then none
    else if length dots == 3
    then none
    else dot

-- std::atoi on digits
unfoldable pub atoi : ℕ → List ℕ → ℕ
atoi n [] = n
atoi n (c ∷ s) = let next = atoi (10 * n + (c - 48)) s in if is_digit c then next else n

-- Where the dots are: the checks, and the numbers between them as bytes.
unfoldable pub read_parts : List ℕ → List ℕ → Option (ℕ × ℕ × ℕ × ℕ)
read_parts str (p ∷ q ∷ r ∷ []) =
    if ltb 3 p || (ltb 4 (q - p) || (ltb 4 (r - q) || ltb 4 (length str - r)))
    then none
    else some (
      atoi 0 (take p str) % 256,
      atoi 0 (take (q - (p + 1)) (drop (p + 1) str)) % 256,
      atoi 0 (take (r - (q + 1)) (drop (q + 1) str)) % 256,
      atoi 0 (drop (r + 1) str) % 256,
    )
read_parts str _ = none

abbrev pub with_dots : List ℕ → Option (List ℕ) → Option (ℕ × ℕ × ℕ × ℕ)
with_dots str none = none
with_dots str (some dots) = read_parts str dots

-- `none` is `return false`; else the bytes of the address in memory.
unfoldable pub str_to_ip4 : List ℕ → Option (ℕ × ℕ × ℕ × ℕ)
str_to_ip4 str = with_dots str (find_dots 0 [] str)
