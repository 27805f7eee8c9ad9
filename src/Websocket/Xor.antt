-- ===== src/Websocket/Xor.antt =====
-- A mask that is applied twice is gone.
use Prim.Native.Nat.{bit_xor}
use hula.Common.{
  ltb, ℕ, zero, suc, ◌%◌, ◌<◌, ◌≡◌, refl, ap₂, Bool, true, false, if◌then◌else◌, List, [], ◌∷◌,
  get_or, ◌==◌, ==_iff, All, arith,
}
use hula.Endian.{IsByte}
use hula.Websocket.{apply_mask}

-- The outcome of a test at all numbers before a bound.
passes : (ℕ → Bool) → ℕ → Bool
passes test zero = true
passes test (suc bound) = let rest = passes test bound in if test bound then rest else false

passes-lt :
    (test : ℕ → Bool) {b : ℕ} (bound : ℕ) → b < bound → passes test bound ≡ true → test b ≡ true
unfolding passes
passes-lt test zero lt h = absurd (omega arith)
passes-lt test {b} (suc bound) lt h = ground (arith, passes-lt test {b = b} bound)

abbrev mask_cancels : ℕ → ℕ → Bool
mask_cancels y x = bit_xor (bit_xor x y) y == x

-- At every byte and every byte of a mask.
masks_cancel : passes (λ y. passes (mask_cancels y) 256) 256 ≡ true
unfolding passes
masks_cancel = refl

bit_xor_twice : (x y : ℕ) → IsByte x → IsByte y → bit_xor (bit_xor x y) y ≡ x
bit_xor_twice x y hx hy =
    let row = passes-lt (λ (y : ℕ). passes (mask_cancels y) 256) 256 hy masks_cancel in
    (==_iff (bit_xor (bit_xor x y) y) x).0 (passes-lt (mask_cancels y) 256 hx row)

pub get_or-IsByte : (i : ℕ) (bs : List ℕ) → All IsByte bs → IsByte (get_or bs i 0)
get_or-IsByte i [] h = omega arith
get_or-IsByte zero (b ∷ bs) h = h.0
get_or-IsByte (suc i) (b ∷ bs) h = get_or-IsByte i bs h.1

pub apply_mask-apply_mask :
    (mask : List ℕ) (i : ℕ) (bs : List ℕ)
    → All IsByte mask
    → All IsByte bs
    → apply_mask mask i (apply_mask mask i bs) ≡ bs
unfolding apply_mask
apply_mask-apply_mask mask i [] hm h = refl
apply_mask-apply_mask mask i (b ∷ bs) hm h =
    ap₂ ◌∷◌ (bit_xor_twice b (get_or mask (i % 4) 0) h.0 (get_or-IsByte (i % 4) mask hm))
      (apply_mask-apply_mask mask (suc i) bs hm h.1)

abbrev mask_fits : ℕ → ℕ → Bool
mask_fits y x = ltb (bit_xor x y) 256

masks_fit : passes (λ y. passes (mask_fits y) 256) 256 ≡ true
unfolding passes
masks_fit = refl

bit_xor-IsByte : (x y : ℕ) → IsByte x → IsByte y → IsByte (bit_xor x y)
bit_xor-IsByte x y hx hy =
    let row = passes-lt (λ (y : ℕ). passes (mask_fits y) 256) 256 hy masks_fit in
    let fits = passes-lt (mask_fits y) 256 hx row in ground (arith, fits)

pub apply_mask-IsByte :
    (mask : List ℕ) (i : ℕ) (bs : List ℕ)
    → All IsByte mask
    → All IsByte bs
    → All IsByte (apply_mask mask i bs)
unfolding apply_mask
apply_mask-IsByte mask i [] m h = tt
apply_mask-IsByte mask i (b ∷ bs) m h = (
  bit_xor-IsByte b (get_or mask (i % 4) 0) h.0 (get_or-IsByte (i % 4) mask m),
  apply_mask-IsByte mask (suc i) bs m h.1,
)
