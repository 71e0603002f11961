-- ===== src/Common/Bytes.antt =====
-- `memcpy` into and out of a buffer of bytes.
use Prim.Native.Nat.{ℕ, zero, suc, ◌+◌, ◌≤◌}
use mathlib.Core.Path.{◌≡◌, refl, ap}
use mathlib.Core.List.{List, [], ◌∷◌, ◌++◌}
use mathlib.Core.Logic.{◌⊎◌, inl, inr}
use native.Mathlib.Omega.{arith}
use cscc_db_rucbase.Common.Lists.{length}

-- The `n` bytes from offset `off` on, as far as the buffer goes.
unfoldable pub slice : ℕ → ℕ → List ℕ → List ℕ
slice off zero bs = []
slice zero (suc n) [] = []
slice (suc off) (suc n) [] = []
slice zero (suc n) (b ∷ bs) = b ∷ slice zero n bs
slice (suc off) (suc n) (b ∷ bs) = slice off (suc n) bs

-- `memcpy(bs + off, buf, length buf)`; what would fall past the end of the buffer is lost.
unfoldable pub blit : ℕ → List ℕ → List ℕ → List ℕ
blit off buf [] = []
blit zero [] (b ∷ bs) = b ∷ bs
blit zero (c ∷ buf) (b ∷ bs) = c ∷ blit zero buf bs
blit (suc off) buf (b ∷ bs) = b ∷ blit off buf bs

pub length-blit : (off : ℕ) (buf bs : List ℕ) → length (blit off buf bs) ≡ length bs
unfolding blit
length-blit off buf [] = refl
length-blit zero [] (b ∷ bs) = refl
length-blit zero (c ∷ buf) (b ∷ bs) = ap suc (length-blit zero buf bs)
length-blit (suc off) buf (b ∷ bs) = ap suc (length-blit off buf bs)

-- What was written is read back.
pub slice-blit_self :
    (off : ℕ) (buf bs : List ℕ)
    → off + length buf ≤ length bs
    → slice off (length buf) (blit off buf bs) ≡ buf
unfolding slice blit
slice-blit_self zero [] [] h = refl
slice-blit_self (suc off) [] [] h = refl
slice-blit_self off (c ∷ buf) [] h = absurd (omega arith)
slice-blit_self zero [] (b ∷ bs) h = refl
slice-blit_self zero (c ∷ buf) (b ∷ bs) h =
    ap (λ t. c ∷ t) (slice-blit_self zero buf bs (omega arith))
slice-blit_self (suc off) [] (b ∷ bs) h = refl
slice-blit_self (suc off) (c ∷ buf) (b ∷ bs) h = slice-blit_self off (c ∷ buf) bs (omega arith)

-- A write does not touch the bytes before it and after it.
pub slice-blit_apart :
    (at n off : ℕ) (buf bs : List ℕ)
    → (at + n ≤ off) ⊎ (off + length buf ≤ at)
    → slice at n (blit off buf bs) ≡ slice at n bs
unfolding slice blit
slice-blit_apart at zero off buf bs h = refl
slice-blit_apart at (suc n) off buf [] h = refl
slice-blit_apart zero (suc n) zero [] (b ∷ bs) h = refl
slice-blit_apart zero (suc n) zero (c ∷ buf) (b ∷ bs) h = absurd (ground arith)
slice-blit_apart zero (suc n) (suc off) buf (b ∷ bs) h =
    ap (λ t. b ∷ t) (slice-blit_apart zero n off buf bs (apart_step n off h))
  where
    apart_step :
        (n off : ℕ)
        → (0 + suc n ≤ suc off) ⊎ (suc off + length buf ≤ 0)
        → (0 + n ≤ off) ⊎ (off + length buf ≤ 0)
    apart_step n off (inl p) = inl (omega arith)
    apart_step n off (inr p) = absurd (omega arith)
slice-blit_apart (suc at) (suc n) zero [] (b ∷ bs) h = refl
slice-blit_apart (suc at) (suc n) zero (c ∷ buf) (b ∷ bs) h =
    slice-blit_apart at (suc n) zero buf bs (ground arith)
slice-blit_apart (suc at) (suc n) (suc off) buf (b ∷ bs) h =
    slice-blit_apart at (suc n) off buf bs (ground arith)

pub slice_all : (bs : List ℕ) → slice 0 (length bs) bs ≡ bs
unfolding slice
slice_all [] = refl
slice_all (b ∷ bs) = ap (λ t. b ∷ t) (slice_all bs)

pub length-slice : (off n : ℕ) (bs : List ℕ) → off + n ≤ length bs → length (slice off n bs) ≡ n
unfolding slice
length-slice off zero bs h = refl
length-slice zero (suc n) [] h = absurd (omega arith)
length-slice (suc off) (suc n) [] h = absurd (omega arith)
length-slice zero (suc n) (b ∷ bs) h = ap suc (length-slice zero n bs (omega arith))
length-slice (suc off) (suc n) (b ∷ bs) h = length-slice off (suc n) bs (omega arith)

-- A write at the end of what is in use makes that longer.
pub slice-blit_end :
    (off n : ℕ) (buf bs : List ℕ)
    → n ≡ off + length buf
    → n ≤ length bs
    → slice 0 n (blit off buf bs) ≡ slice 0 off bs ++ buf
unfolding slice blit
slice-blit_end zero zero [] bs e h = refl
slice-blit_end zero zero (c ∷ buf) bs e h = absurd (omega arith)
slice-blit_end zero (suc n) [] bs e h = absurd (omega arith)
slice-blit_end zero (suc n) (c ∷ buf) [] e h = absurd (omega arith)
slice-blit_end zero (suc n) (c ∷ buf) (b ∷ bs) e h =
    ap (λ t. c ∷ t) (slice-blit_end zero n buf bs (omega arith) (omega arith))
slice-blit_end (suc off) zero buf bs e h = absurd (omega arith)
slice-blit_end (suc off) (suc n) buf [] e h = absurd (omega arith)
slice-blit_end (suc off) (suc n) buf (b ∷ bs) e h =
    ap (λ t. b ∷ t) (slice-blit_end off n buf bs (omega arith) (omega arith))
