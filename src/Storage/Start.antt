-- ===== src/Storage/Start.antt =====
-- The constructor of storage/buffer_pool_instance.h makes a coherent pool.
use cscc_db_rucbase.Common.{
  ℕ, zero, suc, ◌+◌, ◌≤◌, ◌<◌, ◌≡◌, refl, sym, ◌∙◌, true, false, List, ◌==◌, any, find, arith,
}
use cscc_db_rucbase.Replacer.Clock.{ClockReplacer, instance_size}
use cscc_db_rucbase.Storage.BufferPool.{PageId, frames_from, new_pool}
use cscc_db_rucbase.Storage.View.{IsDistinct, Coherent}

frames_from-below : (i n f : ℕ) → f < i → any (λ g. g == f) (frames_from i n) ≡ false
unfolding frames_from
frames_from-below i zero f h = refl
frames_from-below i (suc n) f h = ground (arith, frames_from-below (suc i) n f)

frames_from-within : (i n f : ℕ) → i ≤ f → f < i + n → any (λ g. g == f) (frames_from i n) ≡ true
unfolding frames_from
frames_from-within i zero f h k = absurd (omega arith)
frames_from-within i (suc n) f h k = ground (arith, frames_from-within (suc i) n f)

frames_from-IsDistinct : (i n : ℕ) → IsDistinct (frames_from i n)
unfolding frames_from
frames_from-IsDistinct i zero = tt
frames_from-IsDistinct i (suc n) =
    (frames_from-below (suc i) n i (omega arith), frames_from-IsDistinct (suc i) n)

-- The constructor makes a coherent pool: all 4096 frames are on the free list once each, and no
-- page has a number or is dirty.
pub new_pool-Coherent :
    (fd : ℕ) (clock : ClockReplacer) (disk : PageId → List ℕ) → Coherent (new_pool fd clock disk)
unfolding find
new_pool-Coherent fd clock disk = record {
  mapped = λ id f h. cc;
  clean = λ id f h d. cc;
  free = λ f h. (refl, refl);
  valid = λ id f h. cc;
  placed = λ f low h.
      let free = frames_from-within 0 instance_size f (omega arith) low in
      let w : true ≡ false = sym free ∙ h in cc;
  distinct = frames_from-IsDistinct 0 instance_size;
}
