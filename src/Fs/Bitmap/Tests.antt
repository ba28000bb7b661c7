-- ===== src/Fs/Bitmap/Tests.antt =====
-- Runs of the block allocator.
use model_lib.Base.{ℕ, ◌+◌, ◌≤◌, ◌<◌, ◌≡◌, ◌≢◌, ◌⊎◌, refl, arith, true, false, if◌then◌else◌, ◌==◌}
use model_lib.Fs.Layout.{zeros}
use model_lib.Fs.State.{ok}
use model_lib.Fs.Samples.{mounted, one_file, state_of}
use model_lib.Fs.Bitmap.{bitmap_alloc, bitmap_free, alloc_loop, take_bit, first_zero}
use model_lib.Fs.Bitmap.Alloc.{Allocated, bit_at, bitmap_alloc-Allocated}
use model_lib.Fs.Bitmap.Fresh.{bitmap, bitmap_alloc-fresh}
use model_lib.Fs.Bitmap.Free.{bitmap_free-clears, bitmap_free-misses}

first_alloc : bitmap_alloc mounted ≡ ok 57 (state_of (bitmap_alloc mounted))
unfolding bitmap_alloc alloc_loop take_bit first_zero
first_alloc = refl

second_alloc :
    bitmap_alloc (state_of (bitmap_alloc mounted))
    ≡ ok 58 (state_of (bitmap_alloc (state_of (bitmap_alloc mounted))))
unfolding bitmap_alloc alloc_loop take_bit first_zero
second_alloc = refl

bitmap_alloc-fresh_example : (57 ≤ 57) × (57 < 57 + 143) × ◌≢◌ {A = ℕ} 57 58
bitmap_alloc-fresh_example =
    bitmap_alloc-fresh mounted (λ i. omega arith) (omega arith) (omega arith) first_alloc
      (omega arith) second_alloc (omega arith)

bitmap_alloc-Allocated_example : Allocated mounted zeros (bitmap_alloc mounted)
bitmap_alloc-Allocated_example = bitmap_alloc-Allocated mounted (λ i. omega arith) (omega arith)

block_60 : bitmap_free 60 one_file ≡ ok true (state_of (bitmap_free 60 one_file))
unfolding bitmap_free
block_60 = refl

bitmap_free-clears_example :
    ((true ≡ false) × (state_of (bitmap_free 60 one_file) ≡ one_file))
    ⊎ ((true ≡ true)
        × (57 ≤ 60)
        × (60 < 57 + 143)
        × (bit_at (bitmap one_file) 60 ≢ 0)
        × ((j : ℕ)
            → bit_at (bitmap (state_of (bitmap_free 60 one_file))) j
              ≡ (if j == 60 then 0 else bit_at (bitmap one_file) j))
        × ((m : ℕ) → m ≢ 56 → (state_of (bitmap_free 60 one_file)).disk m ≡ one_file.disk m))
bitmap_free-clears_example = bitmap_free-clears 60 one_file (λ i. omega arith) block_60

bitmap_free-misses_example :
    bit_at (bitmap (state_of (bitmap_free (57 + 3) one_file))) 3 ≡ bit_at (bitmap one_file) 3
bitmap_free-misses_example = bitmap_free-misses 3 one_file (λ i. omega arith) (omega arith) block_60
