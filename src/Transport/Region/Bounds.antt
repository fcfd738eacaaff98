-- ===== src/Transport/Region/Bounds.antt =====
-- The extent and alignment of an allocated region, region.rs.
use gbx.Prelude.{ℕ, ◌+◌, ◌*◌, ◌%◌, ◌^◌, ◌≤◌, ◌<◌, ◌≡◌, refl, arith, true, some}
use gbx.Transport.Region.{
  TransportError, TransportResult, ok, err, ◌>>=◌, allocation_failed, Platform, SharedRegion,
}
use gbx.Transport.Region.{new_aligned, allocate_backing, mmap_backing, heap_backing}
use gbx.Transport.Region.{assert_view_bounds}

-- Inversion of a chain that succeeds.
pub >>=-ok {ℓ κ} :
    {A : Type ℓ} {B : Type κ} (m : TransportResult A) (f : A → TransportResult B) {b : B}
    → (m >>= f) ≡ ok b
    → (a : A) × (m ≡ ok a) × (f a ≡ ok b)
>>=-ok (ok a) f h = (a, refl, h)
>>=-ok (err e) f h = cc

-- The heap answers a layout with a block of its alignment.
abbrev pub HeapAligns : Platform → Type 0
HeapAligns os = (len alignment base : ℕ) → os.alloc len alignment ≡ some base → base % alignment ≡ 0

mapped-aligned :
    (os : Platform) (len alignment base : ℕ)
    → mmap_backing os len alignment ≡ ok (some base)
    → base % alignment ≡ 0
unfolding mmap_backing
mapped-aligned os len alignment base h = ground arith

heap-aligned :
    (os : Platform) (len alignment base : ℕ)
    → HeapAligns os
    → heap_backing os len alignment ≡ ok base
    → base % alignment ≡ 0
unfolding heap_backing
heap-aligned os len alignment base aligns h = ground (arith, aligns len alignment base)

backing-aligned :
    (os : Platform) (len alignment base : ℕ)
    → HeapAligns os
    → allocate_backing os len alignment ≡ ok base
    → base % alignment ≡ 0
unfolding allocate_backing
backing-aligned os len alignment base aligns h =
    ground (arith, mapped-aligned os len alignment base, heap-aligned os len alignment base aligns)

-- A region has the length asked for and starts at a multiple of the alignment asked for, whether
-- it was mapped or taken from the heap, when the heap aligns its blocks.
pub new_aligned-aligned :
    (os : Platform) (len alignment : ℕ) (r : SharedRegion)
    → HeapAligns os
    → new_aligned os len alignment ≡ ok r
    → (r.len ≡ len) × (r.base % alignment ≡ 0)
unfolding new_aligned
new_aligned-aligned os len alignment r aligns h =
    ground (arith, backing-aligned os len alignment r.base aligns)

-- Every view of whole elements that ends within an aligned region passes the checks.
pub assert_view_bounds_lem :
    (os : Platform) (total offset len elem_size : ℕ) (r : SharedRegion)
    → HeapAligns os
    → new_aligned os total 8 ≡ ok r
    → total < 2 ^ 64
    → offset + len * elem_size ≤ total
    → (offset % 4 ≡ 0)
    → assert_view_bounds r offset len elem_size 4 ≡ true
unfolding assert_view_bounds
assert_view_bounds_lem os total offset len elem_size r aligns h small fits whole =
    let (length, aligned) = new_aligned-aligned os total 8 r aligns h in
    let start : (r.base + offset) % 4 ≡ 0 = omega arith in ground (arith, length, start)

-- An allocation fails with the length and the alignment that were asked for, and nothing else.
pub new_aligned-err :
    (os : Platform) (len alignment : ℕ) (e : TransportError)
    → new_aligned os len alignment ≡ err e
    → e ≡ allocation_failed len alignment
unfolding new_aligned allocate_backing mmap_backing heap_backing
new_aligned-err os len alignment e h = ground arith
