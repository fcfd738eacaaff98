-- ===== src/Transport/Region.antt =====
-- Shared memory regions and the errors of the transport crate: region.rs and error.rs of
-- crates/01-transport/transport/src. The operating system's mapping and the heap are parameters; a
-- region is its extent, and the components that use one keep its contents.
pub mod Bounds
use gbx.Prelude.{ℕ, zero, suc, ◌+◌, ◌*◌, ◌%◌, ◌^◌, ltb, leb, ◌==◌, if◌then◌else◌}
use gbx.Prelude.{Bool, true, false, not, ◌&&◌, Option, none, some}

pub data TransportError : Type 0 where
  invalid_capacity : (requested minimum : ℕ) → TransportError
  allocation_failed : (size alignment : ℕ) → TransportError

pub data TransportResult {ℓ} (A : Type ℓ) : Type ℓ where
  ok : A → TransportResult A
  err : TransportError → TransportResult A

infixl 5 ◌>>=◌ ◌>>◌
abbrev pub ◌>>=◌ {ℓ κ} :
    {A : Type ℓ} {B : Type κ} → TransportResult A → (A → TransportResult B) → TransportResult B
ok a >>= f = f a
err e >>= f = err e

abbrev pub ◌>>◌ {ℓ} :
    {B : Type ℓ} → TransportResult (Unit {0}) → TransportResult B → TransportResult B
m >> k = m >>= λ _. k

-- What the system answers to one allocation: the address of an anonymous mapping of a length,
-- whether a length and an alignment are a valid `Layout`, the address of a heap block of them.
pub record Platform : Type 0 where
  pub map_anon : ℕ → Option ℕ
  pub valid_layout : ℕ → ℕ → Bool
  pub alloc : ℕ → ℕ → Option ℕ

pub record SharedRegion : Type 0 where
  pub len : ℕ
  pub alignment : ℕ
  pub base : ℕ

-- `usize::is_power_of_two`: whether `n` is one of the powers below 2 ^ k.
unfoldable pub is_power_below : ℕ → ℕ → Bool
is_power_below zero n = false
is_power_below (suc k) n = if n == 2 ^ k then true else is_power_below k n

-- `ok none` is the fall back to the heap.
unfoldable pub mmap_backing : Platform → ℕ → ℕ → TransportResult (Option ℕ)
mmap_backing os len alignment = elim (os.map_anon len) [
  | none ↦ err (allocation_failed len alignment)
  | some base ↦ ok (if base % alignment == 0 then some base else none)
]

unfoldable pub heap_backing : Platform → ℕ → ℕ → TransportResult ℕ
heap_backing os len alignment =
    if os.valid_layout len alignment
    then elim (os.alloc len alignment) [
      | none ↦ err (allocation_failed len alignment)
      | some base ↦ ok base
    ]
    else err (allocation_failed len alignment)

unfoldable pub allocate_backing : Platform → ℕ → ℕ → TransportResult ℕ
unfolding is_power_below mmap_backing heap_backing
allocate_backing os len alignment =
    if not (is_power_below 64 alignment)
    then err (allocation_failed len alignment)
    else mmap_backing os len alignment >>= λ mapped. elim mapped [
      | some base ↦ ok base
      | none ↦ heap_backing os len alignment
    ]

-- `new_aligned_zeroed` and `new_aligned_uninit`
unfoldable pub new_aligned : Platform → ℕ → ℕ → TransportResult SharedRegion
unfolding allocate_backing
new_aligned os len alignment = allocate_backing os len alignment >>= λ base.
    ok (record { len = len; alignment = alignment; base = base })

-- `assert_view_bounds` for `len` elements of a size and an alignment: false is a panic.
unfoldable pub assert_view_bounds : SharedRegion → (offset len elem_size align : ℕ) → Bool
assert_view_bounds r offset len elem_size align =
    if elem_size == 0
    then true
    else ltb (len * elem_size) (2 ^ 64)
      && ltb (offset + len * elem_size) (2 ^ 64)
      && leb (offset + len * elem_size) r.len
      && (r.base + offset) % align == 0
