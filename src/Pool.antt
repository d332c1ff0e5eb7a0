-- ===== src/Pool.antt =====
-- common/pool/alloc.go: pools of byte slices, one for each power of two up to 64 KiB. A slice is
-- given by its capacity; a size below 0 is refused as 0 is.
pub mod Classes
pub mod Alloc
mod Tests
use proxy_speedtest.Prelude.{
  ℕ, zero, suc, ◌+◌, ◌/◌, ◌%◌, ◌^◌, ◌<◌, ◌≡◌, Bool, ◌||◌, List, [], ◌∷◌, ◌++◌, Option, none, some,
  not, if◌then◌else◌, ◌==◌, ltb,
}

-- bits.Len32: the number of bits of a number, which 32 rounds take down to 0.
unfoldable pub len_bits : ℕ → ℕ → ℕ
len_bits zero n = 0
len_bits (suc f) n = let rest = len_bits f (n / 2) in if n == 0 then 0 else suc rest

-- `uint16(bits.Len32(uint32(size)) - 1)`
unfoldable pub msb : ℕ → ℕ
msb size = (len_bits 32 (size % 2 ^ 32) + 65535) % 65536

-- The index of the pool that `Get` takes a slice from; none where it returns nil.
unfoldable pub get_class : ℕ → Option ℕ
get_class size =
    if size == 0 || ltb 65536 size
    then none
    else if size == 2 ^ msb size
    then some (msb size)
    else some (msb size + 1)

-- The index of the pool that `Put` gives a slice of this capacity to; none where it is an error.
unfoldable pub put_class : ℕ → Option ℕ
put_class capacity =
    if capacity == 0 || (ltb 65536 capacity || not (capacity == 2 ^ msb capacity))
    then none
    else some (msb capacity)

-- The capacities in the pools, by index.
abbrev pub Allocator : Type 0
Allocator = ℕ → List ℕ

abbrev pub new_allocator : Allocator
new_allocator k = []

unfoldable pub set_pool : ℕ → List ℕ → Allocator → Allocator
set_pool k caps a j = if j == k then caps else a j

-- sync.Pool.Get: some item, which leaves the pool, or what `New` makes, of capacity `fresh`.
pub data Takes (fresh : ℕ) : List ℕ → ℕ → List ℕ → Type 0 where
  made : {caps : List ℕ} → Takes fresh caps fresh caps
  reused :
      (before : List ℕ) (capacity : ℕ) (after : List ℕ)
      → Takes fresh (before ++ capacity ∷ after) capacity (before ++ after)

-- A call of `Get` that returns a slice of capacity `capacity`.
pub data Get (a : Allocator) (size capacity : ℕ) : Allocator → Type 0 where
  get :
      {k : ℕ} {caps : List ℕ}
      → get_class size ≡ some k
      → Takes (2 ^ k) (a k) capacity caps
      → Get a size capacity (set_pool k caps a)

-- The allocators that calls of `Get` and `Put` lead to; a slice of any capacity can be put.
pub data Reached : Allocator → Type 0 where
  new : Reached new_allocator
  after_get : {a b : Allocator} (size capacity : ℕ) → Reached a → Get a size capacity b → Reached b
  after_put :
      {a : Allocator} (capacity k : ℕ)
      → Reached a
      → put_class capacity ≡ some k
      → Reached (set_pool k (capacity ∷ a k) a)
