-- ===== src/Sandbox/Addresses.antt =====
-- internal/sandbox/network.go: the loopback addresses that are handed out to sandboxes, one for each launch;
-- an address is its last number.
use muro.Base.{ℕ, zero, suc, ◌+◌, ◌%◌, ltb, if◌then◌else◌, refl, ◌≡◌, arith}

-- `outboundAddrAllocator`
pub record Allocator : Type 0 where
  pub next : ℕ

-- `newOutboundAddrAllocator`
abbrev pub new_allocator : Allocator
new_allocator = record { next = 2 }

-- `allocate`: the address and the allocator after it
unfoldable pub allocate : Allocator → ℕ × Allocator
allocate a = (a.next, record a { next = if ltb 254 (a.next + 1) then 2 else a.next + 1 })

-- the allocator after a number of calls
unfoldable pub allocated : ℕ → Allocator
unfolding allocate
allocated zero = new_allocator
allocated (suc n) = (allocate (allocated n)).1

-- The address of the call after n others is 2 plus the rest of n by 253: the first 253 calls give
-- different addresses, and the next one gives the first again, whether or not it is still in use.
pub allocate_lem : (n : ℕ) → (allocate (allocated n)).0 ≡ 2 + n % 253
unfolding allocate allocated
allocate_lem zero = refl
allocate_lem (suc n) = let ih = allocate_lem n in ground (arith, ih)
