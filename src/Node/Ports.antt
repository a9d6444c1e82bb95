-- ===== src/Node/Ports.antt =====
-- supervisor/internal/node/ports.go: the allocator of console ports. The set of taken ports is a
-- function, and the lock makes each method one step.
pub mod Lowest
mod Runs
use iolbox.Common.{
  ℕ, zero, suc, ◌+◌, ◌-◌, Bool, true, false, ◌&&◌, ltb, ◌==◌, if◌then◌else◌, Option, some, none,
}

pub record PortAllocator : Type 0 where
  pub base : ℕ
  pub max_port : ℕ
  pub taken : ℕ → Bool

-- A count of 0 stands for Go's counts that are not positive.
pub new_port_allocator : ℕ → ℕ → PortAllocator
new_port_allocator base count = record {
  base = base;
  max_port = if ltb 0 count && ltb (base + count) 65536 then base + count else 65536;
  taken = λ _. false;
}

abbrev pub mark : (ℕ → Bool) → ℕ → Bool → ℕ → Bool
mark taken port v p = if p == port then v else taken p

-- The loop of `Next`: `n` ports from `port` on.
pub scan : (ℕ → Bool) → ℕ → ℕ → Option ℕ
scan taken zero port = none
scan taken (suc n) port =
    let rest = scan taken n (port + 1) in if taken port then rest else some port

pub taken_now : PortAllocator → Option ℕ → PortAllocator × Option ℕ
taken_now p none = (p, none)
taken_now p (some port) = (record p { taken = mark p.taken port true }, some port)

pub next : PortAllocator → PortAllocator × Option ℕ
unfolding taken_now
next p = taken_now p (scan p.taken (p.max_port - p.base) p.base)

-- `false` is the error.
pub reserve : PortAllocator → ℕ → PortAllocator × Bool
reserve p port =
    if p.taken port then (p, false) else (record p { taken = mark p.taken port true }, true)

pub release : PortAllocator → ℕ → PortAllocator
release p port = record p { taken = mark p.taken port false }
