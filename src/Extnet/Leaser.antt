-- ===== src/Extnet/Leaser.antt =====
-- supervisor/internal/extnet/dhcp.go: the leaser of the DHCP server. An address is its uint32, a MAC
-- address a number, as its printed key is one to one, and the map a function into `Option`. The lock
-- makes `lease` one step.
pub mod Bindings
pub mod Distinct
mod Runs
use iolbox.Common.{ℕ, ◌+◌, Bool, leb, ◌==◌, if◌then◌else◌, Option, some, none}

pub record Leaser : Type 0 where
  pub next : ℕ
  pub by_mac : ℕ → Option ℕ
  pub base_u32 : ℕ
  pub end_u32 : ℕ

pub new_leaser : ℕ → ℕ → Leaser
new_leaser start end = record {
  next = start;
  by_mac = λ mac. none;
  base_u32 = start;
  end_u32 = end;
}

-- Below the end the cursor's increment does not wrap.
pub advance : Leaser → ℕ
advance l = if leb l.end_u32 l.next then l.base_u32 else l.next + 1

-- What `lease` does with the binding of the key.
pub lease_bound : Leaser → ℕ → Option ℕ → Leaser × ℕ
unfolding advance
lease_bound l mac (some u) = (l, u)
lease_bound l mac none = (
  record l { by_mac = λ m. if m == mac then some l.next else l.by_mac m; next = advance l },
  l.next,
)

pub lease : Leaser → ℕ → Leaser × ℕ
unfolding lease_bound
lease l mac = lease_bound l mac (l.by_mac mac)
