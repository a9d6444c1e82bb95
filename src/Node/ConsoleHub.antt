-- ===== src/Node/ConsoleHub.antt =====
-- supervisor/internal/node/console_hub.go: one node's console shared by any number of subscribers. Each
-- method that takes a lock is one step. Clients are pointers, here numbers in the order of their making.
-- The pty is outside: `pty i p` is what its i-th write does with the bytes p. Nvt has the line endings,
-- Input the way from clients to the pty, Output the way from the pty to clients.
pub mod Nvt
pub mod Input
pub mod Output
pub mod Attach
pub mod Batch
use iolbox.Common.{ℕ, ◌+◌, ◌==◌, Bool, false, if◌then◌else◌, List, []}
use iolbox.Common.Texts.{Text}

pub record InputTurn : Type 0 where
  pub active : Bool
  pub holder : Text
  pub id : ℕ
  pub queue : List (List ℕ)

pub record HubClient : Type 0 where
  pub closed : Bool
  pub out : List (List ℕ)
  pub cr_pending : Bool

-- `clients` says who is in the map, `client` what each pointer made so far points to, and `made` counts
-- them. `claims` counts the turns that were claimed; `finished` is the sync.Once of each. `written` is
-- what the pty took, in `writes` writes.
pub record ConsoleHub : Type 0 where
  pub name : Text
  pub clients : ℕ → Bool
  pub client : ℕ → HubClient
  pub made : ℕ
  pub ring : List ℕ
  pub closed : Bool
  pub done : Bool
  pub turn : InputTurn
  pub claims : ℕ
  pub finished : ℕ → Bool
  pub writes : ℕ
  pub written : List ℕ

abbrev pub update {ℓ} : {A : Type ℓ} → (ℕ → A) → ℕ → A → ℕ → A
update f i a j = if i == j then a else f j

abbrev idle_turn : InputTurn
idle_turn = record { active = false; holder = []; id = 0; queue = [] }

abbrev blank_client : HubClient
blank_client = record { closed = false; out = []; cr_pending = false }

unfoldable pub new_console_hub : Text → ConsoleHub
new_console_hub name = record {
  name = name;
  clients = λ _. false;
  client = λ _. blank_client;
  made = 0;
  ring = [];
  closed = false;
  done = false;
  turn = idle_turn;
  claims = 0;
  finished = λ _. false;
  writes = 0;
  written = [];
}
