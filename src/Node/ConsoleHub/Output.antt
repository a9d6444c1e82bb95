-- ===== src/Node/ConsoleHub/Output.antt =====
-- console_hub.go: the way from the pty to the subscribers. A subscriber that falls 64 chunks behind is
-- dropped, and a new one first gets the newest output again.
pub mod Broadcasts
pub mod Events
pub mod Screens
mod Runs
use iolbox.Common.{
  ℕ, zero, suc, ◌+◌, ◌-◌, Bool, true, false, not, ◌&&◌, ltb, if◌then◌else◌, List, [], ◌∷◌, ◌++◌,
  Option, none, some, length, drop,
}
use iolbox.Common.Texts.{codes}
use iolbox.Telnet.{iac, will, opt_echo, opt_sga}
use iolbox.Node.ConsoleHub.{HubClient, ConsoleHub, update}
use iolbox.Node.ConsoleHub.Input.{is_empty}

abbrev pub replay_ring_size : ℕ
replay_ring_size = 8192

abbrev pub hub_client_queue : ℕ
hub_client_queue = 64

-- `hubClient.enqueue`
unfoldable pub enqueue_client : HubClient → List ℕ → HubClient × Bool
enqueue_client c p =
    if c.closed
    then (c, false)
    else if ltb (length c.out) hub_client_queue
    then (record c { out = c.out ++ (p ∷ []) }, true)
    else (c, false)

-- `hubClient.close`. What the channel still holds can be received.
pub close_client : ConsoleHub → ℕ → ConsoleHub
close_client h c = record h { client = update h.client c (record (h.client c) { closed = true }) }

-- `append(h.ring, chunk...)`, and the trim behind it.
unfoldable pub append_ring : List ℕ → List ℕ → List ℕ
append_ring ring chunk =
    let whole = ring ++ chunk in
    let over = length whole - replay_ring_size in if ltb 0 over then drop over whole else whole

-- One round of the loop over the clients, with the pointers that are dropped so far.
pub offer : ConsoleHub → List ℕ → ℕ → List ℕ → ConsoleHub × List ℕ
offer h chunk c dropped =
    let (client', queued) = enqueue_client (h.client c) chunk in
    if not (h.clients c)
    then (h, dropped)
    else if queued
    then (record h { client = update h.client c client' }, dropped)
    else (record h { clients = update h.clients c false }, dropped ++ (c ∷ []))

-- The loop, over the first `n` pointers.
pub offer_all : ConsoleHub → List ℕ → ℕ → ConsoleHub × List ℕ
unfolding offer
offer_all h chunk zero = (h, [])
offer_all h chunk (suc c) = let (h', dropped) = offer_all h chunk c in offer h' chunk c dropped

pub close_all : ConsoleHub → List ℕ → ConsoleHub
unfolding close_client
close_all h [] = h
close_all h (c ∷ cs) = close_all (close_client h c) cs

pub broadcast : ConsoleHub → List ℕ → ConsoleHub
unfolding offer_all close_all
broadcast h chunk =
    let (h', dropped) = offer_all (record h { ring = append_ring h.ring chunk }) chunk h.made in
    close_all h' dropped

-- The chunks that are queued before the client is registered.
unfoldable pub preamble : ConsoleHub → Bool → Bool → List (List ℕ)
preamble h telnet replay =
    (if telnet then (iac ∷ will ∷ opt_echo ∷ iac ∷ will ∷ opt_sga ∷ []) ∷ [] else [])
    ++ (if replay && not (is_empty h.name)
        then ((27 ∷ codes "]0;") ++ (h.name ++ (7 ∷ []))) ∷ []
        else [])
    ++ (if replay && not (is_empty h.ring) then h.ring ∷ [] else [])

-- A new client is a new pointer; nil is `none`.
unfoldable pub register_locked : ConsoleHub → Bool → Bool → ConsoleHub × Option ℕ
unfolding preamble
register_locked h telnet replay =
    let c : HubClient = record {
      closed = false;
      out = preamble h telnet replay;
      cr_pending = false;
    } in
    if h.closed then (h, none) else (
      record h {
        clients = update h.clients h.made true;
        client = update h.client h.made c;
        made = h.made + 1;
      },
      some h.made,
    )

pub subscribe : ConsoleHub → Bool → ConsoleHub × Option ℕ
unfolding register_locked
subscribe h replay = register_locked h false replay

pub detach : ConsoleHub → ℕ → ConsoleHub
unfolding close_client
detach h c = close_client (record h { clients = update h.clients c false }) c

-- The clients among the first `n` pointers.
pub close_members : ConsoleHub → ℕ → ConsoleHub
unfolding close_client
close_members h zero = h
close_members h (suc c) =
    let h' = close_members h c in if h.clients c then close_client h' c else h'

-- `done` is closed last, and stands for the sync.Once too.
pub shutdown : ConsoleHub → ConsoleHub
unfolding close_members
shutdown h =
    let h' = close_members h h.made in
    if h.done then h else record h' { closed = true; clients = λ _. false; done = true }

abbrev pub head_bytes : List (List ℕ) → List ℕ
head_bytes [] = []
head_bytes (chunk ∷ out) = chunk

abbrev pub later : List (List ℕ) → List (List ℕ)
later [] = []
later (chunk ∷ out) = out

-- `<-c.out`: the next chunk, if there is one.
pub receive : ConsoleHub → ℕ → ConsoleHub × List ℕ
receive h c = (
  record h { client = update h.client c (record (h.client c) { out = later (h.client c).out }) },
  head_bytes (h.client c).out,
)
