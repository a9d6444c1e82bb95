-- ===== src/Node/ConsoleHub/Attach.antt =====
-- console_hub.go: the reader of a TCP client, behind `attach`. One read of the connection is a step.
pub mod Keyboard
mod Runs
use iolbox.Common.{
  ℕ, ◌+◌, Bool, true, false, not, ◌&&◌, if◌then◌else◌, List, [], ◌∷◌, Option, none, some,
}
use iolbox.Telnet.{Negotiator, feed, take_reply}
use iolbox.Node.ConsoleHub.{HubClient, ConsoleHub, update}
use iolbox.Node.ConsoleHub.Nvt.{normalize_nvt}
use iolbox.Node.ConsoleHub.Input.{PtyWrite, is_empty, is_err, gated_write}
use iolbox.Node.ConsoleHub.Output.{enqueue_client, register_locked, detach}

-- The hub, the stream's negotiator, and whether the reader goes on.
pub record Reading : Type 0 where
  pub hub : ConsoleHub
  pub neg : Negotiator
  pub going : Bool

-- `none` is a connection that is closed at once.
pub attach : ConsoleHub → ConsoleHub × Option ℕ
attach h = register_locked h true true

module _ (pty : ℕ → List ℕ → PtyWrite) (c : ℕ) where
  -- Behind the replies: the line endings and the write.
  pub forward : ConsoleHub → Negotiator → List ℕ → Reading
  forward h neg clean =
      let (keys, pending) = normalize_nvt clean (h.client c).cr_pending in
      let h1 = record h {
        client = update h.client c (record (h.client c) { cr_pending = pending });
      } in
      let (h2, error) = gated_write pty h1 keys in
      if is_err error
      then record { hub = detach h2 c; neg = neg; going = false }
      else record { hub = h2; neg = neg; going = true }

  pub read_once : ConsoleHub → Negotiator → List ℕ → Reading
  unfolding forward
  read_once h neg buf =
      let (neg1, clean) = feed neg buf in
      let (neg2, reply) = take_reply neg1 in
      let (client', queued) = enqueue_client (h.client c) reply in
      let answered =
        if is_empty reply then h else record h { client = update h.client c client' } in
      if not (is_empty reply) && not queued
      then record { hub = detach h c; neg = neg2; going = false }
      else forward answered neg2 clean

  -- The reads in order, until the reader stops.
  pub read_all : ConsoleHub → Negotiator → List (List ℕ) → Reading
  unfolding read_once
  read_all h neg [] = record { hub = h; neg = neg; going = true }
  read_all h neg (buf ∷ bufs) =
      let r = read_once h neg buf in
      let rest = read_all r.hub r.neg bufs in if r.going then rest else r
