-- ===== src/Dirstat.antt =====
-- supervisor/internal/dirstat/dirstat.go: counters and source-address attribution of a fabric link.
-- A [6]byte address is the 48-bit number of its bytes, first byte highest; a time is nanoseconds
-- since the process started; a Go map is a function into `Option`. Endpoint indexes are natural
-- numbers: a negative one fails the same guards as one above 1. The lock makes each method one step.
mod Conflicts
pub mod Invariant
pub mod Traces
mod Runs
use Prim.Native.Nat.{max}
use iolbox.Common.{
  ℕ, zero, suc, ◌+◌, ◌-◌, ◌/◌, ◌%◌, ◌^◌, Bool, true, false, not, ◌&&◌, ◌||◌, ltb, leb, ◌==◌,
  if◌then◌else◌, List, [], ◌∷◌, ◌++◌, Option, some, none, length,
}
use mathlib.Core.Logic.{ite}
use iolbox.Relay.Classify.{Label, Subtype, Label-discrete, Subtype-discrete}

-- `unset` is the empty string of Go's zero value.
pub data AttribState : Type 0 where
  unset attrib_none attrib_single attrib_ambiguous : AttribState

abbrev pub mac_ttl : ℕ
mac_ttl = 300000000000

abbrev pub max_conflict : ℕ
max_conflict = 32

pub record Candidate : Type 0 where
  pub mac : ℕ
  pub state : AttribState
  pub first_seen : ℕ
  pub last_seen : ℕ

pub record Conflict : Type 0 where
  pub mac : ℕ
  pub last_seen : ℕ

pub record Classifier : Type 0 where
  pub counts : ℕ → Label → Subtype → ℕ
  pub endpoints : ℕ → Bool
  pub candidates : ℕ → Option Candidate
  pub conflicts : List Conflict

abbrev pub blank : AttribState → Candidate
blank s = record { mac = 0; state = s; first_seen = 0; last_seen = 0 }

-- Go's zero value on a missing key.
abbrev pub candidate_at : Classifier → ℕ → Candidate
candidate_at c ep = elim (c.candidates ep) [ none ↦ blank AttribState.unset | some x ↦ x ]

abbrev put {ℓ} : {A : Type ℓ} → (ℕ → A) → ℕ → A → ℕ → A
put m k v j = if j == k then v else m j

set_candidate : Classifier → ℕ → Candidate → Classifier
set_candidate c ep x = record c { candidates = put c.candidates ep (some x) }

-- One device of `newClassifier`, its index with `false` for an empty name.
open_dev : Classifier → ℕ → Bool → Classifier
unfolding set_candidate
open_dev c index named =
    if ltb 1 index || not named
    then c
    else set_candidate (record c { endpoints = put c.endpoints index true }) index
        (blank AttribState.attrib_none)

open_devs : List (ℕ × Bool) → Classifier → Classifier
unfolding open_dev
open_devs [] c = c
open_devs ((index, named) ∷ devs) c = open_devs devs (open_dev c index named)

abbrev empty_classifier : Classifier
empty_classifier = record {
  counts = λ _ _ _. 0;
  endpoints = λ _. false;
  candidates = λ _. none;
  conflicts = [];
}

pub new_classifier : List (ℕ × Bool) → Classifier
unfolding open_devs
new_classifier devs = open_devs devs empty_classifier

pub ensure_endpoint : Classifier → ℕ → Classifier
unfolding set_candidate
ensure_endpoint c ep =
    if ltb 1 ep
    then c
    else (let c1 = record c { endpoints = put c.endpoints ep true } in
        elim (c.candidates ep) [
          | none ↦ set_candidate c1 ep (blank AttribState.attrib_none)
          | some x ↦ c1
        ])

-- The bucket's uint64 is incremented, and the others are left.
pub count : Classifier → ℕ → Label → Subtype → Classifier
unfolding ensure_endpoint
count c ep label subtype =
    let c1 = ensure_endpoint c ep in
    record c1 {
      counts = λ e l s.
          if e == ep
          then ite (Label-discrete l label)
              (ite (Subtype-discrete s subtype) ((c1.counts e l s + 1) % 2 ^ 64) (c1.counts e l s))
              (c1.counts e l s)
          else c1.counts e l s;
    }

-- Not a group address, and some byte is not 0.
pub valid_source_mac : ℕ → Bool
valid_source_mac mac = if not (mac / 2 ^ 40 % 2 == 0) then false else not (mac == 0)

-- `conflictIndexLocked(mac) >= 0`
pub conflict_has : ℕ → List Conflict → Bool
conflict_has mac [] = false
conflict_has mac (x ∷ xs) = x.mac == mac || conflict_has mac xs

-- The first entry with the address is seen again.
touch : ℕ → ℕ → List Conflict → List Conflict
touch mac now [] = []
touch mac now (x ∷ xs) =
    if x.mac == mac then record x { last_seen = now } ∷ xs else x ∷ touch mac now xs

-- The loop that looks for the oldest: entries from index `i` on, the best so far and its time.
oldest_from : ℕ → List Conflict → ℕ → ℕ → ℕ
oldest_from i [] oldest seen = oldest
oldest_from i (x ∷ xs) oldest seen =
    oldest_from (i + 1) xs (if ltb x.last_seen seen then i else oldest)
      (if ltb x.last_seen seen then x.last_seen else seen)

oldest_of : List Conflict → ℕ
unfolding oldest_from
oldest_of [] = 0
oldest_of (x ∷ xs) = oldest_from 1 xs 0 x.last_seen

remove_at : List Conflict → ℕ → List Conflict
remove_at [] i = []
remove_at (x ∷ xs) zero = xs
remove_at (x ∷ xs) (suc i) = x ∷ remove_at xs i

pub add_conflict : ℕ → ℕ → List Conflict → List Conflict
add_conflict mac now conflicts =
    if conflict_has mac conflicts
    then touch mac now conflicts
    else (let longer = conflicts ++ (record { mac = mac; last_seen = now } ∷ []) in
        if ltb max_conflict (length longer) then remove_at longer (oldest_of longer) else longer)

-- `now-lastSeen > macTTL`
abbrev expired : ℕ → ℕ → Bool
expired last_seen now = ltb (last_seen + mac_ttl) now

abbrev is_attrib_none : AttribState → Bool
is_attrib_none AttribState.attrib_none = true
is_attrib_none _ = false

abbrev is_single : AttribState → Bool
is_single AttribState.attrib_single = true
is_single _ = false

expire_candidate : ℕ → Option Candidate → Option Candidate
expire_candidate now none = none
expire_candidate now (some x) =
    if not (is_attrib_none x.state) && expired x.last_seen now
    then some (blank AttribState.attrib_none)
    else some x

pub expire_conflicts : ℕ → List Conflict → List Conflict
expire_conflicts now [] = []
expire_conflicts now (x ∷ xs) =
    if leb now (x.last_seen + mac_ttl) then x ∷ expire_conflicts now xs else expire_conflicts now xs

pub expire : Classifier → ℕ → Classifier
unfolding expire_candidate expire_conflicts
expire c now = record c {
  candidates = λ ep. expire_candidate now (c.candidates ep);
  conflicts = expire_conflicts now c.conflicts;
}

abbrev cleared : Candidate
cleared = blank AttribState.attrib_none

clear_candidate : Classifier → ℕ → Classifier
unfolding set_candidate ensure_endpoint
clear_candidate c ep = set_candidate (ensure_endpoint c ep) ep cleared

-- `current.state = attribAmbiguous` with the address dropped.
abbrev ambiguous_at : Candidate → ℕ → Candidate
ambiguous_at x now = record x { mac = 0; state = AttribState.attrib_ambiguous; last_seen = now }

-- The three switches of `observeSource` on the endpoint's own candidate: when the other endpoint
-- owns the address, when the address is in conflict already, and otherwise.
when_owned : ℕ → ℕ → AttribState → Candidate → Candidate
when_owned mac now AttribState.attrib_single x =
    if x.mac == mac then cleared else ambiguous_at x now
when_owned mac now AttribState.attrib_ambiguous x = record x { last_seen = now }
when_owned mac now _ x = x

when_conflicted : ℕ → ℕ → AttribState → Candidate → Candidate
when_conflicted mac now AttribState.attrib_single x = if x.mac == mac then cleared else x
when_conflicted mac now AttribState.attrib_ambiguous x = record x { last_seen = now }
when_conflicted mac now _ x = x

when_new : ℕ → ℕ → AttribState → Candidate → Candidate
when_new mac now AttribState.attrib_none x = record {
  mac = mac;
  state = AttribState.attrib_single;
  first_seen = now;
  last_seen = now;
}
when_new mac now AttribState.attrib_single x =
    if x.mac == mac then record x { last_seen = now } else ambiguous_at x now
when_new mac now AttribState.attrib_ambiguous x = record x { last_seen = now }
when_new mac now AttribState.unset x = x

-- The endpoint that owns the address as its single source.
abbrev pub owns : Classifier → ℕ → ℕ → Bool
owns c ep mac = is_single (candidate_at c ep).state && (candidate_at c ep).mac == mac

observe_valid : Classifier → ℕ → ℕ → ℕ → Classifier
unfolding set_candidate clear_candidate when_owned when_conflicted when_new
observe_valid c ep mac now =
    let other = 1 - ep in
    let current = candidate_at c ep in
    if owns c other mac
    then set_candidate
        (clear_candidate (record c { conflicts = add_conflict mac now c.conflicts }) other) ep
        (when_owned mac now current.state current)
    else if conflict_has mac c.conflicts
    then set_candidate c ep (when_conflicted mac now current.state current)
    else set_candidate c ep (when_new mac now current.state current)

pub observe_source : Classifier → ℕ → ℕ → ℕ → Classifier
unfolding observe_valid
observe_source c ep mac now =
    if not (valid_source_mac mac) || ltb 1 ep
    then c
    else observe_valid (ensure_endpoint c ep) ep mac now

-- An entry of `Attribution`: the endpoint, its state, and the address if one is shown.
pub record EndpointAttrib : Type 0 where
  pub endpoint_index : ℕ
  pub state : AttribState
  pub mac : Option ℕ

abbrev shown_state : AttribState → AttribState
shown_state AttribState.unset = AttribState.attrib_none
shown_state s = s

pub entry_for : Classifier → ℕ → EndpointAttrib
entry_for c ep =
    let x = candidate_at c ep in
    if is_single x.state && not (conflict_has x.mac c.conflicts)
    then record { endpoint_index = ep; state = AttribState.attrib_single; mac = some x.mac }
    else if is_single x.state
    then record { endpoint_index = ep; state = AttribState.attrib_none; mac = none }
    else record { endpoint_index = ep; state = shown_state x.state; mac = none }

-- The sorted indexes of the endpoints: 0 and 1 at most.
indexes : Classifier → List ℕ
indexes c = (if c.endpoints 0 then 0 ∷ [] else []) ++ (if c.endpoints 1 then 1 ∷ [] else [])

entries : Classifier → List ℕ → List EndpointAttrib
unfolding entry_for
entries c [] = []
entries c (ep ∷ eps) = entry_for c ep ∷ entries c eps

pub attribution : Classifier → ℕ → Classifier × List EndpointAttrib
unfolding entries indexes
attribution c now = let c1 = expire c now in (c1, entries c1 (indexes c1))
