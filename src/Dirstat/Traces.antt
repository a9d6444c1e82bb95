-- ===== src/Dirstat/Traces.antt =====
-- dirstat.go: what `Attribution` shows after any sequence of frames.
use iolbox.Common.{
  ℕ, ◌≤◌, ◌≡◌, ◌≢◌, refl, ◌∙◌, Bool, true, false, some, List, [], ◌∷◌, length, arith,
}
use iolbox.Relay.Classify.{Label, Subtype}
use iolbox.Dirstat.{
  Classifier, AttribState, candidate_at, max_conflict, owns, observe_source, valid_source_mac,
  new_classifier, open_devs, open_dev, empty_classifier, entry_for, count, attribution,
}
use iolbox.Dirstat.Invariant.{
  IsValid, observe_source-IsValid, expire-IsValid, ensure_endpoint-IsValid,
}

-- What happens to a classifier: a frame of either kind, or a look at the attribution.
pub data Event : Type 0 where
  counted : ℕ → Label → Subtype → Event
  observed : ℕ → ℕ → ℕ → Event
  looked : ℕ → Event

unfoldable pub apply : Classifier → Event → Classifier
apply c (counted ep l s) = count c ep l s
apply c (observed ep mac now) = observe_source c ep mac now
apply c (looked now) = (attribution c now).0

unfoldable pub run : Classifier → List Event → Classifier
run c [] = c
run c (e ∷ es) = run (apply c e) es

count-IsValid :
    (c : Classifier) (ep : ℕ) (l : Label) (s : Subtype) → IsValid c → IsValid (count c ep l s)
unfolding count
count-IsValid c ep l s v =
    let w = ensure_endpoint-IsValid c ep v in
    record { apart = w.apart; free = w.free; real = w.real; bounded = w.bounded }

apply-IsValid : (c : Classifier) (e : Event) → IsValid c → IsValid (apply c e)
unfolding apply attribution
apply-IsValid c (counted ep l s) v = count-IsValid c ep l s v
apply-IsValid c (observed ep mac now) v = observe_source-IsValid c ep mac now v
apply-IsValid c (looked now) v = expire-IsValid c now v

run-IsValid : (c : Classifier) (es : List Event) → IsValid c → IsValid (run c es)
unfolding run
run-IsValid c [] v = v
run-IsValid c (e ∷ es) v = run-IsValid (apply c e) es (apply-IsValid c e v)

-- A new classifier attributes nothing.
open_devs-owns :
    (devs : List (ℕ × Bool)) (c : Classifier) (e m : ℕ)
    → owns c e m ≡ false
    → owns (open_devs devs c) e m ≡ false
unfolding open_devs
open_devs-owns [] c e m h = h
open_devs-owns ((index, named) ∷ devs) c e m h =
    open_devs-owns devs (open_dev c index named) e m (ground arith)

open_devs_conflicts :
    (devs : List (ℕ × Bool)) (c : Classifier) → (open_devs devs c).conflicts ≡ c.conflicts
unfolding open_devs
open_devs_conflicts [] c = refl
open_devs_conflicts ((index, named) ∷ devs) c =
    open_devs_conflicts devs (open_dev c index named) ∙ ground arith

pub new_classifier-IsValid : (devs : List (ℕ × Bool)) → IsValid (new_classifier devs)
unfolding new_classifier
new_classifier-IsValid devs =
    let nobody = λ (e m : ℕ). open_devs-owns devs empty_classifier e m refl in
    record {
      apart = λ m h. nobody 1 m;
      free = λ e m l h. absurd (ground (arith, nobody e m));
      real = λ e m l h. absurd (ground (arith, nobody e m));
      bounded = rw (open_devs_conflicts devs empty_classifier) (omega arith);
    }

-- What an entry shows is what the endpoint owns, once the attribution is valid.
entry_for-owns :
    (c : Classifier) (ep m : ℕ)
    → IsValid c
    → ep ≤ 1
    → (entry_for c ep).mac ≡ some m
    → owns c ep m ≡ true
unfolding entry_for
entry_for-owns c ep m v l h = ground arith

entry_for-single :
    (c : Classifier) (ep : ℕ)
    → IsValid c
    → ep ≤ 1
    → (entry_for c ep).state ≡ AttribState.attrib_single
    → (m : ℕ) × ((entry_for c ep).mac ≡ some m) × (valid_source_mac m ≡ true)
unfolding entry_for
entry_for-single c ep v l h =
    let m = (candidate_at c ep).mac in
    (m, ground (arith, v.free ep m l), ground (arith, v.real ep m l))

-- After any frames and looks, from a new classifier on any devices: an address shown for one
-- endpoint is not shown for the other, an endpoint shown as single is shown with an address, one
-- that can be a source, and at most 32 conflicts are kept.
pub run_attribution :
    (devs : List (ℕ × Bool)) (es : List Event)
    → let c = run (new_classifier devs) es in
      ((m : ℕ) → (entry_for c 0).mac ≡ some m → (entry_for c 1).mac ≢ some m)
      × ((ep : ℕ)
          → ep ≤ 1
          → (entry_for c ep).state ≡ AttribState.attrib_single
          → (m : ℕ) × ((entry_for c ep).mac ≡ some m) × (valid_source_mac m ≡ true))
      × (length c.conflicts ≤ max_conflict)
run_attribution devs es =
    let c = run (new_classifier devs) es in
    let v = run-IsValid (new_classifier devs) es (new_classifier-IsValid devs) in
    (
      λ m h k. ground (
        arith,
        v.apart m,
        entry_for-owns c 0 m v (omega arith) h,
        entry_for-owns c 1 m v (omega arith) k,
      ),
      λ ep l h. entry_for-single c ep v l h,
      v.bounded,
    )
