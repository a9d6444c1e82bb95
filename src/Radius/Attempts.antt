-- ===== src/Radius/Attempts.antt =====
-- radius.go: the attempts that the AAA tool shows.
use iolbox.Common.{
  ℕ, ◌-◌, ◌≤◌, ◌≡◌, sym, ap, ◌∙◌, inl, inr, Bool-cases, ltb, List, [], ◌∷◌, ◌++◌, map, length,
  length-drop, keep_last, keep_last_all, keep_last-append, append_assoc, append-nil, arith,
}
use iolbox.Common.Texts.{Text}
use iolbox.Radius.{
  Config, LoggedAttempt, AttemptRing, new_ring, add, handle_packet, evaluate_access_request,
}

add_lem :
    (r : AttemptRing) (item : LoggedAttempt)
    → (add r item).items ≡ keep_last r.max (r.items ++ (item ∷ []))
unfolding add
add_lem r item = elim (Bool-cases (ltb r.max (length (r.items ++ (item ∷ []))))) [
  | inl more ↦ rw more
  | inr fits ↦ rw fits (sym (keep_last_all r.max (r.items ++ (item ∷ [])) (ground arith)))
]

module _ (md5 : List ℕ → List ℕ) (hmac : List ℕ → List ℕ → List ℕ) (fold : Text → Text)
    (cfg : Config) where
  -- The datagrams in order.
  pub handle_all : AttemptRing → List (ℕ × Text × List ℕ) → AttemptRing
  handle_all r [] = r
  handle_all r (d ∷ ds) = handle_all (handle_packet md5 hmac fold cfg r d).0 ds

  abbrev pub logged : ℕ × Text × List ℕ → LoggedAttempt
  logged (now, remote, packet_bytes) = record {
    at = now;
    remote = remote;
    attempt = (evaluate_access_request md5 hmac fold packet_bytes cfg).1;
  }

  handle_all-keep_last :
      (r : AttemptRing) (ds : List (ℕ × Text × List ℕ))
      → length r.items ≤ r.max
      → (handle_all r ds).items ≡ keep_last r.max (r.items ++ map logged ds)
  unfolding handle_all handle_packet
  handle_all-keep_last r [] fits = rw (append-nil r.items) (sym (keep_last_all r.max r.items fits))
  handle_all-keep_last r ((now, remote, packet_bytes) ∷ ds) fits =
      let item = logged (now, remote, packet_bytes) in
      let next = add r item in
      let kept = add_lem r item in
      let small : length next.items ≤ r.max = omega (
        arith,
        ap length kept,
        length-drop (length (r.items ++ (item ∷ [])) - r.max) (r.items ++ (item ∷ [])),
      ) in
      handle_all-keep_last next ds small
      ∙ ap (λ (l : List LoggedAttempt). keep_last r.max (l ++ map logged ds)) kept
      ∙ keep_last-append r.max (r.items ++ (item ∷ [])) (map logged ds)
      ∙ ap (keep_last r.max) (append_assoc r.items (item ∷ []) (map logged ds))

  -- After any datagrams, well-formed or not, the ring holds the last attempts, as many as its size lets
  -- it, each with its time, sender and outcome, in their order.
  pub handle_all_lem :
      (max : ℕ) (ds : List (ℕ × Text × List ℕ))
      → (handle_all (new_ring max) ds).items ≡ keep_last (new_ring max).max (map logged ds)
  unfolding new_ring
  handle_all_lem max ds = handle_all-keep_last (new_ring max) ds (omega arith)
