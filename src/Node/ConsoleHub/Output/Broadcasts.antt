-- ===== src/Node/ConsoleHub/Output/Broadcasts.antt =====
-- console_hub.go: a chunk of the output in the clients' queues.
use iolbox.Common.{
  ℕ, zero, suc, ◌≤◌, ◌<◌, ◌≡◌, ◌≢◌, refl, sym, ap, ◌∙◌, ◌⊎◌, inl, inr, true, false, ◌==◌, ==_iff,
  List, [], ◌∷◌, ◌++◌, Bool-cases, arith,
}
use mathlib.Core.Path.{subst}
use iolbox.Node.ConsoleHub.{HubClient, ConsoleHub}
use iolbox.Node.ConsoleHub.Output.{
  enqueue_client, close_client, append_ring, offer, offer_all, close_all, broadcast, close_members,
}

-- The rest of the hub.
abbrev pub Frame : ConsoleHub → ConsoleHub → Type 0
Frame h k = (k.made ≡ h.made) × (k.ring ≡ h.ring) × (k.name ≡ h.name) × (k.done ≡ h.done)

Frame-trans : (h k l : ConsoleHub) → Frame h k → Frame k l → Frame h l
Frame-trans h k l (a, b, c, d) (a', b', c', d') = (a' ∙ a, b' ∙ b, c' ∙ c, d' ∙ d)

-- Client `c` gets no chunk.
abbrev pub Untouched : ℕ → ConsoleHub → ConsoleHub → Type 0
Untouched c h k =
    ((k.client c).out ≡ (h.client c).out) × ((k.clients c ≡ false) ⊎ (k.clients c ≡ h.clients c))

offer-Frame :
    (h : ConsoleHub) (chunk : List ℕ) (i : ℕ) (dropped : List ℕ)
    → Frame h (offer h chunk i dropped).0
unfolding offer
offer-Frame h chunk i dropped = ground arith

offer_all-Frame : (h : ConsoleHub) (chunk : List ℕ) (n : ℕ) → Frame h (offer_all h chunk n).0
unfolding offer_all
offer_all-Frame h chunk zero = (refl, refl, refl, refl)
offer_all-Frame h chunk (suc n) =
    let k = offer_all h chunk n in
    Frame-trans h k.0 (offer k.0 chunk n k.1).0 (offer_all-Frame h chunk n)
      (offer-Frame k.0 chunk n k.1)

close_all-Frame : (h : ConsoleHub) (cs : List ℕ) → Frame h (close_all h cs)
unfolding close_all close_client
close_all-Frame h [] = (refl, refl, refl, refl)
close_all-Frame h (c ∷ cs) = close_all-Frame (close_client h c) cs

pub broadcast-Frame :
    (h : ConsoleHub) (chunk : List ℕ)
    → Frame (record h { ring = append_ring h.ring chunk }) (broadcast h chunk)
unfolding broadcast
broadcast-Frame h chunk =
    let h1 = record h { ring = append_ring h.ring chunk } in
    let k = offer_all h1 chunk h.made in
    Frame-trans h1 k.0 (close_all k.0 k.1) (offer_all-Frame h1 chunk h.made)
      (close_all-Frame k.0 k.1)

pub close_members-Frame : (h : ConsoleHub) (n : ℕ) → Frame h (close_members h n)
unfolding close_members close_client
close_members-Frame h zero = (refl, refl, refl, refl)
close_members-Frame h (suc n) = ground (arith, close_members-Frame h n)

offer_other :
    (h : ConsoleHub) (chunk : List ℕ) (i c : ℕ) (dropped : List ℕ)
    → i ≢ c
    → ((offer h chunk i dropped).0.client c ≡ h.client c)
      × ((offer h chunk i dropped).0.clients c ≡ h.clients c)
unfolding offer
offer_other h chunk i c dropped other = ground arith

offer_all_below :
    (h : ConsoleHub) (chunk : List ℕ) (n c : ℕ)
    → n ≤ c
    → ((offer_all h chunk n).0.client c ≡ h.client c)
      × ((offer_all h chunk n).0.clients c ≡ h.clients c)
unfolding offer_all
offer_all_below h chunk zero c below = (refl, refl)
offer_all_below h chunk (suc n) c below =
    let k = offer_all h chunk n in
    let first = offer_all_below h chunk n c (omega arith) in
    let last = offer_other k.0 chunk n c k.1 (omega arith) in (last.0 ∙ first.0, last.1 ∙ first.1)

-- Client `c` has the chunk in its queue, or is out of the map.
abbrev Offered : ℕ → List ℕ → ConsoleHub → ConsoleHub → Type 0
Offered c chunk h k =
    (((k.client c).out ≡ (h.client c).out ++ (chunk ∷ []))
      × (h.clients c ≡ true)
      × (k.clients c ≡ true))
    ⊎ (((k.client c).out ≡ (h.client c).out) × (k.clients c ≡ false))

enqueue_client-out :
    (x : HubClient) (chunk : List ℕ)
    → (enqueue_client x chunk).1 ≡ true
    → (enqueue_client x chunk).0.out ≡ x.out ++ (chunk ∷ [])
unfolding enqueue_client
enqueue_client-out x chunk queued = ground arith

Offered-after :
    (c : ℕ) (chunk : List ℕ) (h k l : ConsoleHub)
    → k.client c ≡ h.client c
    → k.clients c ≡ h.clients c
    → Offered c chunk k l
    → Offered c chunk h l
Offered-after c chunk h k l e f (inl (a, b, d)) =
    inl (a ∙ ap (λ (x : HubClient). x.out ++ (chunk ∷ [])) e, sym f ∙ b, d)
Offered-after c chunk h k l e f (inr (a, b)) = inr (a ∙ ap (λ (x : HubClient). x.out) e, b)

Offered-before :
    (c : ℕ) (chunk : List ℕ) (h k l : ConsoleHub)
    → (l.client c).out ≡ (k.client c).out
    → l.clients c ≡ k.clients c
    → Offered c chunk h k
    → Offered c chunk h l
Offered-before c chunk h k l e f (inl (a, b, d)) = inl (e ∙ a, b, f ∙ d)
Offered-before c chunk h k l e f (inr (a, b)) = inr (e ∙ a, f ∙ b)

offer-Offered :
    (h : ConsoleHub) (chunk : List ℕ) (c : ℕ) (dropped : List ℕ)
    → Offered c chunk h (offer h chunk c dropped).0
unfolding offer
offer-Offered h chunk c dropped = elim (Bool-cases (h.clients c)) [
  | inr e ↦ inr (ground arith, ground arith)
  | inl e ↦ elim (Bool-cases (enqueue_client (h.client c) chunk).1) [
    | inl queued ↦
        inl (ground (arith, enqueue_client-out (h.client c) chunk queued), e, ground arith)
    | inr full ↦ inr (ground arith, ground arith)
  ]
]

offer_all-Offered :
    (h : ConsoleHub) (chunk : List ℕ) (n c : ℕ) → c < n → Offered c chunk h (offer_all h chunk n).0
unfolding offer_all
offer_all-Offered h chunk zero c below = absurd (omega arith)
offer_all-Offered h chunk (suc n) c below =
    let k = offer_all h chunk n in
    let l = offer k.0 chunk n k.1 in
    elim (Bool-cases (n == c)) [
      | inl e ↦
          let same : n ≡ c = (==_iff n c).0 e in
          let kept = offer_all_below h chunk n c (omega (arith, same)) in
          Offered-after c chunk h k.0 l.0 kept.0 kept.1 (
            subst (λ (i : ℕ). Offered c chunk k.0 (offer k.0 chunk i k.1).0) (sym same)
              (offer-Offered k.0 chunk c k.1))
      | inr e ↦
          let other : n ≢ c = λ p. cc (e, (==_iff n c).1 p) in
          let kept = offer_other k.0 chunk n c k.1 other in
          Offered-before c chunk h k.0 l.0 (ap (λ (x : HubClient). x.out) kept.0) kept.1
            (offer_all-Offered h chunk n c (omega (arith, other)))
    ]

close_all_out :
    (h : ConsoleHub) (cs : List ℕ) (c : ℕ)
    → (((close_all h cs).client c).out ≡ (h.client c).out)
      × ((close_all h cs).clients c ≡ h.clients c)
unfolding close_all close_client
close_all_out h [] c = (refl, refl)
close_all_out h (i ∷ cs) c = ground (arith, close_all_out (close_client h i) cs c)

pub close_members_out :
    (h : ConsoleHub) (n c : ℕ) → ((close_members h n).client c).out ≡ (h.client c).out
unfolding close_members close_client
close_members_out h zero c = refl
close_members_out h (suc n) c = ground (arith, close_members_out h n c)

pub broadcast-Offered :
    (h : ConsoleHub) (chunk : List ℕ) (c : ℕ) → c < h.made → Offered c chunk h (broadcast h chunk)
unfolding broadcast
broadcast-Offered h chunk c below =
    let h1 = record h { ring = append_ring h.ring chunk } in
    let k = offer_all h1 chunk h.made in
    let closing = close_all_out k.0 k.1 c in
    Offered-before c chunk h k.0 (close_all k.0 k.1) closing.0 closing.1
      (Offered-after c chunk h h1 k.0 refl refl (offer_all-Offered h1 chunk h.made c below))
