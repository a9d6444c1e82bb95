-- ===== src/Relay/Classify/Vlan.antt =====
-- classify.go: an 802.1Q tag moves the rest of the frame and changes nothing else.
use iolbox.Common.{
  ℕ, ◌+◌, ◌≡◌, ◌≢◌, refl, sym, ◌∙◌, true, ◌>>=◌, List, [], ◌∷◌, ◌++◌, some, arith, length,
  length-append, get_elem?-append_length,
}
use iolbox.Common.Bytes.{be16}
use iolbox.Relay.Classify.{at, word, classify_payload, classify_detailed}
use iolbox.Relay.Classify.Window.{Window, payload-Window}

-- Two addresses, a tag, and what follows.
abbrev pub tag : List ℕ → ℕ → ℕ → List ℕ → List ℕ
tag macs t1 t2 rest = macs ++ (0x81 ∷ 0x00 ∷ t1 ∷ t2 ∷ rest)

pub at_behind :
    (pre rest : List ℕ) (n k i : ℕ) → length pre ≡ n → k ≡ n + i → at (pre ++ rest) k ≡ at rest i
at_behind pre rest n k i h e = rw (e, ← h) (get_elem?-append_length pre rest i)

module _ (macs : List ℕ) (t1 t2 e1 e2 : ℕ) (body : List ℕ) (macs_len : length macs ≡ 12) where
  tag_len : length (tag macs t1 t2 (e1 ∷ e2 ∷ body)) ≡ 18 + length body
  tag_len = rw length-append (omega arith)

  plain_len : length (macs ++ (e1 ∷ e2 ∷ body)) ≡ 14 + length body
  plain_len = rw length-append (omega arith)

  outer_word : word (tag macs t1 t2 (e1 ∷ e2 ∷ body)) 12 13 ≡ some 0x8100
  unfolding word
  outer_word = rw (at_behind macs _ 12 12 0 macs_len refl, at_behind macs _ 12 13 1 macs_len refl)

  inner_word : word (tag macs t1 t2 (e1 ∷ e2 ∷ body)) 16 17 ≡ some (be16 e1 e2)
  unfolding word
  inner_word = rw (at_behind macs _ 12 16 4 macs_len refl, at_behind macs _ 12 17 5 macs_len refl)

  plain_word : word (macs ++ (e1 ∷ e2 ∷ body)) 12 13 ≡ some (be16 e1 e2)
  unfolding word
  plain_word = rw (at_behind macs _ 12 12 0 macs_len refl, at_behind macs _ 12 13 1 macs_len refl)

  tag-Window : Window (tag macs t1 t2 (e1 ∷ e2 ∷ body)) (macs ++ (e1 ∷ e2 ∷ body)) 18 14
  tag-Window = record {
    len = omega (arith, tag_len, plain_len);
    same = λ i.
        at_behind macs _ 12 (18 + i) (6 + i) macs_len (omega arith)
        ∙ at_behind (0x81 ∷ 0x00 ∷ t1 ∷ t2 ∷ e1 ∷ e2 ∷ []) body 6 (6 + i) i refl refl
        ∙ sym (at_behind (e1 ∷ e2 ∷ []) body 2 (2 + i) i refl refl)
        ∙ sym (at_behind macs _ 12 (14 + i) (2 + i) macs_len (omega arith));
  }

  -- A frame with a tag behind its 12 address bytes gets the label and subtype of the frame without
  -- it, and is reported as tagged; the ethertype behind the tag is not that of a second tag.
  pub classify_detailed-tag :
      be16 e1 e2 ≢ 0x8100
      → classify_detailed (tag macs t1 t2 (e1 ∷ e2 ∷ body)) ≡ (do
        (label, subtype, _) ← classify_detailed (macs ++ (e1 ∷ e2 ∷ body))
        some (label, subtype, true))
  unfolding classify_detailed
  classify_detailed-tag h =
      let same : classify_payload (be16 e1 e2) (tag macs t1 t2 (e1 ∷ e2 ∷ body)) 18
          ≡ classify_payload (be16 e1 e2) (macs ++ (e1 ∷ e2 ∷ body)) 14 =
        payload-Window _ _ (be16 e1 e2) 18 14 tag-Window in
      ground (arith, tag_len, plain_len, outer_word, inner_word, plain_word, same)
