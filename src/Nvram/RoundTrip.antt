-- ===== src/Nvram/RoundTrip.antt =====
-- nvram.go: `Decode` reads the text that `Encode` wrote, and the image carries a valid checksum.
use iolbox.Common.{
  ℕ, ◌+◌, ◌-◌, ◌*◌, ◌/◌, ◌%◌, ◌<◌, ◌≤◌, ◌≡◌, ap, ◌∙◌, List, ◌++◌, append_assoc, some, length,
  length-append, take, take-length-append, All, arith,
}
use iolbox.Common.Bytes.{be16, bytes32_value, IsByte}
use iolbox.Nvram.{
  startup_section, pad4, add_private, set_checksum, fold_carries, fold_fuel, sum_words, fit_size,
  ios_of, encode, decode, Decoded, Options,
}
use iolbox.Nvram.Layout.{
  image, startup_section-image, image-append, length-image, pad4_adds, add_private_adds,
  fit_size_adds, checksum, set_checksum-image,
}
use iolbox.Nvram.Checksum.{
  fold_carries_lem, word_sum, word_sum-le, sum_words-word_sum, sum_words-lt, fold_complement,
}

take-image :
    (c1 c2 ios : ℕ) (text rest : List ℕ)
    → take (36 + length text) (image c1 c2 ios (length text) (text ++ rest))
      ≡ image c1 c2 ios (length text) text
take-image c1 c2 ios text rest =
    rw
      (
        ← length-image c1 c2 ios (length text) text,
        ← image-append c1 c2 ios (length text) text rest,
      )
      (take-length-append (image c1 c2 ios (length text) text) rest)

-- An image is the header, the text and a tail, with the checksum of the header and text in place.
record Encoded (text : List ℕ) (opts : Options) : Type 0 where
  sum : ℕ
  tail : List ℕ
  summed :
      fold_carries fold_fuel (sum_words (image 0 0 (ios_of opts.ios_version) (length text) text) 0)
      ≡ some sum
  fits : sum < 65536
  layout :
      encode text opts
      ≡ image
          ((65535 - sum) / 256 % 256)
          ((65535 - sum) % 256)
          (ios_of opts.ios_version)
          (length text)
          (text ++ tail)

prepared :
    (text priv : List ℕ) (ios : ℕ)
    → (t : List ℕ) × (add_private (pad4 (startup_section text ios)) priv
        ≡ image 0 0 ios (length text) (text ++ t))
prepared text priv ios =
    let section = image 0 0 ios (length text) text in
    let (t1, p1) = pad4_adds section in
    let (t2, p2) = add_private_adds (section ++ t1) priv in
    (
      t1 ++ t2,
      ap (λ (l : List ℕ). add_private (pad4 l) priv) (startup_section-image text ios)
          ∙ ap (λ (l : List ℕ). add_private l priv) p1
          ∙ p2
          ∙ append_assoc section t1 t2
          ∙ image-append 0 0 ios (length text) text (t1 ++ t2),
    )

summed_image :
    (text rest : List ℕ) (ios s : ℕ)
    → fold_carries fold_fuel (sum_words (image 0 0 ios (length text) text) 0) ≡ some s
    → set_checksum (image 0 0 ios (length text) (text ++ rest)) (36 + length text)
      ≡ image ((65535 - s) / 256 % 256) ((65535 - s) % 256) ios (length text) (text ++ rest)
unfolding checksum
summed_image text rest ios s e =
    set_checksum-image ios (length text) (text ++ rest) (36 + length text) (
      ap (λ (l : List ℕ). fold_carries fold_fuel (sum_words l 0)) (take-image 0 0 ios text rest)
      ∙ e)

encode_layout : (text : List ℕ) (opts : Options) → Encoded text opts
unfolding encode
encode_layout text opts =
    let ios = ios_of opts.ios_version in
    let n = length text in
    let (t, p) = prepared text opts.private_config ios in
    let (s, e, f) =
      fold_carries_lem (sum_words (image 0 0 ios n text) 0) (sum_words-lt _ 0 (omega arith)) in
    let c1 = (65535 - s) / 256 % 256 in
    let c2 = (65535 - s) % 256 in
    let (t3, p3) = fit_size_adds (image c1 c2 ios n (text ++ t)) opts.size in
    record {
      sum = s;
      tail = t ++ t3;
      summed = e;
      fits = f.fits;
      layout =
          ap (λ (l : List ℕ). fit_size (set_checksum l (36 + n)) opts.size) p
          ∙ ap (λ (l : List ℕ). fit_size l opts.size) (summed_image text t ios s e)
          ∙ p3
          ∙ image-append c1 c2 ios n (text ++ t) t3
          ∙ ap (image c1 c2 ios n) (append_assoc text t t3);
    }

decode-image :
    (c1 c2 ios : ℕ) (text rest : List ℕ)
    → length text < 4294967296
    → decode (image c1 c2 ios (length text) (text ++ rest)) ≡ Decoded.ok text
unfolding decode image
decode-image c1 c2 ios text rest h =
    ground
      (arith, length-append text rest, take-length-append text rest, bytes32_value (length text) h)

-- `Decode` of what `Encode` wrote is the startup-config, for every text shorter than 2^32 bytes, and
-- whatever the version hint, the private config and the image size asked for.
pub decode-encode :
    (text : List ℕ) (opts : Options)
    → length text < 4294967296
    → decode (encode text opts) ≡ Decoded.ok text
decode-encode text opts h =
    let l = encode_layout text opts in rw (l.layout) (decode-image _ _ _ text l.tail h)

word_sum-image :
    (c1 c2 ios n : ℕ) (rest : List ℕ)
    → word_sum (image c1 c2 ios n rest) ≡ word_sum (image 0 0 ios n rest) + be16 c1 c2
unfolding word_sum image
word_sum-image c1 c2 ios n rest = omega arith

word_sum-image-le :
    (ios n : ℕ) (rest : List ℕ) → word_sum (image 0 0 ios n rest) ≤ 18 * 65535 + word_sum rest
unfolding word_sum image
word_sum-image-le ios n rest = omega arith

-- In an image whose header and text take at most 128 KiB, all text bytes, the 16-bit words of the
-- header and text, the checksum among them, sum with end-around carries to 0xFFFF.
pub encode_verifies :
    (text : List ℕ) (opts : Options)
    → All IsByte text
    → 36 + length text ≤ 131068
    → fold_carries fold_fuel (sum_words (take (36 + length text) (encode text opts)) 0) ≡ some 65535
encode_verifies text opts b h =
    let l = encode_layout text opts in
    let ios = ios_of opts.ios_version in
    let c1 = (65535 - l.sum) / 256 % 256 in
    let c2 = (65535 - l.sum) % 256 in
    let zeroed = image 0 0 ios (length text) text in
    let small : word_sum zeroed + 65535 < 4294967296 =
      omega (arith, word_sum-image-le ios (length text) text, word_sum-le text b) in
    let before : sum_words zeroed 0 ≡ word_sum zeroed =
      omega (arith, sum_words-word_sum zeroed 0 (omega (arith, small))) in
    let field : be16 c1 c2 ≡ 65535 - l.sum = omega arith in
    let after : sum_words (image c1 c2 ios (length text) text) 0
        ≡ word_sum zeroed + (65535 - l.sum) =
      omega (
        arith,
        field,
        word_sum-image c1 c2 ios (length text) text,
        sum_words-word_sum (image c1 c2 ios (length text) text) 0
            (omega (arith, small, field, word_sum-image c1 c2 ios (length text) text)),
      ) in
    rw (l.layout, take-image c1 c2 ios text l.tail, after)
      (fold_complement (word_sum zeroed) l.sum small (rw before at l.summed))
