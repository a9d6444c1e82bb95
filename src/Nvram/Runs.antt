-- ===== src/Nvram/Runs.antt =====
-- A small image, and the codec's theorems at concrete inputs.
use iolbox.Common.{ℕ, ◌+◌, ◌≡◌, refl, List, [], ◌∷◌, some, arith, length, take}
use iolbox.Nvram.{
  Options, Decoded, DecodeError, encode, decode, startup_section, private_section, pad4,
  add_private, set_checksum, fold_carries, fold_fuel, sum_words, fit_size,
}
use iolbox.Nvram.RoundTrip.{decode-encode, encode_verifies}

abbrev opts : Options
opts = record { ios_version = 0; private_config = b'k' ∷ []; size = 64 }

abbrev text : List ℕ
text = b'e' ∷ b'n' ∷ b'd' ∷ []

image_bytes :
    encode text opts
    ≡ 0xab ∷ 0xcd ∷ 0 ∷ 1 ∷ 0x5b ∷ 0x70 ∷ 0x0f ∷ 0x04 ∷ 0x10 ∷ 0 ∷ 0 ∷ 36 ∷ 0x10 ∷ 0 ∷ 0 ∷ 39 ∷ 0
      ∷ 0 ∷ 0 ∷ 3 ∷ 0 ∷ 0 ∷ 0 ∷ 0 ∷ 0 ∷ 0 ∷ 0 ∷ 0 ∷ 0 ∷ 0 ∷ 0 ∷ 0 ∷ 0 ∷ 0 ∷ 0 ∷ 0 ∷ b'e' ∷ b'n'
      ∷ b'd' ∷ 0 ∷ 0xfe ∷ 0xdc ∷ 0 ∷ 1 ∷ 0x10 ∷ 0 ∷ 0 ∷ 36 ∷ 0x10 ∷ 0 ∷ 0 ∷ 37 ∷ 0 ∷ 0 ∷ 0 ∷ 1
      ∷ b'k' ∷ 0 ∷ 0 ∷ 0 ∷ 0 ∷ 0 ∷ 0 ∷ 0 ∷ []
unfolding encode startup_section private_section pad4 add_private set_checksum fold_carries
    sum_words fit_size
image_bytes = refl

cut_image : decode (take 38 (encode text opts)) ≡ Decoded.err DecodeError.overflows
unfolding decode encode startup_section private_section pad4 add_private set_checksum fold_carries
    sum_words fit_size
cut_image = refl

decode-encode_example : decode (encode text opts) ≡ Decoded.ok text
decode-encode_example = decode-encode text opts (omega arith)

encode_verifies_example :
    fold_carries fold_fuel (sum_words (take (36 + length text) (encode text opts)) 0) ≡ some 65535
encode_verifies_example = encode_verifies text opts (omega arith) (omega arith)
