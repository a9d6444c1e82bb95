-- ===== src/Nvram.antt =====
-- supervisor/internal/nvram/nvram.go: an IOL NVRAM image that carries a startup-config.
-- A Go string is the list of its bytes, and `Encode`'s error, which is always nil, is left out.
mod Layout
mod RoundTrip
pub mod Checksum
mod Runs
use iolbox.Common.{
  ℕ, zero, suc, ◌+◌, ◌-◌, ◌*◌, ◌/◌, ◌%◌, ◌^◌, ltb, leb, ◌==◌, ◌||◌, not, if◌then◌else◌, List, [],
  ◌∷◌, ◌++◌, Option, some, none, length, take, drop,
}
use iolbox.Common.Bytes.{be16, be32, put_be16, put_be32, copy_at, zeros}

abbrev pub startup_header_len : ℕ
startup_header_len = 36

abbrev pub private_header_len : ℕ
private_header_len = 16

abbrev pub magic_startup : ℕ
magic_startup = 0xabcd

abbrev pub magic_private : ℕ
magic_private = 0xfedc

abbrev pub format_raw : ℕ
format_raw = 1

abbrev pub format_lzc : ℕ
format_lzc = 2

abbrev pub base_address : ℕ
base_address = 0x10000000

abbrev pub default_ios_version : ℕ
default_ios_version = 0x0f04

pub record Options : Type 0 where
  pub ios_version : ℕ  -- uint16
  pub private_config : List ℕ
  pub size : ℕ

pub data DecodeError : Type 0 where
  too_short bad_magic lzc unknown_format overflows : DecodeError

pub data Decoded : Type 0 where
  ok : List ℕ → Decoded
  err : DecodeError → Decoded

pub pad4 : List ℕ → List ℕ
pad4 b = if not (length b % 4 == 0) then b ++ zeros (4 - length b % 4) else b

-- The loops of `setChecksum` over the section: `sum` is a uint32.
pub sum_words : List ℕ → ℕ → ℕ
sum_words [] sum = sum
sum_words (a ∷ []) sum = (sum + a * 256) % 2 ^ 32
sum_words (a ∷ b ∷ rest) sum = sum_words rest ((sum + be16 a b) % 2 ^ 32)

-- `for sum>>16 != 0`, with fuel.
pub fold_carries : ℕ → ℕ → Option ℕ
fold_carries zero sum = none
fold_carries (suc fuel) sum =
    let more = fold_carries fuel (sum % 65536 + sum / 65536) in
    if sum / 65536 == 0 then some sum else more

-- The loop ends within three rounds; without an end the image would stay as it is.
abbrev pub fold_fuel : ℕ
fold_fuel = 3

-- `uint16(sum^0xFFFF)` of a sum below 2^16, written back at start+4; `start` is 0.
write_checksum : List ℕ → Option ℕ → List ℕ
write_checksum bytes none = bytes
write_checksum bytes (some sum) = put_be16 bytes 4 (65535 - sum)

pub set_checksum : List ℕ → ℕ → List ℕ
unfolding write_checksum
set_checksum bytes end =
    let cleared = put_be16 bytes 4 0 in
    write_checksum cleared (fold_carries fold_fuel (sum_words (take end cleared) 0))

-- The startup header and text, with no checksum yet.
pub startup_section : List ℕ → ℕ → List ℕ
startup_section startup ios =
    let n = length startup in
    let b0 = zeros (startup_header_len + n) in
    let b1 = put_be16 b0 0 magic_startup in
    let b2 = put_be16 b1 2 format_raw in
    let b3 = put_be16 b2 6 ios in
    let b4 = put_be32 b3 8 (base_address + startup_header_len) in
    let b5 = put_be32 b4 12 ((base_address + startup_header_len + n % 2 ^ 32) % 2 ^ 32) in
    let b6 = put_be32 b5 16 (n % 2 ^ 32) in copy_at b6 startup_header_len startup

pub private_section : List ℕ → List ℕ
private_section priv =
    let n = length priv in
    let b0 = zeros (private_header_len + n) in
    let b1 = put_be16 b0 0 magic_private in
    let b2 = put_be16 b1 2 format_raw in
    let b3 = put_be32 b2 4 (base_address + startup_header_len) in
    let b4 = put_be32 b3 8 ((base_address + startup_header_len + n % 2 ^ 32) % 2 ^ 32) in
    let b5 = put_be32 b4 12 (n % 2 ^ 32) in copy_at b5 private_header_len priv

pub add_private : List ℕ → List ℕ → List ℕ
add_private buf [] = buf
add_private buf (c ∷ cs) = buf ++ private_section (c ∷ cs)

-- A copy into a larger buffer of zeros.
pub fit_size : List ℕ → ℕ → List ℕ
fit_size buf size = if ltb (length buf) size then copy_at (zeros size) 0 buf else buf

abbrev ios_of : ℕ → ℕ
ios_of v = if v == 0 then default_ios_version else v

pub encode : List ℕ → Options → List ℕ
encode startup opts =
    let buf =
      add_private (pad4 (startup_section startup (ios_of opts.ios_version))) opts.private_config in
    fit_size (set_checksum buf (startup_header_len + length startup)) opts.size

-- The fields that `Decode` reads, of an image of at least 20 bytes.
abbrev u16_at : List ℕ → ℕ
u16_at (a ∷ b ∷ rest) = be16 a b
u16_at _ = 0

abbrev u32_at : List ℕ → ℕ
u32_at (a ∷ b ∷ c ∷ d ∷ rest) = be32 a b c d
u32_at _ = 0

-- `int(length)` of a uint32 is not negative, and `start + int(length)` cannot wrap in 64 bits.
decode_text : List ℕ → ℕ → Decoded
decode_text nv len =
    let end = startup_header_len + len in
    if ltb (length nv) end || ltb end startup_header_len
    then Decoded.err DecodeError.overflows
    else Decoded.ok (take len (drop startup_header_len nv))

pub decode : List ℕ → Decoded
unfolding decode_text
decode nv =
    if ltb (length nv) startup_header_len
    then Decoded.err DecodeError.too_short
    else if not (u16_at nv == magic_startup)
    then Decoded.err DecodeError.bad_magic
    else if not (u16_at (drop 2 nv) == format_raw)
    then (if u16_at (drop 2 nv) == format_lzc
        then Decoded.err DecodeError.lzc
        else Decoded.err DecodeError.unknown_format)
    else decode_text nv (u32_at (drop 16 nv))
