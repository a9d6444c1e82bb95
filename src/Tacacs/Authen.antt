-- ===== src/Tacacs/Authen.antt =====
-- tacacs_wire.go: the bodies of an authentication exchange.
pub mod RoundTrips
pub mod Replies
use Prim.Native.Nat.{bit_and}
use iolbox.Common.{
  ℕ, ◌+◌, ◌%◌, Bool, true, false, not, ◌&&◌, ◌||◌, ◌==◌, ltb, if◌then◌else◌, List, [], ◌∷◌, ◌++◌,
  length, get_elem?, Option, none, some, ◌>>=◌, ◌>>◌,
}
use iolbox.Common.Bytes.{bytes16}
use iolbox.Common.Texts.{Text}
use iolbox.Tacacs.Fields.{byte_lengths, decode_fixed_length_strings, all_parts}

-- `none` when the test fails.
abbrev pub require : Bool → Option (Unit {0})
require true = some tt
require false = none

abbrev pub is_authen_action : ℕ → Bool
is_authen_action action = action == 0x01 || action == 0x02 || action == 0x04

unfoldable pub valid_authen_type : ℕ → Bool
valid_authen_type v = v == 0x01 || v == 0x02 || v == 0x03 || v == 0x05 || v == 0x06

pub valid_authen_status : ℕ → Bool
valid_authen_status v =
    v == 0x01
    || v == 0x02
    || v == 0x03
    || v == 0x04
    || v == 0x05
    || v == 0x06
    || v == 0x07
    || v == 0x21

abbrev pub tacacs_authen_get_pass : ℕ
tacacs_authen_get_pass = 0x05

abbrev pub tacacs_authen_no_echo : ℕ
tacacs_authen_no_echo = 0x01

abbrev pub tacacs_acct_abort : ℕ
tacacs_acct_abort = 0x01

pub record TacacsAuthenStart : Type 0 where
  pub action : ℕ
  pub priv_lvl : ℕ
  pub authen_type : ℕ
  pub authen_service : ℕ
  pub user : Text
  pub port : Text
  pub remote_addr : Text
  pub data_part : Text

unfoldable pub encode_authen_start : TacacsAuthenStart → Option (List ℕ)
unfolding valid_authen_type
encode_authen_start s = do
  let strings : List Text = s.user ∷ s.port ∷ s.remote_addr ∷ s.data_part ∷ []
  lengths ← byte_lengths strings
  require (is_authen_action s.action)
  require (valid_authen_type s.authen_type)
  some (
      (s.action ∷ s.priv_lvl ∷ s.authen_type ∷ s.authen_service ∷ [])
      ++ (lengths ++ all_parts strings))

-- `values[0]` to `values[3]`
start_of : ℕ → ℕ → ℕ → ℕ → List Text → Option TacacsAuthenStart
start_of action priv_lvl authen_type authen_service (u ∷ p ∷ r ∷ d ∷ []) = some (record {
  action = action;
  priv_lvl = priv_lvl;
  authen_type = authen_type;
  authen_service = authen_service;
  user = u;
  port = p;
  remote_addr = r;
  data_part = d;
})
start_of _ _ _ _ _ = none

pub decode_authen_start : List ℕ → Option TacacsAuthenStart
unfolding valid_authen_type start_of
decode_authen_start body = do
  require (not (ltb (length body) 8))
  action ← get_elem? body 0
  priv_lvl ← get_elem? body 1
  authen_type ← get_elem? body 2
  authen_service ← get_elem? body 3
  require (is_authen_action action)
  require (valid_authen_type authen_type)
  values ← decode_fixed_length_strings body 4 1 4 8
  start_of action priv_lvl authen_type authen_service values

pub record TacacsAuthenReply : Type 0 where
  pub status : ℕ
  pub flags : ℕ
  pub server_msg : Text
  pub data_part : Text

-- `reply.Status == tacacsAuthenGetPass && reply.Flags&tacacsAuthenNoEcho == 0`
abbrev pub echoes_password : ℕ → ℕ → Bool
echoes_password status flags =
    status == tacacs_authen_get_pass && bit_and flags tacacs_authen_no_echo == 0

unfoldable pub encode_authen_reply : TacacsAuthenReply → Option (List ℕ)
unfolding valid_authen_status
encode_authen_reply r = do
  require (valid_authen_status r.status)
  require (bit_and r.flags 254 == 0)
  require (not (echoes_password r.status r.flags))
  require (not (ltb 65535 (length r.server_msg) || ltb 65535 (length r.data_part)))
  some (
      r.status
      ∷ r.flags
      ∷ (bytes16 (length r.server_msg)
          ++ (bytes16 (length r.data_part) ++ (r.server_msg ++ r.data_part))))

-- `values[0]` and `values[1]`
two_values : List Text → Option (Text × Text)
two_values (a ∷ b ∷ []) = some (a, b)
two_values _ = none

pub decode_authen_reply : List ℕ → Option TacacsAuthenReply
unfolding valid_authen_status two_values
decode_authen_reply body = do
  require (not (ltb (length body) 6))
  status ← get_elem? body 0
  flags ← get_elem? body 1
  require (valid_authen_status status && bit_and flags 254 == 0)
  values ← decode_fixed_length_strings body 2 2 2 6
  (server_msg, data_part) ← two_values values
  require (not (echoes_password status flags))
  some (record { status = status; flags = flags; server_msg = server_msg; data_part = data_part })

pub record TacacsAuthenContinue : Type 0 where
  pub user_msg : Text
  pub data_part : Text
  pub flags : ℕ

unfoldable pub encode_authen_continue : TacacsAuthenContinue → Option (List ℕ)
encode_authen_continue c = do
  require (not (ltb 65535 (length c.user_msg) || ltb 65535 (length c.data_part)))
  require (bit_and c.flags 254 == 0)
  some (
      bytes16 (length c.user_msg)
      ++ (bytes16 (length c.data_part) ++ (c.flags ∷ (c.user_msg ++ c.data_part))))

pub decode_authen_continue : List ℕ → Option TacacsAuthenContinue
unfolding two_values
decode_authen_continue body = do
  require (not (ltb (length body) 5))
  flags ← get_elem? body 4
  require (bit_and flags 254 == 0)
  values ← decode_fixed_length_strings body 0 2 2 5
  (user_msg, data_part) ← two_values values
  some (record { user_msg = user_msg; data_part = data_part; flags = flags })
