-- ===== src/Tacacs/Requests.antt =====
-- tacacs_wire.go: the bodies of authorization and accounting.
pub mod RoundTrips
pub mod Accounting
use Prim.Native.Nat.{bit_and}
use iolbox.Common.{
  ℕ, zero, suc, ◌+◌, ◌-◌, ◌%◌, Bool, true, false, not, ◌&&◌, ◌||◌, ◌==◌, ltb, if◌then◌else◌, List,
  [], ◌∷◌, ◌++◌, length, get_elem?, take, drop, Option, none, some, ◌>>=◌, ◌>>◌,
}
use iolbox.Common.Bytes.{be16, bytes16}
use iolbox.Common.Texts.{Text}
use iolbox.Tacacs.Fields.{byte_lengths, cut_fields, field_length, decode_request_parts, all_parts}
use iolbox.Tacacs.Authen.{require, valid_authen_type}

pub valid_author_status : ℕ → Bool
valid_author_status v = v == 0x01 || v == 0x02 || v == 0x10 || v == 0x11 || v == 0x21

pub valid_acct_status : ℕ → Bool
valid_acct_status v = v == 0x01 || v == 0x02 || v == 0x21

-- Start, stop, watchdog, or start and watchdog.
pub valid_acct_flags : ℕ → Bool
valid_acct_flags flags =
    if not (bit_and flags 241 == 0)
    then false
    else flags == 0x02 || flags == 0x04 || flags == 0x08 || flags == 0x0a

pub record TacacsAuthorRequest : Type 0 where
  pub authen_method : ℕ
  pub priv_lvl : ℕ
  pub authen_type : ℕ
  pub authen_service : ℕ
  pub user : Text
  pub port : Text
  pub remote_addr : Text
  pub args : List Text

-- `lengths[0]` to `lengths[2]`, the count, and `lengths[3:]`
pub length_fields : ℕ → List ℕ → Option (List ℕ)
length_fields count (u ∷ p ∷ r ∷ rest) = some (u ∷ p ∷ r ∷ count % 256 ∷ rest)
length_fields count _ = none

unfoldable pub encode_author_request : TacacsAuthorRequest → Option (List ℕ)
unfolding length_fields
encode_author_request q = do
  require (valid_authen_type q.authen_type)
  require (not (ltb 255 (length q.args)))
  let parts : List Text = q.user ∷ q.port ∷ q.remote_addr ∷ q.args
  lengths ← byte_lengths parts
  fields ← length_fields (length q.args) lengths
  some (
      (q.authen_method ∷ q.priv_lvl ∷ q.authen_type ∷ q.authen_service ∷ [])
      ++ (fields ++ all_parts parts))

-- `values[0]` to `values[2]`, and `values[3:]`
three_values : List Text → Option (Text × Text × Text × List Text)
three_values (u ∷ p ∷ r ∷ args) = some (u, p, r, args)
three_values _ = none

pub decode_author_request : List ℕ → Option TacacsAuthorRequest
unfolding three_values
decode_author_request body = do
  require (not (ltb (length body) 8))
  authen_method ← get_elem? body 0
  priv_lvl ← get_elem? body 1
  authen_type ← get_elem? body 2
  authen_service ← get_elem? body 3
  require (valid_authen_type authen_type)
  arg_count ← get_elem? body 7
  values ← decode_request_parts body 4 7 8 (8 + arg_count)
  (user, port, remote_addr, args) ← three_values values
  some (record {
    authen_method = authen_method;
    priv_lvl = priv_lvl;
    authen_type = authen_type;
    authen_service = authen_service;
    user = user;
    port = port;
    remote_addr = remote_addr;
    args = args;
  })

pub record TacacsAuthorReply : Type 0 where
  pub status : ℕ
  pub server_msg : Text
  pub data_part : Text
  pub args : List Text

pub encode_author_reply : TacacsAuthorReply → Option (List ℕ)
unfolding valid_author_status
encode_author_reply r = do
  require (valid_author_status r.status)
  require (
      not (
        ltb 255 (length r.args)
        || ltb 65535 (length r.server_msg)
        || ltb 65535 (length r.data_part)))
  arg_lengths ← byte_lengths r.args
  some (
      (r.status
        ∷ length r.args % 256
        ∷ (bytes16 (length r.server_msg) ++ bytes16 (length r.data_part)))
      ++ (arg_lengths ++ (r.server_msg ++ (r.data_part ++ all_parts r.args))))

-- A field of `len` bytes at `offset`, and the offset behind it.
cut_field : List ℕ → ℕ → ℕ → Option (Text × ℕ)
cut_field body len offset =
    if ltb (length body - offset) len
    then none
    else some (take len (drop offset body), offset + len)

pub decode_author_reply : List ℕ → Option TacacsAuthorReply
unfolding valid_author_status cut_field
decode_author_reply body = do
  require (not (ltb (length body) 6))
  status ← get_elem? body 0
  require (valid_author_status status)
  arg_count ← get_elem? body 1
  server_msg_len ← field_length body 2 2
  data_len ← field_length body 2 4
  require (not (ltb (length body) (6 + arg_count)))
  (server_msg, after_msg) ← cut_field body server_msg_len (6 + arg_count)
  (data_part, after_data) ← cut_field body data_len after_msg
  (args, behind) ← cut_fields body 1 6 arg_count after_data
  require (behind == length body)
  some (record { status = status; server_msg = server_msg; data_part = data_part; args = args })

pub record TacacsAcctRequest : Type 0 where
  pub flags : ℕ
  pub authen_method : ℕ
  pub priv_lvl : ℕ
  pub authen_type : ℕ
  pub authen_service : ℕ
  pub user : Text
  pub port : Text
  pub remote_addr : Text
  pub args : List Text

pub encode_acct_request : TacacsAcctRequest → Option (List ℕ)
unfolding length_fields
encode_acct_request q = do
  require (not (ltb 255 (length q.args)))
  let parts : List Text = q.user ∷ q.port ∷ q.remote_addr ∷ q.args
  lengths ← byte_lengths parts
  fields ← length_fields (length q.args) lengths
  some (
      (q.flags ∷ q.authen_method ∷ q.priv_lvl ∷ q.authen_type ∷ q.authen_service ∷ [])
      ++ (fields ++ all_parts parts))

pub decode_acct_request : List ℕ → Option TacacsAcctRequest
unfolding three_values
decode_acct_request body = do
  require (not (ltb (length body) 9))
  flags ← get_elem? body 0
  authen_method ← get_elem? body 1
  priv_lvl ← get_elem? body 2
  authen_type ← get_elem? body 3
  authen_service ← get_elem? body 4
  require (valid_authen_type authen_type)
  arg_count ← get_elem? body 8
  values ← decode_request_parts body 5 8 9 (9 + arg_count)
  (user, port, remote_addr, args) ← three_values values
  some (record {
    flags = flags;
    authen_method = authen_method;
    priv_lvl = priv_lvl;
    authen_type = authen_type;
    authen_service = authen_service;
    user = user;
    port = port;
    remote_addr = remote_addr;
    args = args;
  })

pub record TacacsAcctReply : Type 0 where
  pub status : ℕ
  pub server_msg : Text
  pub data_part : Text

pub encode_acct_reply : TacacsAcctReply → Option (List ℕ)
unfolding valid_acct_status
encode_acct_reply r = do
  require (valid_acct_status r.status)
  require (not (ltb 65535 (length r.server_msg) || ltb 65535 (length r.data_part)))
  some (
      bytes16 (length r.server_msg)
      ++ (bytes16 (length r.data_part) ++ (r.status ∷ (r.server_msg ++ r.data_part))))

pub decode_acct_reply : List ℕ → Option TacacsAcctReply
unfolding valid_acct_status cut_field
decode_acct_reply body = do
  require (not (ltb (length body) 5))
  status ← get_elem? body 4
  require (valid_acct_status status)
  server_msg_len ← field_length body 2 0
  data_len ← field_length body 2 2
  (server_msg, after_msg) ← cut_field body server_msg_len 5
  (data_part, behind) ← cut_field body data_len after_msg
  require (behind == length body)
  some (record { status = status; server_msg = server_msg; data_part = data_part })
