-- ===== src/Telnet.antt =====
-- supervisor/internal/telnet/iac.go: the Negotiator between a raw telnet stream and a clean one.
-- A byte is a number below 256, a `map[byte]bool` is a function, and both `bytes.Buffer`s are lists.
pub mod Streams
pub mod Replies
pub mod Options
pub mod Exchange
mod Runs
use iolbox.Common.{
  ℕ, ◌+◌, ◌/◌, ◌%◌, Bool, true, false, not, ◌&&◌, ◌||◌, ◌==◌, if◌then◌else◌, List, [], ◌∷◌, ◌++◌,
}

abbrev pub iac : ℕ
iac = 255

abbrev pub dont : ℕ
dont = 254

abbrev pub do_opt : ℕ
do_opt = 253

abbrev pub wont : ℕ
wont = 252

abbrev pub will : ℕ
will = 251

abbrev pub sb_begin : ℕ
sb_begin = 250

abbrev pub ga : ℕ
ga = 249

abbrev pub se : ℕ
se = 240

abbrev pub opt_echo : ℕ
opt_echo = 1

abbrev pub opt_sga : ℕ
opt_sga = 3

abbrev pub opt_naws : ℕ
opt_naws = 31

pub data NegState : Type 0 where
  st_data st_iac st_cmd st_sb st_sbiac : NegState

pub record Negotiator : Type 0 where
  pub state : NegState
  pub pending : ℕ
  pub sb : List ℕ
  pub out : List ℕ
  pub reply : List ℕ
  pub remote_on : ℕ → Bool
  pub local_on : ℕ → Bool
  pub local_ref : ℕ → Bool
  pub remote_ref : ℕ → Bool

unfoldable pub new_negotiator : Negotiator
new_negotiator = record {
  state = NegState.st_data;
  pending = 0;
  sb = [];
  out = [];
  reply = [];
  remote_on = λ _. false;
  local_on = λ _. false;
  local_ref = λ _. false;
  remote_ref = λ _. false;
}

-- `m[k] = v`
abbrev pub update : (ℕ → Bool) → ℕ → Bool → ℕ → Bool
update m k v j = if j == k then v else m j

send_reply : Negotiator → ℕ → ℕ → Negotiator
send_reply n cmd opt = record n { reply = n.reply ++ (iac ∷ cmd ∷ opt ∷ []) }

-- The refusals of `do` and `will`: announced once.
refuse_local : Negotiator → ℕ → Negotiator
unfolding send_reply
refuse_local n opt =
    if n.local_ref opt
    then n
    else send_reply (record n { local_ref = update n.local_ref opt true }) wont opt

refuse_remote : Negotiator → ℕ → Negotiator
unfolding send_reply
refuse_remote n opt =
    if n.remote_ref opt
    then n
    else send_reply (record n { remote_ref = update n.remote_ref opt true }) dont opt

-- case DO
handle_do : Negotiator → ℕ → Negotiator
unfolding send_reply refuse_local
handle_do n opt =
    if opt == opt_sga
    then (if n.local_on opt
        then n
        else send_reply (record n { local_on = update n.local_on opt true }) will opt)
    else refuse_local
        (if n.local_on opt then record n { local_on = update n.local_on opt false } else n) opt

-- case DONT
handle_dont : Negotiator → ℕ → Negotiator
unfolding send_reply refuse_local
handle_dont n opt =
    if n.local_on opt
    then send_reply (record n { local_on = update n.local_on opt false }) wont opt
    else refuse_local n opt

-- case WILL
handle_will : Negotiator → ℕ → Negotiator
unfolding send_reply refuse_remote
handle_will n opt =
    if opt == opt_sga || opt == opt_echo || opt == opt_naws
    then (if n.remote_on opt
        then n
        else send_reply (record n { remote_on = update n.remote_on opt true }) do_opt opt)
    else refuse_remote
        (if n.remote_on opt then record n { remote_on = update n.remote_on opt false } else n) opt

-- case WONT
handle_wont : Negotiator → ℕ → Negotiator
unfolding send_reply refuse_remote
handle_wont n opt =
    if n.remote_on opt
    then send_reply (record n { remote_on = update n.remote_on opt false }) dont opt
    else refuse_remote n opt

pub handle_option : Negotiator → ℕ → ℕ → Negotiator
handle_option n cmd opt =
    if cmd == do_opt
    then handle_do n opt
    else if cmd == dont
    then handle_dont n opt
    else if cmd == will
    then handle_will n opt
    else if cmd == wont
    then handle_wont n opt
    else n

-- No inbound subnegotiation is acted on.
handle_subnegotiation : Negotiator → List ℕ → Negotiator
handle_subnegotiation n payload = n

write_byte : Negotiator → ℕ → Negotiator
write_byte n b = record n { out = n.out ++ (b ∷ []) }

abbrev is_option_cmd : ℕ → Bool
is_option_cmd b = b == do_opt || b == dont || b == will || b == wont

-- case stIAC; `ga` and the commands without an option byte both return to data.
step_iac : Negotiator → ℕ → Negotiator
unfolding write_byte
step_iac n b =
    if b == iac
    then record (write_byte n iac) { state = NegState.st_data }
    else if is_option_cmd b
    then record n { pending = b; state = NegState.st_cmd }
    else if b == sb_begin
    then record n { sb = []; state = NegState.st_sb }
    else record n { state = NegState.st_data }

step_in : NegState → Negotiator → ℕ → Negotiator
unfolding write_byte step_iac handle_subnegotiation
step_in NegState.st_data n b =
    if b == iac then record n { state = NegState.st_iac } else write_byte n b
step_in NegState.st_iac n b = step_iac n b
step_in NegState.st_cmd n b = record (handle_option n n.pending b) { state = NegState.st_data }
step_in NegState.st_sb n b =
    if b == iac then record n { state = NegState.st_sbiac } else record n { sb = n.sb ++ (b ∷ []) }
step_in NegState.st_sbiac n b =
    if b == se
    then record (handle_subnegotiation n n.sb) { state = NegState.st_data }
    else if b == iac
    then record n { sb = n.sb ++ (iac ∷ []); state = NegState.st_sb }
    else record n { sb = n.sb ++ (b ∷ []); state = NegState.st_sb }

pub step : Negotiator → ℕ → Negotiator
unfolding step_in
step n b = step_in n.state n b

-- The loop of `Feed`.
pub steps : Negotiator → List ℕ → Negotiator
steps n [] = n
steps n (b ∷ p) = steps (step n b) p

pub feed : Negotiator → List ℕ → Negotiator × List ℕ
feed n p = let n' = steps (record n { out = [] }) p in (n', n'.out)

-- `Reply`: an empty list stands for nil.
pub take_reply : Negotiator → Negotiator × List ℕ
take_reply n = (record n { reply = [] }, n.reply)

pub write_escaped_byte : ℕ → List ℕ
write_escaped_byte b = if b == iac then b ∷ iac ∷ [] else b ∷ []

write_escaped16 : ℕ → List ℕ
unfolding write_escaped_byte
write_escaped16 v = write_escaped_byte (v / 256 % 256) ++ write_escaped_byte (v % 256)

pub naws : ℕ → ℕ → List ℕ
unfolding write_escaped16
naws cols rows =
    (iac ∷ sb_begin ∷ opt_naws ∷ [])
    ++ (write_escaped16 cols ++ (write_escaped16 rows ++ (iac ∷ se ∷ [])))

pub will_naws : List ℕ
will_naws = iac ∷ will ∷ opt_naws ∷ []
