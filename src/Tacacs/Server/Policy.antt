-- ===== src/Tacacs/Server/Policy.antt =====
-- tacacs.go: the key, the users and the services. `fold` is ToLower of TrimSpace, `trim` is TrimSpace.
use Prim.Native.Nat.{bit_and}
use iolbox.Common.{
  ℕ, suc, Bool, ◌&&◌, ◌||◌, ◌==◌, if◌then◌else◌, List, [], ◌∷◌, ◌++◌, Option, none, some,
}
use iolbox.Common.Ints.{ℤ, pos, negsuc}
use iolbox.Common.Texts.{Text, codes, eq_text}
use iolbox.Netmap.Names.{decimal}
use iolbox.Tacacs.{is_empty}
use iolbox.Radius.{User, Config}

-- The key; it is configured if it is not empty.
unfoldable pub tacacs_key : Config → Text
tacacs_key cfg = if is_empty cfg.tacacs_key then cfg.shared_secret else cfg.tacacs_key

unfoldable pub find_user : List User → Text → Text → Option User
find_user [] username password = none
find_user (u ∷ users) username password =
    if eq_text u.username username && eq_text u.password password
    then some u
    else find_user users username password

pub find_user_by_name : List User → Text → Option User
find_user_by_name [] username = none
find_user_by_name (u ∷ users) username =
    if eq_text u.username username then some u else find_user_by_name users username

abbrev before_sign : ℕ → Option (Text × Text) → Option (Text × Text)
before_sign c none = none
before_sign c (some (key, value)) = some (c ∷ key, value)

-- strings.Cut at the first `=`
pub cut : Text → Option (Text × Text)
cut [] = none
cut (c ∷ s) = let rest = cut s in if c == 61 then some ([], s) else before_sign c rest

-- `fmt.Sprintf("%d", n)`
pub signed_decimal : ℤ → Text
signed_decimal (pos n) = decimal n
signed_decimal (negsuc n) = 45 ∷ decimal (suc n)

module _ (fold trim : Text → Text) (equal_fold : Text → Text → Bool) where
  pub tacacs_service : User → Text
  tacacs_service user =
      if is_empty (trim user.tacacs_service) then codes "shell" else trim user.tacacs_service

  abbrev service_value : Option (Text × Text) → Option Text
  service_value none = none
  service_value (some (key, value)) =
      if equal_fold key (codes "service") then some (trim value) else none

  abbrev or_else : Option Text → Option Text → Option Text
  or_else none rest = rest
  or_else (some value) rest = some value

  -- The service that the arguments name.
  pub author_service : List Text → Option Text
  unfolding cut
  author_service [] = none
  author_service (arg ∷ args) = or_else (service_value (cut arg)) (author_service args)

  pub known_tacacs_service : Text → Bool
  known_tacacs_service service =
      let s = fold service in
      eq_text s (codes "shell")
      || eq_text s (codes "ppp")
      || eq_text s (codes "arap")
      || eq_text s (codes "slip")
      || eq_text s (codes "rlogin")
      || eq_text s (codes "tty")
      || eq_text s (codes "connection")
      || eq_text s (codes "none")

pub acct_flag_names : ℕ → List Text
acct_flag_names flags =
    (if bit_and flags 0x02 == 0 then [] else codes "start" ∷ [])
    ++ ((if bit_and flags 0x04 == 0 then [] else codes "stop" ∷ [])
        ++ (if bit_and flags 0x08 == 0 then [] else codes "watchdog" ∷ []))
