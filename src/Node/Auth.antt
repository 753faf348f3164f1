-- ===== src/Node/Auth.antt =====
-- eshield/src/auth.rs: the tokens of the API and the middleware that asks for them. `ct_eq` is the
-- comparison of the crate `subtle`, the random token of a reset an argument.
pub mod Access
use e_shield.Base.{
  ℕ, Bool, true, false, ◌||◌, ◌&&◌, not, Option, none, some, List, [], ◌∷◌, ◌==◌, if◌then◌else◌,
}
use e_shield.Base.Dicts.{Dict, text_key, find, same_list}
use e_shield.Base.Text.{Text, bytes, split_once}

pub data Role : Type 0 where
  admin readonly : Role

pub record AuthState : Type 0 where
  pub token : Option Text
  pub readonly_token : Option Text

abbrev pub is_empty : Text → Bool
is_empty [] = true
is_empty (c ∷ s) = false

abbrev pub non_empty : Option Text → Option Text
non_empty none = none
non_empty (some s) = if is_empty s then none else some s

-- An empty token counts as none.
unfoldable pub with_readonly : Option Text → Option Text → AuthState
with_readonly token second = record { token = non_empty token; readonly_token = non_empty second }

abbrev pub equals : (Text → Text → Bool) → Option Text → Text → Bool
equals ct_eq none provided = false
equals ct_eq (some token) provided = ct_eq token provided

unfoldable pub role_of : (Text → Text → Bool) → AuthState → Text → Option Role
role_of ct_eq state provided =
    if is_empty provided
    then none
    else if equals ct_eq state.token provided
    then some Role.admin
    else if equals ct_eq state.readonly_token provided
    then some Role.readonly
    else none

unfoldable pub verify : (Text → Text → Bool) → AuthState → Text → Bool
verify ct_eq state provided = if is_empty provided then false else equals ct_eq state.token provided

unfoldable pub set_token : Text → AuthState → AuthState
set_token token state = if is_empty token then state else record state { token = some token }

-- With the new token, drawn at random.
unfoldable pub reset_token : Text → AuthState → AuthState × Text
unfolding set_token
reset_token random state = (set_token random state, random)

pub data Method : Type 0 where
  get head options any_other : Method

-- A header's value is none if it is not visible ASCII, where `to_str` fails.
pub record Request : Type 0 where
  pub is_loopback : Bool
  pub method : Method
  pub path : Text
  pub headers : Dict Text (Option Text)

abbrev is_there {ℓ} : {A : Type ℓ} → Option A → Bool
is_there none = false
is_there (some a) = true

abbrev pub contains_key : Request → Text → Bool
contains_key request name = is_there (find name request.headers)

abbrev joined : Option (Option Text) → Option Text
joined none = none
joined (some value) = value

unfoldable pub header : Request → Text → Option Text
header request name = joined (find name request.headers)

-- `strip_prefix`.
unfoldable pub strip_prefix : Text → Text → Option Text
strip_prefix [] s = some s
strip_prefix (p ∷ prefix) [] = none
strip_prefix (p ∷ prefix) (c ∷ s) =
    let rest = strip_prefix prefix s in if p == c then rest else none

-- `str::contains`.
unfoldable pub contains : Text → Text → Bool
unfolding strip_prefix
contains part [] = is_there (strip_prefix part [])
contains part (c ∷ s) = is_there (strip_prefix part (c ∷ s)) || contains part s

abbrev put_first : ℕ → List Text → List Text
put_first c [] = (c ∷ []) ∷ []
put_first c (s ∷ parts) = (c ∷ s) ∷ parts

-- `split`.
unfoldable split : ℕ → Text → List Text
split sep [] = [] ∷ []
split sep (c ∷ s) = let rest = split sep s in if c == sep then [] ∷ rest else put_first c rest

-- `trim` of visible ASCII: blanks and tabs.
abbrev is_blank : ℕ → Bool
is_blank c = c == b' ' || c == 9

unfoldable trim_start : Text → Text
trim_start [] = []
trim_start (c ∷ s) = let rest = trim_start s in if is_blank c then rest else c ∷ s

unfoldable trim_end : Text → Text
trim_end [] = []
trim_end (c ∷ s) = let rest = trim_end s in if is_blank c && is_empty rest then [] else c ∷ rest

-- `splitn(2, '=')`: a cookie without a value has no second part.
abbrev named : Text → Option (Text × Text) → Option Text
named name none = none
named name (some (key, value)) = if same_list key name then some value else none

abbrev or_option {ℓ} : {A : Type ℓ} → Option A → Option A → Option A
or_option none b = b
or_option (some a) b = some a

unfoldable cookie_value : List Text → Option Text
unfolding trim_start trim_end split_once
cookie_value [] = none
cookie_value (cookie ∷ cookies) =
    or_option (named (bytes "eshield-token") (split_once b'=' (trim_end (trim_start cookie))))
      (cookie_value cookies)

abbrev from_header : Option Text → Option Text
from_header none = none
from_header (some h) = strip_prefix (bytes "Bearer ") h

abbrev from_cookies : Option Text → Option Text
from_cookies none = none
from_cookies (some cookies) = cookie_value (split b';' cookies)

-- The credential of a request: the header's before the cookie's.
unfoldable pub provided_of : Request → Option Text
unfolding header strip_prefix split cookie_value
provided_of request =
    or_option (from_header (header request (bytes "authorization")))
      (from_cookies (header request (bytes "cookie")))

abbrev accepts_html : Option Text → Bool
accepts_html none = false
accepts_html (some s) = contains (bytes "text/html") s

-- What becomes of a request: it is run with a role, or answered here.
pub data Outcome : Type 0 where
  runs : Role → Outcome
  forbidden redirected unauthorized : Outcome

abbrev pub is_safe : Method → Bool
is_safe Method.get = true
is_safe Method.head = true
is_safe Method.options = true
is_safe Method.any_other = false

abbrev pub is_readonly : Role → Bool
is_readonly Role.admin = false
is_readonly Role.readonly = true

-- A local request without the headers of a proxy.
abbrev pub is_direct : Request → Bool
is_direct request =
    request.is_loopback
    && not (
        contains_key request (bytes "x-forwarded-for")
        || contains_key request (bytes "x-real-ip")
        || contains_key request (bytes "forwarded"))

abbrev pub is_html_root : Request → Bool
is_html_root request =
    same_list request.path (bytes "/") && accepts_html (header request (bytes "accept"))

abbrev pub answered : Request → Option Role → Outcome
answered request (some role) =
    if is_readonly role
      && not (is_safe request.method)
      && not (same_list request.path (bytes "/api/auth/logout"))
    then Outcome.forbidden
    else Outcome.runs role
answered request none = if is_html_root request then Outcome.redirected else Outcome.unauthorized

abbrev pub role_provided : (Text → Text → Bool) → AuthState → Option Text → Option Role
role_provided ct_eq state none = none
role_provided ct_eq state (some t) = role_of ct_eq state t

abbrev pub checked : (Text → Text → Bool) → AuthState → Request → Option Text → Outcome
checked ct_eq state request none = Outcome.runs Role.admin
checked ct_eq state request (some token) =
    answered request (role_provided ct_eq state (provided_of request))

unfoldable pub auth_middleware : (Text → Text → Bool) → AuthState → Request → Outcome
unfolding role_of provided_of header contains
auth_middleware ct_eq state request =
    if is_direct request then Outcome.runs Role.admin else checked ct_eq state request state.token
