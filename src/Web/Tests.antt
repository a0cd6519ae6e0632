-- ===== src/Web/Tests.antt =====
-- A loopback address, a text without its tags, and a host that is resolved to nothing private.
use agent_operator.Errors.{Error, value_error, os_error, other_exception}
use agent_operator.Prelude.{
  ℕ, ◌≡◌, refl, ◌⊎◌, Bool, true, false, Result, Option, some, List, [], ◌∷◌, ok, err, Action, pure,
  raise, ◌>>=◌, if◌then◌else◌,
}
use agent_operator.Text.{Text, codes, text_eq}
use agent_operator.Web.{
  IpAddress, quad, ipv6, Url, Response, is_private, is_in, guard_url, web_fetch, without_tags,
  tag_rest,
}
use agent_operator.Web.Laws.{IsPermitted, IsRefused, fetched, web_fetch_exact}

loopback_private : is_private (quad 127 0 0 1) ≡ true
unfolding is_private is_in
loopback_private = refl

-- 0.0.0.0, and 127.0.0.1 as an IPv6 address, are not in the list.
any_address_public : is_private (quad 0 0 0 0) ≡ false
unfolding is_private is_in
any_address_public = refl

mapped_loopback_public : is_private (ipv6 (0xffff7f000001)) ≡ false
unfolding is_private is_in
mapped_loopback_public = refl

tags_dropped : without_tags 0 (codes "a<b>c<>d<") ≡ codes "a c<>d<"
unfolding without_tags tag_rest
tags_dropped = refl

-- A bracket that is not closed cannot be parsed.
abbrev parse_local : Text → Result Url
parse_local url =
    if text_eq url (codes "http://[::1")
    then err value_error
    else ok (record { scheme = codes "http"; hostname = some (codes "local") })

abbrev is_os_error : Error → Bool
is_os_error os_error = true
is_os_error _ = false

abbrev is_other : Error → Bool
is_other other_exception = true
is_other _ = false

abbrev local_address : Text → Action ℕ (List (Option IpAddress))
local_address host = pure (some (quad 127 0 0 1) ∷ [])

abbrev unreachable : Text → Action ℕ Response
unreachable url = raise other_exception

-- The exception of `urlparse` gets out of the tool.
parse_error_escapes :
    web_fetch parse_local is_os_error local_address is_other unreachable (codes "http://[::1") 0
    ≡ (err value_error, 0)
unfolding web_fetch guard_url ◌>>=◌ text_eq
parse_error_escapes = refl

abbrev local_url : Text
local_url = codes "http://local"

web_fetch_exact_example :
    ((p : IsPermitted parse_local is_os_error local_address local_url 0) × (web_fetch parse_local
          is_os_error local_address is_other unreachable local_url 0
        ≡ fetched parse_local is_os_error local_address is_other unreachable
            (unreachable local_url (local_address (p.initial ∷ p.others) 0).1)))
    ⊎ (¬ (IsPermitted parse_local is_os_error local_address local_url 0)
        × ((e : Error) × IsRefused parse_local is_os_error local_address local_url 0 e
            × (web_fetch parse_local is_os_error local_address is_other unreachable local_url 0
                ≡ (err e, (guard_url parse_local is_os_error local_address local_url 0).1))))
web_fetch_exact_example =
    web_fetch_exact parse_local is_os_error local_address is_other unreachable local_url 0
