-- ===== src/Web/Laws.antt =====
-- Which URLs are fetched, and how the others are refused.
use agent_operator.Errors.{Error, tool_error}
use agent_operator.Prelude.{
  ℕ, ◌≡◌, refl, ◌⊎◌, inl, inr, arith, Bool, Bool-cases, true, false, Option, none, some, List, [],
  ◌∷◌, All, any, Result, ok, err, Action, catch, ◌>>=◌, if◌then◌else◌,
}
use agent_operator.Text.{Text, codes, text_eq, is_empty}
use agent_operator.Text.Laws.{text_eq_iff}
use agent_operator.Web.Private.{IsPublic, All-IsPublic, none_blocked}
use agent_operator.Web.{
  IpAddress, Url, Response, WebFetchOutput, output_of, is_allowed_scheme, is_blocked_address,
  guard_url, web_fetch,
}

is_allowed_scheme_sound :
    (scheme : Text)
    → is_allowed_scheme scheme ≡ true
    → (scheme ≡ codes "http") ⊎ (scheme ≡ codes "https")
is_allowed_scheme_sound scheme h = elim (Bool-cases (text_eq scheme (codes "http"))) [
  | inl plain ↦ inl ((text_eq_iff scheme (codes "http")).0 plain)
  | inr other ↦ inr ((text_eq_iff scheme (codes "https")).0 (ground (arith, h, other)))
]

is_allowed_scheme_complete :
    (scheme : Text)
    → (scheme ≡ codes "http") ⊎ (scheme ≡ codes "https")
    → is_allowed_scheme scheme ≡ true
is_allowed_scheme_complete scheme (inl plain) =
    rw ((text_eq_iff scheme (codes "http")).1 plain) refl
is_allowed_scheme_complete scheme (inr secure) =
    let e = (text_eq_iff scheme (codes "https")).1 secure in ground (arith, e)

module _ {W : Type 0} (urlparse : Text → Result Url) (is_gaierror : Error → Bool)
    (getaddrinfo : Text → Action W (List (Option IpAddress))) where
  -- A URL that may be fetched: it has the scheme http or https and a host, which the resolver gives
  -- addresses for, none of them private.
  pub record IsPermitted (url : Text) (w : W) : Type 0 where
    pub parsed : Url
    pub parse : urlparse url ≡ ok parsed
    pub scheme : (parsed.scheme ≡ codes "http") ⊎ (parsed.scheme ≡ codes "https")
    pub initial : ℕ
    pub others : Text
    pub hostname : parsed.hostname ≡ some (initial ∷ others)
    pub infos : List (Option IpAddress)
    pub resolved : (getaddrinfo (initial ∷ others) w).0 ≡ ok infos
    pub public : All IsPublic infos

  -- Why a URL is refused, by the exception that this raises: it cannot be parsed; it has another
  -- scheme, or no host; its host is not resolved, for a `gaierror` or another exception; or an address
  -- of it is private.
  pub data IsRefused (url : Text) (w : W) : Error → Type 0 where
    unparsed : {e : Error} → urlparse url ≡ err e → IsRefused url w e
    foreign :
        {parsed : Url}
        → urlparse url ≡ ok parsed
        → ¬ ((parsed.scheme ≡ codes "http") ⊎ (parsed.scheme ≡ codes "https"))
        → IsRefused url w tool_error
    nameless :
        {parsed : Url}
        → urlparse url ≡ ok parsed
        → (parsed.hostname ≡ none) ⊎ (parsed.hostname ≡ some [])
        → IsRefused url w tool_error
    unknown :
        {parsed : Url} {host : Text} {e : Error}
        → urlparse url ≡ ok parsed
        → parsed.hostname ≡ some host
        → (getaddrinfo host w).0 ≡ err e
        → is_gaierror e ≡ true
        → IsRefused url w tool_error
    unresolved :
        {parsed : Url} {host : Text} {e : Error}
        → urlparse url ≡ ok parsed
        → parsed.hostname ≡ some host
        → (getaddrinfo host w).0 ≡ err e
        → is_gaierror e ≡ false
        → IsRefused url w e
    private :
        {parsed : Url} {host : Text} {infos : List (Option IpAddress)}
        → urlparse url ≡ ok parsed
        → parsed.hostname ≡ some host
        → (getaddrinfo host w).0 ≡ ok infos
        → ¬ (All IsPublic infos)
        → IsRefused url w tool_error

  -- What the guard decides.
  abbrev Guarded : Text → W → Type 0
  Guarded url w =
      ((p : IsPermitted url w) × (guard_url urlparse is_gaierror getaddrinfo url w
          ≡ (ok tt, (getaddrinfo (p.initial ∷ p.others) w).1)))
      ⊎ ((e : Error) × IsRefused url w e
          × ((guard_url urlparse is_gaierror getaddrinfo url w).0 ≡ err e))

  guard_resolved :
      (url : Text) (parsed : Url) (c : ℕ) (host : Text) (w : W)
      (r : Result (List (Option IpAddress)))
      → urlparse url ≡ ok parsed
      → is_allowed_scheme parsed.scheme ≡ true
      → parsed.hostname ≡ some (c ∷ host)
      → (getaddrinfo (c ∷ host) w).0 ≡ r
      → Guarded url w
  unfolding guard_url catch is_empty ◌>>=◌
  guard_resolved url parsed c host w (ok infos) u s h r =
      elim (Bool-cases (any is_blocked_address infos)) [
        | inl within ↦ inr (
          tool_error,
          private u h r (λ all. absurd (ground (arith, within, none_blocked infos all))),
          rw (u, s, h, r, within) refl,
        )
        | inr free ↦ inl (
          record {
            parsed = parsed;
            parse = u;
            scheme = is_allowed_scheme_sound parsed.scheme s;
            initial = c;
            others = host;
            hostname = h;
            infos = infos;
            resolved = r;
            public = All-IsPublic infos free;
          },
          rw (u, s, h, r, free) refl,
        )
      ]
  guard_resolved url parsed c host w (err e) u s h r = elim (Bool-cases (is_gaierror e)) [
    | inl not_known ↦ inr (tool_error, unknown u h r not_known, rw (u, s, h, r, not_known) refl)
    | inr other ↦ inr (e, unresolved u h r other, rw (u, s, h, r, other) refl)
  ]

  guard_hosted :
      (url : Text) (parsed : Url) (hostname : Option Text) (w : W)
      → urlparse url ≡ ok parsed
      → is_allowed_scheme parsed.scheme ≡ true
      → parsed.hostname ≡ hostname
      → Guarded url w
  unfolding guard_url is_empty ◌>>=◌
  guard_hosted url parsed none w u s h = inr (tool_error, nameless u (inl h), rw (u, s, h) refl)
  guard_hosted url parsed (some []) w u s h =
      inr (tool_error, nameless u (inr h), rw (u, s, h) refl)
  guard_hosted url parsed (some (c ∷ host)) w u s h =
      guard_resolved url parsed c host w (getaddrinfo (c ∷ host) w).0 u s h refl

  guard_parsed : (url : Text) (r : Result Url) (w : W) → urlparse url ≡ r → Guarded url w
  unfolding guard_url ◌>>=◌
  guard_parsed url (err e) w u = inr (e, unparsed u, rw u refl)
  guard_parsed url (ok parsed) w u = elim (Bool-cases (is_allowed_scheme parsed.scheme)) [
    | inr other ↦ inr (
      tool_error,
      foreign u (λ scheme.
          absurd (ground (arith, other, is_allowed_scheme_complete parsed.scheme scheme))),
      rw (u, other) refl,
    )
    | inl allowed ↦ guard_hosted url parsed parsed.hostname w u allowed refl
  ]

  permitted_passes :
      (url : Text) (w : W)
      → IsPermitted url w
      → (guard_url urlparse is_gaierror getaddrinfo url w).0 ≡ ok tt
  unfolding guard_url catch is_empty ◌>>=◌
  permitted_passes url w p =
      rw
        (
          p.parse,
          is_allowed_scheme_complete p.parsed.scheme p.scheme,
          p.hostname,
          p.resolved,
          none_blocked p.infos p.public,
        )
        refl

  module _ (is_request_error : Error → Bool) (get_url : Text → Action W Response) where
    -- What the tool makes of the answer to its request.
    abbrev pub fetched : Result Response × W → Result WebFetchOutput × W
    fetched (ok response, w) = (ok (output_of response), w)
    fetched (err e, w) = (err (if is_request_error e then tool_error else e), w)

    fetched_lem :
        (url : Text) (w v : W) (a : Result Response × W)
        → guard_url urlparse is_gaierror getaddrinfo url w ≡ (ok tt, v)
        → get_url url v ≡ a
        → web_fetch urlparse is_gaierror getaddrinfo is_request_error get_url url w ≡ fetched a
    unfolding web_fetch catch ◌>>=◌
    fetched_lem url w v (ok response, v') passed got = rw (passed, got) refl
    fetched_lem url w v (err e, v') passed got = rw (passed, got) refl

    -- A URL is permitted if it can be parsed, its scheme is http or https and its host is resolved to
    -- addresses of which none that parses is private. If it is, the fetch is the request, sent once the
    -- host is resolved, and gives its page, ToolError for an exception of httpx that the tool catches,
    -- or another exception of the request. If not, the fetch raises right after the guard, without a
    -- request: what `urlparse` raised, or what the resolver raised other than a `gaierror`, or else
    -- ToolError, for another scheme, no host, a `gaierror` or a private address.
    pub web_fetch_exact :
        (url : Text) (w : W)
        → ((p : IsPermitted url w) × (web_fetch urlparse is_gaierror getaddrinfo is_request_error
                get_url url w
              ≡ fetched (get_url url (getaddrinfo (p.initial ∷ p.others) w).1)))
          ⊎ (¬ (IsPermitted url w)
              × ((e : Error) × IsRefused url w e
                  × (web_fetch urlparse is_gaierror getaddrinfo is_request_error get_url url w
                      ≡ (err e, (guard_url urlparse is_gaierror getaddrinfo url w).1))))
    unfolding web_fetch ◌>>=◌
    web_fetch_exact url w = elim (guard_parsed url (urlparse url) w refl) [
      | inl (p, passed) ↦ inl (p, fetched_lem url w _ _ passed refl)
      | inr (e, why, refused) ↦ inr (
        λ p. absurd (ground (arith, refused, permitted_passes url w p)),
        (e, why, rw refused refl),
      )
    ]
