-- ===== src/Web.antt =====
-- app/tools/builtin/fetch.py. Parameters are `urlparse`, the resolver, whose addresses are parsed,
-- the request with its redirects, and which exceptions the two `except` clauses catch.
pub mod Search
pub mod Private
pub mod Laws
mod Tests
use agent_operator.Errors.{Error, tool_error}
use agent_operator.Prelude.{
  ℕ, zero, suc, ◌+◌, ◌-◌, ◌*◌, ◌/◌, ◌^◌, Bool, true, false, not, ◌&&◌, ◌||◌, Option, none, some,
  List, [], ◌∷◌, ◌++◌, ◌==◌, ltb, take, any, Result, ok, err, Action, pure, raise, lift, raise_if,
  catch, ◌>>=◌, ◌>>◌, if◌then◌else◌,
}
use agent_operator.Text.{Text, codes, strip, is_empty, is_space, includes, text_eq}

pub data IpAddress : Type 0 where
  ipv4 ipv6 : ℕ → IpAddress

-- An address of the network and the length of its prefix.
pub record IpNetwork : Type 0 where
  pub address : IpAddress
  pub prefix : ℕ

-- `ip in net`.
unfoldable pub is_in : IpAddress → IpAddress → ℕ → Bool
is_in (ipv4 n) (ipv4 base) prefix = n / 2 ^ (32 - prefix) == base / 2 ^ (32 - prefix)
is_in (ipv6 n) (ipv6 base) prefix = n / 2 ^ (128 - prefix) == base / 2 ^ (128 - prefix)
is_in ip base prefix = false

abbrev pub quad : ℕ → ℕ → ℕ → ℕ → IpAddress
quad a b c d = ipv4 (((a * 256 + b) * 256 + c) * 256 + d)

abbrev pub network : IpAddress → ℕ → IpNetwork
network address prefix = record { address = address; prefix = prefix }

-- `_PRIVATE_NETWORKS`.
abbrev pub private_networks : List IpNetwork
private_networks =
    network (quad 127 0 0 0) 8
    ∷ network (quad 10 0 0 0) 8
    ∷ network (quad 172 16 0 0) 12
    ∷ network (quad 192 168 0 0) 16
    ∷ network (quad 169 254 0 0) 16
    ∷ network (ipv6 (0xfc00 * 2 ^ 112)) 7
    ∷ network (ipv6 1) 128
    ∷ []

unfoldable pub is_private : IpAddress → Bool
is_private ip = any (λ net. is_in ip net.address net.prefix) private_networks

pub record Url : Type 0 where
  pub scheme : Text
  pub hostname : Option Text

pub record Response : Type 0 where
  pub text : Text
  pub status_code : ℕ
  pub content_type : Option Text
  pub url : Text

pub record WebFetchOutput : Type 0 where
  pub content : Text
  pub status_code : ℕ
  pub content_type : Text
  pub url : Text

-- How many characters `[^>]+>` takes, after so many, or 0.
unfoldable pub tag_rest : ℕ → Text → ℕ
tag_rest n [] = 0
tag_rest n (c ∷ s) =
    let rest = tag_rest (suc n) s in if c == 62 then (if n == 0 then 0 else suc n) else rest

-- `re.sub(r"<[^>]+>", " ", html)`, from a place so many characters before the end of a tag.
unfoldable pub without_tags : ℕ → Text → Text
without_tags n [] = []
without_tags (suc n) (c ∷ s) = without_tags n s
without_tags zero (c ∷ s) =
    let n = tag_rest 0 s in
    let after = without_tags n s in
    let rest = without_tags 0 s in if c == 60 && not (n == 0) then 32 ∷ after else c ∷ rest

-- `re.sub(r"\s{2,}", " ", html)`, with the white space that is being read.
unfoldable pub squeeze : Text → Text → Text
squeeze run [] = squeezed run
  where
    squeezed : Text → Text
    squeezed (c ∷ d ∷ run) = 32 ∷ []
    squeezed run = run
squeeze run (c ∷ s) =
    let longer = squeeze (run ++ c ∷ []) s in
    let rest = squeeze [] s in if is_space c then longer else ended run (c ∷ rest)
  where
    ended : Text → Text → Text
    ended [] rest = rest
    ended (c ∷ []) rest = c ∷ rest
    ended (c ∷ d ∷ run) rest = 32 ∷ rest

-- `_extract_text`.
unfoldable pub extract_content : Text → Text → Text
extract_content html content_type = take 50000 (
    if includes (codes "text/html") content_type
    then strip (squeeze [] (without_tags 0 html))
    else html)

abbrev pub type_or_plain : Option Text → Text
type_or_plain none = codes "text/plain"
type_or_plain (some content_type) = content_type

unfoldable pub output_of : Response → WebFetchOutput
output_of response = record {
  content = extract_content response.text (type_or_plain response.content_type);
  status_code = response.status_code;
  content_type = type_or_plain response.content_type;
  url = response.url;
}

abbrev pub is_allowed_scheme : Text → Bool
is_allowed_scheme scheme = text_eq scheme (codes "http") || text_eq scheme (codes "https")

-- An address that cannot be parsed is passed over.
abbrev pub is_blocked_address : Option IpAddress → Bool
is_blocked_address none = false
is_blocked_address (some ip) = is_private ip

module _ {W : Type 0} (urlparse : Text → Result Url) (is_gaierror : Error → Bool)
    (getaddrinfo : Text → Action W (List (Option IpAddress))) where
  -- Only a `gaierror` of the resolver is caught.
  abbrev pub resolve_host : Option Text → Action W (List (Option IpAddress))
  resolve_host none = raise tool_error
  resolve_host (some host) =
      if is_empty host
      then raise tool_error
      else catch (getaddrinfo host) (λ e. raise (if is_gaierror e then tool_error else e))

  -- `_guard_url`.
  unfoldable pub guard_url : Text → Action W (Unit {0})
  guard_url url = do
    parsed ← lift (urlparse url)
    raise_if (not (is_allowed_scheme parsed.scheme)) tool_error
    infos ← resolve_host parsed.hostname
    raise_if (any is_blocked_address infos) tool_error

  module _ (is_request_error : Error → Bool) (get_url : Text → Action W Response) where
    -- `WebFetchTool.execute`, with httpx installed. Of what the request raises, a `TimeoutException`
    -- or another `RequestError` of httpx is caught.
    unfoldable pub web_fetch : Text → Action W WebFetchOutput
    web_fetch url = do
      guard_url url
      response ← catch (get_url url) (λ e. raise (if is_request_error e then tool_error else e))
      pure (output_of response)
