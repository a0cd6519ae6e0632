-- ===== src/Research/Classification.antt =====
-- app/research/classification.py: the kind of a source by its host. `str.lower` is a parameter, since
-- it stands on the tables of Unicode.
use agent_operator.Prelude.{
  ℕ, Bool, ◌&&◌, ◌||◌, Option, none, some, List, [], ◌∷◌, ◌++◌, ◌==◌, leb, any, drop, length,
  if◌then◌else◌,
}
use agent_operator.Text.{Text, codes, text_eq, strip, is_empty, starts_with, includes}
use agent_operator.Research.{
  SourceType, primary, official, secondary, community, unverified, Source,
}

unfoldable pub official_exact_hosts : List Text
official_exact_hosts =
    codes "w3.org"
    ∷ codes "ietf.org"
    ∷ codes "iso.org"
    ∷ codes "ieee.org"
    ∷ codes "ncbi.nlm.nih.gov"
    ∷ codes "arxiv.org"
    ∷ codes "docs.python.org"
    ∷ codes "docs.microsoft.com"
    ∷ codes "developer.mozilla.org"
    ∷ []

unfoldable pub secondary_host_keywords : List Text
secondary_host_keywords =
    codes "reuters"
    ∷ codes "ap.org"
    ∷ codes "bloomberg"
    ∷ codes "wsj.com"
    ∷ codes "ft.com"
    ∷ codes "techcrunch"
    ∷ codes "arstechnica"
    ∷ codes "theverge"
    ∷ codes "wired"
    ∷ codes "zdnet"
    ∷ codes "theregister"
    ∷ codes "infosecurity-magazine"
    ∷ codes "engadget"
    ∷ codes "techradar"
    ∷ codes "theeconomist"
    ∷ []

unfoldable pub community_host_keywords : List Text
community_host_keywords =
    codes "reddit"
    ∷ codes "twitter"
    ∷ codes "x.com"
    ∷ codes "hacker-news"
    ∷ codes "news.ycombinator"
    ∷ codes "dev.to"
    ∷ codes "medium.com"
    ∷ codes "substack"
    ∷ codes "linkedin.com"
    ∷ codes "quora"
    ∷ []

unfoldable pub community_tlds : List Text
community_tlds = codes ".tk" ∷ codes ".ml" ∷ codes ".ga" ∷ codes ".cf" ∷ []

-- `[a-z]` under IGNORECASE, which also takes four letters that have an ASCII letter as a variant.
unfoldable pub is_letter : ℕ → Bool
is_letter c =
    (leb 97 c && leb c 122)
    || ((leb 65 c && leb c 90) || (c == 0x130 || (c == 0x131 || (c == 0x17f || c == 0x212a))))

unfoldable pub is_digit : ℕ → Bool
is_digit c = leb 48 c && leb c 57

unfoldable pub is_label_char : ℕ → Bool
is_label_char c = is_letter c || (is_digit c || c == 45)

-- `[a-zA-Z]` and `[a-zA-Z0-9+.-]`.
unfoldable pub is_ascii_letter : ℕ → Bool
is_ascii_letter c = (leb 97 c && leb c 122) || (leb 65 c && leb c 90)

unfoldable pub is_scheme_char : ℕ → Bool
is_scheme_char c = is_ascii_letter c || (is_digit c || (c == 43 || (c == 46 || c == 45)))

-- What follows `://` behind characters of a scheme, none of which is a colon.
unfoldable pub after_scheme : Text → Option Text
after_scheme [] = none
after_scheme (c ∷ s) =
    let rest = after_scheme s in
    if is_scheme_char c
    then rest
    else (if starts_with (codes "://") (c ∷ s) then some (drop 3 (c ∷ s)) else none)

unfoldable pub strip_scheme : Text → Text
strip_scheme [] = []
strip_scheme (c ∷ s) =
    if is_ascii_letter c then elim (after_scheme s) [ none ↦ c ∷ s | some rest ↦ rest ] else c ∷ s

-- `s.split(c, 1)[0]`.
unfoldable pub before : ℕ → Text → Text
before c [] = []
before c (d ∷ s) = if d == c then [] else d ∷ before c s

-- `s.rsplit(c, 1)[-1]`.
unfoldable pub after_last : ℕ → Text → Text
after_last c [] = []
after_last c (d ∷ s) =
    let rest = after_last c s in if includes (c ∷ []) s then rest else (if d == c then s else d ∷ s)

abbrev pub some_if_any : Text → Option Text
some_if_any [] = none
some_if_any (c ∷ s) = some (c ∷ s)

-- `_extract_host`.
unfoldable pub extract_host : Text → Option Text
extract_host url = some_if_any (after_last 64 (before 63 (before 47 (strip_scheme (strip url)))))

unfoldable pub reversed : Text → Text → Text
reversed [] acc = acc
reversed (c ∷ s) acc = reversed s (c ∷ acc)

abbrev pub ends_with : Text → Text → Bool
ends_with suffix s = starts_with (reversed suffix []) (reversed s [])

-- The longest start of a text whose characters pass a test, and the rest.
unfoldable pub span : (ℕ → Bool) → Text → Text × Text
span p [] = ([], [])
span p (c ∷ s) = let (start, rest) = span p s in if p c then (c ∷ start, rest) else ([], c ∷ s)

-- `$` stands also before a newline at the end.
abbrev pub drop_newline : Text → Text
drop_newline [] = []
drop_newline (c ∷ s) = if c == 10 then s else c ∷ s

-- The text read backwards: its last letters, and what stands before the dot in front of them.
abbrev pub letters_and_dot : Text → Option (Text × Text)
letters_and_dot s =
    let (letters, rest) = span is_letter s in
    if leb 2 (length letters) && starts_with (codes ".") rest
    then some (letters, drop 1 rest)
    else none

-- `_tld`.
unfoldable pub tld : Text → Text
tld host = elim (letters_and_dot (drop_newline (reversed host []))) [
  | none ↦ []
  | some (letters, rest) ↦ reversed letters []
]

-- `_last_suffix`.
unfoldable pub last_suffix : Text → Text
last_suffix host = elim (letters_and_dot (drop_newline (reversed host []))) [
  | none ↦ []
  | some (letters, rest) ↦
      let label = (span is_label_char rest).0 in
      if is_empty label then [] else reversed (letters ++ 46 ∷ label) []
]

abbrev pub one_of : List Text → Text → Bool
one_of names s = any (λ name. text_eq name s) names

-- The tests of `classify_source` on the lowered host.
unfoldable pub classify_host : Text → SourceType
classify_host host =
    let suffix = last_suffix host in
    if one_of (codes "gov" ∷ codes "gouv" ∷ []) (tld host)
      || (one_of (codes "gov.uk" ∷ codes "gov.au" ∷ codes "gc.ca" ∷ []) suffix
          || ends_with (codes ".gc.ca") host)
    then primary
    else (if one_of official_exact_hosts host || ends_with (codes ".edu") host
        then official
        else (if any (λ keyword. includes keyword host) secondary_host_keywords
            then secondary
            else (if any (λ keyword. includes keyword host) community_host_keywords
                  || one_of community_tlds suffix
                then community
                else unverified)))

module _ (lower : Text → Text) where
  -- `classify_source`, for a URL that may be empty.
  unfoldable pub classify_source : Text → SourceType
  classify_source url =
      if is_empty url
      then unverified
      else elim (extract_host url) [ none ↦ unverified | some host ↦ classify_host (lower host) ]

  unfoldable pub classify_source_obj : Source → Source
  classify_source_obj source = record source { source_type = classify_source source.url }
