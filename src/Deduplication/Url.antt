-- ===== src/Deduplication/Url.antt =====
-- The normal form of a URL. Parsing a URL and its query, and printing them, are the standard
-- library's, a parameter.
use mathlib.Core.List.{reverse}
use horadus.Prelude.{
  Bool, List, Option, [], codes, false, filter, get_or, if◌then◌else◌, lower, ltb, map, none, not,
  some, sort_by, starts_with, strip, suc, text_eq, true, zero, ℕ, ◌&&◌, ◌++◌, ◌==◌, ◌||◌, ◌∷◌,
}

-- What reading `parsed.port` gives: it raises for a port that is no number up to 65535.
pub data Port : Type 0 where
  no_port : Port
  port_number : ℕ → Port
  port_error : Port

pub record SplitUrl : Type 0 where
  pub scheme : List ℕ
  pub netloc : List ℕ
  pub hostname : Option (List ℕ)
  pub port : Port
  pub path : List ℕ
  pub query : List ℕ

pub record UrlLibrary : Type 0 where
  -- none where `urlsplit` raises
  pub urlsplit : List ℕ → Option SplitUrl
  -- scheme, netloc, path and query, without a fragment
  pub urlunsplit : List ℕ → List ℕ → List ℕ → List ℕ → List ℕ
  pub parse_qsl : List ℕ → List (List ℕ × List ℕ)
  pub urlencode : List (List ℕ × List ℕ) → List ℕ
  -- a number in decimal
  pub decimal : ℕ → List ℕ

pub record UrlSettings : Type 0 where
  pub strip_all : Bool
  pub tracking_param_prefixes : List (List ℕ)
  pub tracking_params : List (List ℕ)

pub data Normalized : Type 0 where
  normalized : Option (List ℕ) → Normalized
  bad_port : Normalized

abbrev lowered : List ℕ → List ℕ
lowered text = map lower text

abbrev is_empty : List ℕ → Bool
is_empty [] = true
is_empty (c ∷ text) = false

abbrev any : (List ℕ → Bool) → List (List ℕ) → Bool
any p [] = false
any p (x ∷ xs) = p x || any p xs

-- the settings' entries, stripped and lowered, without those that are blank
abbrev cleaned : List (List ℕ) → List (List ℕ)
cleaned entries =
    map (λ entry. lowered (strip entry)) (filter (λ entry. not (is_empty (strip entry))) entries)

unfoldable pub is_retained : UrlSettings → List ℕ → Bool
is_retained settings key =
    not (is_empty key)
    && not (any (text_eq (lowered key)) (cleaned settings.tracking_params))
    && not (
        any (λ prefix. starts_with prefix (lowered key)) (cleaned settings.tracking_param_prefixes))

abbrev strip_key : List ℕ × List ℕ → List ℕ × List ℕ
strip_key (key, value) = (strip key, value)

-- `s < t` on texts
abbrev text_before : List ℕ → List ℕ → Bool
text_before s [] = false
text_before [] (d ∷ t) = true
text_before (c ∷ s) (d ∷ t) = ltb c d || (c == d && text_before s t)

-- the order of the key `(pair[0].lower(), pair[1], pair[0])`
abbrev pair_before : List ℕ × List ℕ → List ℕ × List ℕ → Bool
pair_before (key, value) (key', value') =
    text_before (lowered key) (lowered key')
    || (text_eq (lowered key) (lowered key')
        && (text_before value value' || (text_eq value value' && text_before key key')))

abbrev encoded : UrlLibrary → List (List ℕ × List ℕ) → List ℕ
encoded library [] = []
encoded library pairs = library.urlencode (sort_by pair_before pairs)

unfoldable pub normalize_query : UrlLibrary → UrlSettings → List ℕ → List ℕ
normalize_query library settings raw_query =
    if settings.strip_all || is_empty raw_query
    then []
    else encoded library
        (filter (λ pair. is_retained settings pair.0) (map strip_key (library.parse_qsl raw_query)))

abbrev drop : ℕ → List ℕ → List ℕ
drop zero xs = xs
drop (suc n) [] = []
drop (suc n) (x ∷ xs) = drop n xs

abbrev without_www : List ℕ → List ℕ
without_www hostname = if starts_with (codes "www.") hostname then drop 4 hostname else hostname

abbrev is_default_port : List ℕ → ℕ → Bool
is_default_port scheme port =
    (text_eq scheme (codes "http") && port == 80) || (text_eq scheme (codes "https") && port == 443)

abbrev trailing_slashes : List ℕ → List ℕ
trailing_slashes [] = []
trailing_slashes (c ∷ s) = if c == b'/' then trailing_slashes s else c ∷ s

-- `path.rstrip("/") or "/"`
abbrev or_root : List ℕ → List ℕ
or_root [] = b'/' ∷ []
or_root (c ∷ s) = c ∷ s

abbrev netloc_for : UrlLibrary → SplitUrl → List ℕ → Port → Option (List ℕ)
netloc_for library parsed hostname no_port = some hostname
netloc_for library parsed hostname (port_number port) =
    if is_default_port parsed.scheme port
    then some hostname
    else some (hostname ++ (b':' ∷ library.decimal port))
netloc_for library parsed hostname port_error = none

abbrev printed : UrlLibrary → UrlSettings → SplitUrl → Option (List ℕ) → Normalized
printed library settings parsed none = bad_port
printed library settings parsed (some netloc) = normalized (
    some (
      library.urlunsplit (lowered parsed.scheme) netloc
        (or_root (reverse (trailing_slashes (reverse parsed.path))))
        (normalize_query library settings parsed.query)))

abbrev normalize_parsed : UrlLibrary → UrlSettings → Option SplitUrl → Normalized
normalize_parsed library settings none = normalized none
normalize_parsed library settings (some parsed) =
    if is_empty parsed.scheme || is_empty parsed.netloc
    then normalized none
    else printed library settings parsed
        (netloc_for library parsed (without_www (lowered (get_or parsed.hostname []))) parsed.port)

unfoldable pub normalize_url : UrlLibrary → UrlSettings → Option (List ℕ) → Normalized
normalize_url library settings none = normalized none
normalize_url library settings (some url) =
    normalize_parsed library settings (library.urlsplit (strip url))
