-- ===== src/Database/Discovery.antt =====
-- database/src/pgs_db/discovery.py: hosts that crawled pages link to, checked over the network and
-- registered as domains. The fields of `Web` are Python's: lower-casing, IDNA, the resolver, the HTTP
-- client, URL and robots.txt parsing and the page's regular expressions. `resolve` and `request` take
-- the number of the call, since the network may answer otherwise the next time.
pub mod Requests
pub mod Hosts
pub mod Guard
pub mod Checks
mod Tests
use pgs_search_engine.Base.{
  ℕ, ◌*◌, Bool, false, not, ◌&&◌, ◌||◌, Option, none, some, List, [], ◌∷◌, ◌++◌, map, leb,
  if◌then◌else◌, ◌==◌, nat_eq, length, drop, any, all, count_if,
}
use pgs_search_engine.Base.Text.{
  Text, text_eq, codes, between, strip, strip_right, starts_with, ends_with, drop_end,
}

pub record Target : Type 0 where
  pub scheme : Text
  pub hostname : Option Text
  pub path : Text
  pub query : Text

pub record Response : Type 0 where
  pub status : ℕ
  pub location : Option Text
  pub content_type : Text
  pub body : List ℕ

-- None is an exception: an OSError, an HTTPException or a ValueError.
pub record Web : Type 0 where
  pub lower : Text → Text
  pub idna : Text → Option Text
  pub resolve : ℕ → Text → Option (List Text)
  pub is_global : Text → Bool
  pub request : ℕ → Text → Text → Text → Text → Option Response
  pub urlsplit : Text → Option Target
  pub decode_utf8 : List ℕ → Text
  pub can_fetch : List ℕ → Text → Text → Bool
  pub lang_of : Text → Option Text
  pub nepal_words : Text → ℕ
  pub title_of : Text → Option Text

abbrev pub max_redirects : ℕ
max_redirects = 3

abbrev pub max_body_bytes : ℕ
max_body_bytes = 256 * 1024

abbrev pub user_agent : Text
user_agent = codes "PGSSearchBot/1.0 (+domain discovery)"

abbrev pub blocked_suffixes : List Text
blocked_suffixes = map codes (
    "facebook.com" ∷ "fb.com" ∷ "fb.me" ∷ "instagram.com" ∷ "twitter.com" ∷ "x.com" ∷ "youtube.com"
    ∷ "youtu.be" ∷ "linkedin.com" ∷ "tiktok.com" ∷ "pinterest.com" ∷ "whatsapp.com" ∷ "wa.me"
    ∷ "t.me" ∷ "telegram.org" ∷ "viber.com" ∷ "reddit.com" ∷ "google.com" ∷ "googleapis.com"
    ∷ "gstatic.com" ∷ "googletagmanager.com" ∷ "google-analytics.com" ∷ "doubleclick.net" ∷ "goo.gl"
    ∷ "bit.ly" ∷ "tinyurl.com" ∷ "wikipedia.org" ∷ "wikimedia.org" ∷ "github.com" ∷ "apple.com"
    ∷ "microsoft.com" ∷ "amazon.com" ∷ "cloudflare.com" ∷ "wordpress.com" ∷ "wordpress.org"
    ∷ "wp.com" ∷ "blogspot.com" ∷ "medium.com" ∷ "archive.org" ∷ "w3.org" ∷ "schema.org"
    ∷ "creativecommons.org" ∷ "adobe.com" ∷ "paypal.com" ∷ "mailchimp.com" ∷ "gravatar.com"
    ∷ "addthis.com" ∷ "sharethis.com" ∷ "bing.com" ∷ "yahoo.com" ∷ "mozilla.org" ∷ "gov.uk" ∷ [])

abbrev pub is_lower_alpha : ℕ → Bool
is_lower_alpha c = between 97 122 c

abbrev pub is_label_char : ℕ → Bool
is_label_char c = is_lower_alpha c || between 48 57 c || (c == b'-')

-- `[a-z0-9]([a-z0-9-]{0,61}[a-z0-9])?`
abbrev pub is_label : Text → Bool
is_label label =
    all is_label_char label
    && between 1 63 (length label)
    && not (starts_with (codes "-") label)
    && not (ends_with (codes "-") label)

abbrev pub reversed : Text → Text → Text
reversed acc [] = acc
reversed acc (c ∷ t) = reversed (c ∷ acc) t

abbrev pub labels_from : Text → Text → List Text
labels_from part [] = reversed [] part ∷ []
labels_from part (c ∷ t) =
    let next = labels_from [] t in
    let longer = labels_from (c ∷ part) t in if c == b'.' then reversed [] part ∷ next else longer

-- One label or more, each with its dot, and `[a-z]{2,63}` at the end.
abbrev pub are_labels : List Text → Bool
are_labels [] = false
are_labels (last ∷ []) = false
are_labels (label ∷ last ∷ []) =
    is_label label && all is_lower_alpha last && between 2 63 (length last)
are_labels (label ∷ next ∷ other ∷ labels) = is_label label && are_labels (next ∷ other ∷ labels)

-- `$` also matches before a line feed at the end.
abbrev pub without_line_feed : Text → Text
without_line_feed h = if ends_with (10 ∷ []) h then drop_end 1 h else h

-- `_HOST_RE.match(h)`
unfoldable pub matches_host : Text → Bool
matches_host h =
    let name = without_line_feed h in
    between 4 253 (length name) && are_labels (labels_from [] name)

abbrev pub is_dot : ℕ → Bool
is_dot c = c == b'.'

abbrev pub without_www : Text → Text
without_www h = if starts_with (codes "www.") h then drop 4 h else h

abbrev pub if_host : Text → Option Text
if_host h = if matches_host h then some h else none

module _ (web : Web) where
  unfoldable pub normalize_host : Text → Option Text
  unfolding matches_host strip
  normalize_host host =
      elim (web.idna (without_www (strip_right is_dot (web.lower (strip host))))) [
        | none ↦ none
        | some h ↦ if_host h
      ]

  -- The first address, if all of them are public.
  abbrev pub first_public : List Text → Option Text
  first_public [] = none
  first_public (a ∷ addresses) = if all web.is_global (a ∷ addresses) then some a else none

  unfoldable pub public_address : ℕ → Text → Option Text
  public_address call host = elim (web.resolve call host) [
    | none ↦ none
    | some addresses ↦ first_public addresses
  ]

unfoldable pub is_blocked : Text → Bool
is_blocked host =
    any (λ suffix. (host == suffix) || ends_with (codes "." ++ suffix) host) blocked_suffixes

abbrev pub is_np : Text → Bool
is_np host = ends_with (codes ".np") host

pub data DomainCategory : Type 0 where
  government news education finance ngo commercial other : DomainCategory

unfoldable pub category_for : Text → DomainCategory
category_for host =
    if ends_with (codes ".gov.np") host
    then government
    else if ends_with (codes ".edu.np") host
    then education
    else if ends_with (codes ".org.np") host
    then ngo
    else if ends_with (codes ".com.np") host
    then commercial
    else other

unfoldable pub looks_nepali : Web → Text → Bool
looks_nepali web html =
    (elim (web.lang_of html) [
      | none ↦ false
      | some lang ↦ starts_with (codes "ne") (web.lower lang)
    ])
    || leb 50 (count_if (between 0x900 0x97f) html)
    || leb 3 (web.nepal_words html)
