-- ===== src/Database/Discovery/Hosts.antt =====
-- database/src/pgs_db/discovery.py: `verify_host`, the candidates, and `discover_domains`. The rows of
-- the candidates' query, the order in which the checks complete, and `ensure_domain` are arguments.
use pgs_search_engine.Base.{
  ℕ, ◌+◌, Bool, true, false, not, ◌&&◌, ◌||◌, Option, none, some, List, [], ◌∷◌, ◌++◌, map, ltb,
  leb, if◌then◌else◌, ◌==◌, nat_eq, length, take, elem, count_if,
}
use pgs_search_engine.Base.Text.{Text, text_eq, codes, is_empty, starts_with, words, join}
use pgs_search_engine.Base.Sort.{sort_by}
use pgs_search_engine.Database.Discovery.{
  Web, user_agent, normalize_host, is_blocked, is_np, DomainCategory, category_for, looks_nepali,
}
use pgs_search_engine.Database.Discovery.Requests.{Connection, Page, get_url}

pub record Verified : Type 0 where
  pub host : Text
  pub category : DomainCategory
  pub website_name : Option Text

-- `part in s`
abbrev pub has_text : Text → Text → Bool
has_text part [] = is_empty part
has_text part (c ∷ s) = starts_with part (c ∷ s) || has_text part s

-- `name or None`
abbrev pub text_or_none : Text → Option Text
text_or_none [] = none
text_or_none (c ∷ t) = some (c ∷ t)

module _ (web : Web) where
  abbrev pub allows : Option Page → Bool
  allows none = true
  allows (some page) =
      if not (page.status == 200)
      then true
      else web.can_fetch page.body user_agent (codes "/")
        || web.can_fetch page.body (codes "*") (codes "/")

  -- `_robots_allow_all`
  unfoldable pub robots_allow_all : ℕ → Text → Text → List Connection × Bool
  unfolding get_url
  robots_allow_all call host scheme =
      let (made, got) = get_url web call scheme host (codes "/robots.txt") in (made, allows got)

  abbrev pub website_name : Text → Option Text
  website_name html = elim (web.title_of html) [
    | none ↦ none
    | some title ↦ text_or_none (take 255 (join (codes " ") (words title)))
  ]

  -- `verify_host`, for a page that was fetched with a scheme
  unfoldable pub verify_page : ℕ → Bool → Text → Text → Page → List Connection × Option Verified
  unfolding looks_nepali robots_allow_all category_for words
  verify_page call require_nepali host scheme page =
      let html = web.decode_utf8 page.body in
      if leb 400 page.status
        || not (has_text (codes "html") (web.lower page.content_type))
        || (not (is_np host) && require_nepali && not (looks_nepali web html))
      then ([], none)
      else (let (made, allowed) = robots_allow_all call host scheme in
          (
            made,
            if allowed
                then some (record {
                  host = host;
                  category = category_for host;
                  website_name = website_name html;
                })
                else none,
          ))

  -- `verify_host` with the schemes that are left; a scheme makes at most eight calls.
  unfoldable pub verify_with : List Text → ℕ → Bool → Text → List Connection × Option Verified
  unfolding get_url verify_page
  verify_with [] call require_nepali host = ([], none)
  verify_with (scheme ∷ schemes) call require_nepali host =
      let (made, got) = get_url web call scheme host (codes "/") in
      elim got [
        | none ↦
            let (later, verified) = verify_with schemes (call + 8) require_nepali host in
            (made ++ later, verified)
        | some page ↦
            let (later, verified) = verify_page (call + 4) require_nepali host scheme page in
            (made ++ later, verified)
      ]

  unfoldable pub verify_host : ℕ → Bool → Text → List Connection × Option Verified
  unfolding verify_with
  verify_host call require_nepali host =
      verify_with (codes "https" ∷ codes "http" ∷ []) call require_nepali host

  -- `seen.setdefault(host)`, for the hosts that are let through, in the order of the rows
  abbrev pub add_host : Text → List Text → List Text
  add_host host seen =
      if is_empty host || is_blocked host || elem host seen then seen else seen ++ host ∷ []

  unfoldable pub hosts_from : List Text → List Text → List Text
  unfolding normalize_host is_blocked
  hosts_from seen [] = seen
  hosts_from seen (raw ∷ rows) = elim (normalize_host web raw) [
    | none ↦ hosts_from seen rows
    | some host ↦ hosts_from (add_host host seen) rows
  ]

  -- `candidate_hosts`, of the hosts that the query gives
  unfoldable pub candidate_hosts : ℕ → List Text → List Text
  unfolding hosts_from
  candidate_hosts limit rows = take limit (hosts_from [] rows)

-- `a < b` on str
abbrev pub text_before : Text → Text → Bool
text_before [] [] = false
text_before [] (_ ∷ _) = true
text_before (_ ∷ _) [] = false
text_before (c ∷ s) (d ∷ t) = ltb c d || ((c == d) && text_before s t)

-- A completed check: too late to be made, or its result.
pub data Checked : Type 0 where
  too_late : Checked
  judged : Option Verified → Checked

abbrev pub verified_of : List Checked → List Verified
verified_of [] = []
verified_of (too_late ∷ results) = verified_of results
verified_of (judged none ∷ results) = verified_of results
verified_of (judged (some v) ∷ results) = v ∷ verified_of results

abbrev pub was_checked : Checked → Bool
was_checked too_late = false
was_checked (judged _) = true

pub record Report : Type 0 where
  pub candidates : ℕ
  pub checked : ℕ
  pub added : ℕ
  pub added_hosts : List Text

-- The domains are registered one after the other.
abbrev pub ensure_all : {S : Type 0} → (Verified → S → S) → List Verified → S → S
ensure_all ensure_domain [] s = s
ensure_all ensure_domain (v ∷ vs) s = ensure_all ensure_domain vs (ensure_domain v s)

-- `discover_domains` after the checks have completed, in their order.
unfoldable pub register_verified :
    {S : Type 0} → (Verified → S → S) → ℕ → List Checked → S → Report × S
register_verified ensure_domain hosts results s =
    let verified = sort_by (λ (v w : Verified). text_before v.host w.host) (verified_of results) in
    (
      record {
        candidates = hosts;
        checked = count_if was_checked results;
        added = length verified;
        added_hosts = take 50 (map (λ (v : Verified). v.host) verified);
      },
      ensure_all ensure_domain verified s,
    )
