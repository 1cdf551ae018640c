-- ===== src/Database/Discovery/Requests.antt =====
-- database/src/pgs_db/discovery.py: the requests, and the check of one host. A function here returns
-- the connections that it made, in order, with its result.
use pgs_search_engine.Base.{
  ℕ, zero, suc, Bool, false, not, ◌||◌, Option, none, some, List, [], ◌∷◌, ◌++◌, if◌then◌else◌,
  ◌==◌, nat_eq, take, elem,
}
use pgs_search_engine.Base.Text.{Text, text_eq, codes}
use pgs_search_engine.Database.Discovery.{
  Web, Target, Response, max_redirects, max_body_bytes, normalize_host, public_address,
}

-- A connection: the host that it is made for, and the address that it goes to.
pub record Connection : Type 0 where
  pub host : Text
  pub address : Text

-- What `_get` returns besides the final host.
pub record Page : Type 0 where
  pub status : ℕ
  pub content_type : Text
  pub body : List ℕ

abbrev pub is_redirect : ℕ → Bool
is_redirect status = elem status (301 ∷ 302 ∷ 303 ∷ 307 ∷ 308 ∷ [])

abbrev pub is_web_scheme : Text → Bool
is_web_scheme scheme = elem scheme ([] ∷ codes "http" ∷ codes "https" ∷ [])

-- `a or b`
abbrev pub text_or : Text → Text → Text
text_or [] b = b
text_or (c ∷ a) b = c ∷ a

abbrev pub next_host : Text → Target → Text
next_host host target = elim target.hostname [ none ↦ host | some h ↦ text_or h host ]

abbrev pub next_path : Target → Text
next_path target =
    text_or target.path (codes "/") ++ (elim target.query [ [] ↦ [] | c ∷ q ↦ codes "?" ++ c ∷ q ])

abbrev pub same_site : Option Text → Text → Bool
same_site none current = false
same_site (some h) current = h == current

-- What a response asks for: to stop, to be returned, or to be followed.
pub data Next : Type 0 where
  give_up : Next
  arrived : Page → Next
  follow : Text → Text → Text → Next

module _ (web : Web) where
  abbrev pub redirect_of : Text → Text → Text → Option Target → Next
  redirect_of scheme host current none = give_up
  redirect_of scheme host current (some target) =
      if not (is_web_scheme target.scheme)
        || not (same_site (normalize_host web (next_host host target)) current)
      then give_up
      else follow (text_or target.scheme scheme) (next_host host target) (next_path target)

  abbrev pub page_of : Response → Next
  page_of response = arrived (record {
    status = response.status;
    content_type = response.content_type;
    body = take max_body_bytes response.body;
  })

  abbrev pub after_response : Text → Text → Text → Option Response → Next
  after_response scheme host current none = give_up
  after_response scheme host current (some response) =
      if is_redirect response.status
      then (elim response.location [
        | none ↦ page_of response
        | some location ↦ redirect_of scheme host current (web.urlsplit location)
      ])
      else page_of response

  -- One pass of the loop: where it connects, and what comes next.
  abbrev pub pass_to : ℕ → Text → Text → Text → Option Text → Option Text → List Connection × Next
  pass_to call scheme host path none _ = ([], give_up)
  pass_to call scheme host path (some current) none = ([], give_up)
  pass_to call scheme host path (some current) (some address) = (
    record { host = host; address = address } ∷ [],
    after_response scheme host current (web.request call scheme host address path),
  )

  abbrev pub pass : ℕ → Text → Text → Text → List Connection × Next
  pass call scheme host path =
      pass_to call scheme host path (normalize_host web host) (public_address web call host)

  -- The loop of `_get`, with the passes that are left; calls of the network are numbered from `call`.
  unfoldable pub get_within : ℕ → ℕ → Text → Text → Text → List Connection × Option Page
  unfolding normalize_host public_address
  get_within zero call scheme host path = ([], none)
  get_within (suc left) call scheme host path =
      let (made, next) = pass call scheme host path in
      elim next [
        | give_up ↦ (made, none)
        | arrived page ↦ (made, some page)
        | follow scheme' host' path' ↦
            let (later, page) = get_within left (suc call) scheme' host' path' in
            (made ++ later, page)
      ]

  -- `_get`
  unfoldable pub get_url : ℕ → Text → Text → Text → List Connection × Option Page
  unfolding get_within
  get_url call scheme host path = get_within (suc max_redirects) call scheme host path
