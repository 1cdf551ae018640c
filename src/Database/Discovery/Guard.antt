-- ===== src/Database/Discovery/Guard.antt =====
-- database/src/pgs_db/discovery.py: where the requests for a host can go.
use pgs_search_engine.Base.{
  ℕ, zero, suc, ◌≤◌, ◌≡◌, refl, ap, subst, inl, inr, Bool, true, false, not, ◌||◌, Option, none,
  some, List, [], ◌∷◌, ◌++◌, arith, if_ind, Bool-cases, nat_eq, beq→eq, length, all, All,
  length-append, All-append,
}
use pgs_search_engine.Base.Text.{Text, text_eq}
use pgs_search_engine.Database.Discovery.{
  Web, Target, Response, normalize_host, public_address, first_public,
}
use pgs_search_engine.Database.Discovery.Requests.{
  Connection, Page, Next, give_up, arrived, follow, redirect_of, after_response, page_of, pass,
  pass_to, get_within, next_host, is_web_scheme, same_site, is_redirect,
}

module _ (web : Web) where
  -- A connection for a host of the site, to a public address.
  abbrev pub IsGuarded : Option Text → Connection → Type 0
  IsGuarded site c = (web.is_global c.address ≡ true) × (normalize_host web c.host ≡ site)

  -- What is followed is a host of the same site.
  abbrev StaysOn : Option Text → Next → Type 0
  StaysOn site give_up = Unit
  StaysOn site (arrived _) = Unit
  StaysOn site (follow _ host _) = normalize_host web host ≡ site

  first_public-is_global :
      (addresses : List Text) (address : Text)
      → first_public web addresses ≡ some address
      → web.is_global address ≡ true
  first_public-is_global [] address h = cc
  first_public-is_global (a ∷ addresses) address h =
      elim (Bool-cases (all web.is_global (a ∷ addresses))) [
        | inl public ↦ ground arith
        | inr private ↦ ground arith
      ]

  public_address-is_global :
      (call : ℕ) (host address : Text)
      → public_address web call host ≡ some address
      → web.is_global address ≡ true
  unfolding public_address
  public_address-is_global call host address h = of_answer (web.resolve call host) h
    where
      of_answer :
          (answer : Option (List Text))
          → (elim answer [ none ↦ none | some addresses ↦ first_public web addresses ])
            ≡ some address
          → web.is_global address ≡ true
      of_answer none e = cc
      of_answer (some addresses) e = first_public-is_global addresses address e

  same_site-eq :
      (site : Option Text) (current : Text) → same_site site current ≡ true → site ≡ some current
  same_site-eq none current h = cc
  same_site-eq (some h) current same = ap some (beq→eq h current same)

  redirect_of-StaysOn :
      (scheme host current : Text) (target : Option Target)
      → StaysOn (some current) (redirect_of web scheme host current target)
  redirect_of-StaysOn scheme host current none = tt
  redirect_of-StaysOn scheme host current (some target) =
      if_ind (StaysOn (some current))
        (not (is_web_scheme target.scheme)
          || not (same_site (normalize_host web (next_host host target)) current))
        (λ _. tt)
        (λ stays. same_site-eq (normalize_host web (next_host host target)) current (
          second (is_web_scheme target.scheme)
            (same_site (normalize_host web (next_host host target)) current) stays))
    where
      second : (a b : Bool) → (not a || not b) ≡ false → b ≡ true
      second a b h = ground arith

  after_response-StaysOn :
      (scheme host current : Text) (response : Option Response)
      → StaysOn (some current) (after_response web scheme host current response)
  after_response-StaysOn scheme host current none = tt
  after_response-StaysOn scheme host current (some response) =
      if_ind (StaysOn (some current)) (is_redirect response.status)
        (λ _. at_location response.location) (λ _. tt)
    where
      at_location :
          (location : Option Text)
          → StaysOn (some current) (elim location [
            | none ↦ page_of web response
            | some l ↦ redirect_of web scheme host current (web.urlsplit l)
          ])
      at_location none = tt
      at_location (some l) = redirect_of-StaysOn scheme host current (web.urlsplit l)

  -- One connection at most, for the site, and what is followed is of the site.
  abbrev PassOf : Option Text → List Connection × Next → Type 0
  PassOf site (made, next) = All (IsGuarded site) made × StaysOn site next × (length made ≤ 1)

  pass-PassOf :
      (call : ℕ) (scheme host path : Text)
      → PassOf (normalize_host web host) (pass web call scheme host path)
  pass-PassOf call scheme host path =
      passed (normalize_host web host) (public_address web call host) refl refl
    where
      passed :
          (site address : Option Text)
          → normalize_host web host ≡ site
          → public_address web call host ≡ address
          → PassOf site (pass_to web call scheme host path site address)
      passed none address s a = (tt, tt, omega arith)
      passed (some current) none s a = (tt, tt, omega arith)
      passed (some current) (some address) s a = (
        ((public_address-is_global call host address a, s), tt),
        after_response-StaysOn scheme host current (web.request call scheme host address path),
        omega arith,
      )

  pub get_within-IsGuarded :
      (left call : ℕ) (scheme host path : Text) (site : Option Text)
      → normalize_host web host ≡ site
      → All (IsGuarded site) (get_within web left call scheme host path).0
        × (length (get_within web left call scheme host path).0 ≤ left)
  unfolding get_within
  get_within-IsGuarded zero call scheme host path site h = (tt, omega arith)
  get_within-IsGuarded (suc left) call scheme host path site h =
      go (pass web call scheme host path)
        (subst (λ o. PassOf o (pass web call scheme host path)) h
          (pass-PassOf call scheme host path))
        (λ scheme' host' path' stays.
          get_within-IsGuarded left (suc call) scheme' host' path' site stays)
    where
      onward : List Connection × Next → List Connection × Option Page
      onward (made, give_up) = (made, none)
      onward (made, arrived page) = (made, some page)
      onward (made, follow scheme' host' path') = (
        made ++ (get_within web left (suc call) scheme' host' path').0,
        (get_within web left (suc call) scheme' host' path').1,
      )

      go :
          (step : List Connection × Next)
          → PassOf site step
          → ((s h p : Text)
              → normalize_host web h ≡ site
              → All (IsGuarded site) (get_within web left (suc call) s h p).0
                × (length (get_within web left (suc call) s h p).0 ≤ left))
          → All (IsGuarded site) (onward step).0 × (length (onward step).0 ≤ suc left)
      go (made, give_up) (guarded, _, few) again = (guarded, omega (arith, few))
      go (made, arrived page) (guarded, _, few) again = (guarded, omega (arith, few))
      go (made, follow scheme' host' path') (guarded, stays, few) again =
          let (later, bounded) = again scheme' host' path' stays in
          (
            All-append (IsGuarded site) made (get_within web left (suc call) scheme' host' path').0
                guarded later,
            omega (
              arith,
              few,
              bounded,
              length-append made (get_within web left (suc call) scheme' host' path').0,
            ),
          )
