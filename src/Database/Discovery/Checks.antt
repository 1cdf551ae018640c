-- ===== src/Database/Discovery/Checks.antt =====
-- database/src/pgs_db/discovery.py: the connections of a whole check, and the candidates.
use pgs_search_engine.Base.{
  ℕ, zero, suc, ◌+◌, ◌*◌, ◌≤◌, ◌≡◌, refl, inl, inr, Bool, true, false, not, ◌&&◌, ◌||◌, Option,
  none, some, List, [], ◌∷◌, ◌++◌, arith, leb, if_ind, Option-cases, PyEq, nat_eq, length, take,
  All, length-append, length-take, elem, distinct, elem-append, All-append,
}
use pgs_search_engine.Base.Text.{Text, text_eq, codes, is_empty}
use pgs_search_engine.Database.Discovery.{
  Web, normalize_host, is_blocked, is_np, looks_nepali, max_redirects,
}
use pgs_search_engine.Database.Discovery.Requests.{Connection, Page, get_url}
use pgs_search_engine.Database.Discovery.Guard.{IsGuarded, get_within-IsGuarded}
use pgs_search_engine.Database.Discovery.Hosts.{
  Verified, robots_allow_all, verify_page, verify_with, verify_host, hosts_from, add_host,
  candidate_hosts, has_text,
}

module _ {ℓ} {A : Type ℓ} ⦃e : PyEq A⦄ where
  distinct-append_new :
      (a : A) (xs : List A)
      → distinct xs ≡ true
      → elem a xs ≡ false
      → distinct (xs ++ a ∷ []) ≡ true
  distinct-append_new a [] apart new = refl
  distinct-append_new a (x ∷ xs) apart new =
      ground
        (arith, elem-append x xs (a ∷ []), e.beq_iff a x, e.beq_iff x a, distinct-append_new a xs)

  elem-take : (a : A) (n : ℕ) (xs : List A) → elem a xs ≡ false → elem a (take n xs) ≡ false
  elem-take a zero xs h = refl
  elem-take a (suc n) [] h = refl
  elem-take a (suc n) (x ∷ xs) h = ground (arith, elem-take a n xs)

  distinct-take : (n : ℕ) (xs : List A) → distinct xs ≡ true → distinct (take n xs) ≡ true
  distinct-take zero xs h = refl
  distinct-take (suc n) [] h = refl
  distinct-take (suc n) (x ∷ xs) h = ground (arith, elem-take x n xs, distinct-take n xs)

All-take {ℓ κ} : {A : Type ℓ} (P : A → Type κ) (n : ℕ) (xs : List A) → All P xs → All P (take n xs)
All-take P zero xs h = tt
All-take P (suc n) [] h = tt
All-take P (suc n) (x ∷ xs) h = (h.0, All-take P n xs h.1)

module _ (web : Web) where
  -- At most `n` connections, each guarded.
  abbrev AreGuarded : Option Text → ℕ → List Connection → Type 0
  AreGuarded site n made = All (IsGuarded web site) made × (length made ≤ n)

  AreGuarded-append :
      (site : Option Text) (m n k : ℕ) (xs ys : List Connection)
      → m + n ≤ k
      → AreGuarded site m xs
      → AreGuarded site n ys
      → AreGuarded site k (xs ++ ys)
  AreGuarded-append site m n k xs ys h (all_xs, few) (all_ys, few') = (
    All-append (IsGuarded web site) xs ys all_xs all_ys,
    omega (arith, few, few', length-append xs ys),
  )

  get_url-AreGuarded :
      (call : ℕ) (scheme host path : Text)
      → AreGuarded (normalize_host web host) 4 (get_url web call scheme host path).0
  unfolding get_url
  get_url-AreGuarded call scheme host path =
      get_within-IsGuarded web (suc max_redirects) call scheme host path (normalize_host web host)
        refl

  verify_page-AreGuarded :
      (call : ℕ) (require_nepali : Bool) (host scheme : Text) (page : Page)
      → AreGuarded
          (normalize_host web host)
          4
          (verify_page web call require_nepali host scheme page).0
  unfolding verify_page robots_allow_all
  verify_page-AreGuarded call require_nepali host scheme page =
      if_ind (λ (r : List Connection × Option Verified). AreGuarded (normalize_host web host) 4 r.0)
        (leb 400 page.status
          || not (has_text (codes "html") (web.lower page.content_type))
          || (not (is_np host)
              && require_nepali
              && not (looks_nepali web (web.decode_utf8 page.body))))
        (λ _. (tt, omega arith)) (λ _. get_url-AreGuarded call scheme host (codes "/robots.txt"))

  verify_with-AreGuarded :
      (schemes : List Text) (call : ℕ) (require_nepali : Bool) (host : Text)
      → AreGuarded
          (normalize_host web host)
          (4 * length schemes + 4)
          (verify_with web schemes call require_nepali host).0
  unfolding verify_with
  verify_with-AreGuarded [] call require_nepali host = (tt, omega arith)
  verify_with-AreGuarded (scheme ∷ schemes) call require_nepali host =
      go (get_url web call scheme host (codes "/"))
        (get_url-AreGuarded call scheme host (codes "/"))
        (verify_with-AreGuarded schemes (call + 8) require_nepali host)
    where
      k : ℕ
      k = 4 * length (scheme ∷ schemes) + 4

      after : List Connection × Option Page → List Connection × Option Verified
      after (made, none) = (
        made ++ (verify_with web schemes (call + 8) require_nepali host).0,
        (verify_with web schemes (call + 8) require_nepali host).1,
      )
      after (made, some page) = (
        made ++ (verify_page web (call + 4) require_nepali host scheme page).0,
        (verify_page web (call + 4) require_nepali host scheme page).1,
      )

      go :
          (got : List Connection × Option Page)
          → AreGuarded (normalize_host web host) 4 got.0
          → AreGuarded
              (normalize_host web host)
              (4 * length schemes + 4)
              (verify_with web schemes (call + 8) require_nepali host).0
          → AreGuarded (normalize_host web host) k (after got).0
      go (made, none) first rest =
          AreGuarded-append (normalize_host web host) 4 (4 * length schemes + 4) k made
            (verify_with web schemes (call + 8) require_nepali host).0 (omega arith) first rest
      go (made, some page) first rest =
          AreGuarded-append (normalize_host web host) 4 4 k made
            (verify_page web (call + 4) require_nepali host scheme page).0 (omega arith) first
            (verify_page-AreGuarded (call + 4) require_nepali host scheme page)

  -- Whatever the network answers, and however it resolves a name the next time, checking a host makes
  -- at most 12 connections, each of them to an address that was found public and for a host with the
  -- same normal form.
  pub verify_host-IsGuarded :
      (call : ℕ) (require_nepali : Bool) (host : Text)
      → All (IsGuarded web (normalize_host web host)) (verify_host web call require_nepali host).0
        × (length (verify_host web call require_nepali host).0 ≤ 12)
  unfolding verify_host
  verify_host-IsGuarded call require_nepali host =
      verify_with-AreGuarded (codes "https" ∷ codes "http" ∷ []) call require_nepali host

  abbrev AreCandidates : List Text → Type 0
  AreCandidates hosts = (distinct hosts ≡ true) × All (λ host. is_blocked host ≡ false) hosts

  add_host-AreCandidates :
      (host : Text) (seen : List Text) → AreCandidates seen → AreCandidates (add_host web host seen)
  add_host-AreCandidates host seen (apart, allowed) =
      if_ind AreCandidates (is_empty host || is_blocked host || elem host seen)
        (λ _. (apart, allowed))
        (λ new. (
          distinct-append_new host seen apart (is_new (is_empty host) (is_blocked host) _ new),
          All-append (λ h. is_blocked h ≡ false) seen (host ∷ []) allowed
              (is_allowed (is_empty host) (is_blocked host) _ new, tt),
        ))
    where
      is_new : (a b c : Bool) → (a || b || c) ≡ false → c ≡ false
      is_new a b c h = ground arith

      is_allowed : (a b c : Bool) → (a || b || c) ≡ false → b ≡ false
      is_allowed a b c h = ground arith

  hosts_from-AreCandidates :
      (seen rows : List Text) → AreCandidates seen → AreCandidates (hosts_from web seen rows)
  unfolding hosts_from
  hosts_from-AreCandidates seen [] good = good
  hosts_from-AreCandidates seen (raw ∷ rows) good = elim (Option-cases (normalize_host web raw)) [
    | inl refused ↦ rw (hosts_from, refused) (hosts_from-AreCandidates seen rows good)
    | inr (host, normal) ↦
        rw (hosts_from, normal)
          (hosts_from-AreCandidates (add_host web host seen) rows
            (add_host-AreCandidates host seen good))
  ]

  -- No host stands twice among the candidates, none of them is of a blocked platform, and there are at
  -- most as many as the limit.
  pub candidate_hosts-distinct :
      (limit : ℕ) (rows : List Text)
      → (distinct (candidate_hosts web limit rows) ≡ true)
        × All (λ host. is_blocked host ≡ false) (candidate_hosts web limit rows)
        × (length (candidate_hosts web limit rows) ≤ limit)
  unfolding candidate_hosts
  candidate_hosts-distinct limit rows =
      let (apart, allowed) = hosts_from-AreCandidates [] rows (refl, tt) in
      (
        distinct-take limit (hosts_from web [] rows) apart,
        All-take (λ h. is_blocked h ≡ false) limit (hosts_from web [] rows) allowed,
        omega (arith, length-take limit (hosts_from web [] rows)),
      )
