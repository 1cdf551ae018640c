-- ===== src/Database/Discovery/Tests.antt =====
-- database/src/pgs_db/discovery.py: runs, and the theorems at concrete inputs.
use pgs_search_engine.Base.{
  ◌≤◌, ◌≡◌, refl, true, false, none, some, List, [], ◌∷◌, if◌then◌else◌, ◌==◌, nat_eq, length, All,
  distinct,
}
use pgs_search_engine.Base.Text.{Text, text_eq, codes, strip}
use pgs_search_engine.Database.Discovery.{Web, normalize_host, is_blocked, category_for, government}
use pgs_search_engine.Database.Discovery.Requests.{get_url}
use pgs_search_engine.Database.Discovery.Guard.{IsGuarded}
use pgs_search_engine.Database.Discovery.Hosts.{verify_host, candidate_hosts}
use pgs_search_engine.Database.Discovery.Checks.{verify_host-IsGuarded, candidate_hosts-distinct}

abbrev public_ip : Text
public_ip = codes "1.2.3.4"

-- The site redirects to its `www` name, which the resolver places in the local network from the second
-- question on.
abbrev toy_web : Web
toy_web = record {
  lower = λ t. t;
  idna = λ t. some t;
  resolve = λ call host. if call == 0 then some (public_ip ∷ []) else some (codes "10.0.0.1" ∷ []);
  is_global = λ a. a == public_ip;
  request = λ call scheme host address path.
      some (record { status = 301; location = some (codes "www"); content_type = []; body = [] });
  urlsplit = λ location. some (record {
    scheme = [];
    hostname = some (codes "www.moha.gov.np");
    path = codes "/";
    query = [];
  });
  decode_utf8 = λ bytes. bytes;
  can_fetch = λ body agent path. true;
  lang_of = λ html. none;
  nepal_words = λ html. 0;
  title_of = λ html. none;
}

normalize_host_test :
    (normalize_host toy_web (codes " www.moha.gov.np. ") ≡ some (codes "moha.gov.np"))
    × (normalize_host toy_web (codes "10.0.0.1") ≡ none)
unfolding normalize_host strip
normalize_host_test = (refl, refl)

is_blocked_test : (is_blocked (codes "m.x.com") ≡ true) × (is_blocked (codes "max.com") ≡ false)
unfolding is_blocked
is_blocked_test = (refl, refl)

category_for_test : category_for (codes "moha.gov.np") ≡ government
unfolding category_for
category_for_test = refl

-- The redirect is followed, but no connection is made to the local address.
get_url_test :
    get_url toy_web 0 (codes "https") (codes "moha.gov.np") (codes "/")
    ≡ (record { host = codes "moha.gov.np"; address = public_ip } ∷ [], none)
unfolding get_url strip
get_url_test = refl

verify_host-IsGuarded_example :
    All
      (IsGuarded toy_web (normalize_host toy_web (codes "moha.gov.np")))
      (verify_host toy_web 0 true (codes "moha.gov.np")).0
    × (length (verify_host toy_web 0 true (codes "moha.gov.np")).0 ≤ 12)
verify_host-IsGuarded_example = verify_host-IsGuarded toy_web 0 true (codes "moha.gov.np")

abbrev rows : List Text
rows = codes "www.a.np" ∷ codes "x.com" ∷ codes "a.np" ∷ codes "b.np" ∷ []

candidate_hosts_test : candidate_hosts toy_web 5 rows ≡ codes "a.np" ∷ codes "b.np" ∷ []
unfolding candidate_hosts strip
candidate_hosts_test = refl

candidate_hosts-distinct_example :
    (distinct (candidate_hosts toy_web 5 rows) ≡ true)
    × All (λ host. is_blocked host ≡ false) (candidate_hosts toy_web 5 rows)
    × (length (candidate_hosts toy_web 5 rows) ≤ 5)
candidate_hosts-distinct_example = candidate_hosts-distinct toy_web 5 rows
