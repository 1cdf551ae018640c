-- ===== src/Database/Pages/Newest.antt =====
-- database/src/pgs_db/repositories/silver.py: what is left of a URL that was crawled many times, in
-- whatever order the crawls are saved.
use pgs_search_engine.Base.{
  ℕ, ◌≤◌, ◌≡◌, refl, ap, inl, inr, Bool, true, Option, none, some, List, [], ◌∷◌, ◌++◌, arith, leb,
  if◌then◌else◌, leb→le, Bool-cases, nat_eq, beq_self, All, find, update_if,
}
use pgs_search_engine.Base.Text.{Text, text_eq}
use pgs_search_engine.Base.Int.{ℤ}
use pgs_search_engine.Database.Pages.{Page, PageRow, is_not_older, new_page, updated_page, has_url}
use pgs_search_engine.Database.Pages.Save.{upsert_page}

module _ {ℓ} {A : Type ℓ} (p : A → Bool) where
  find-append_new :
      (xs : List A) (y : A) → find p xs ≡ none → p y ≡ true → find p (xs ++ y ∷ []) ≡ some y
  find-append_new [] y h k = ground arith
  find-append_new (x ∷ xs) y h k = ground (arith, find-append_new xs y)

  find-update_if :
      (f : A → A) (xs : List A) (x : A)
      → ((y : A) → p y ≡ true → p (f y) ≡ true)
      → find p xs ≡ some x
      → find p (update_if p f xs) ≡ some (f x)
  find-update_if f [] x same h = cc
  find-update_if f (y ∷ xs) x same h = elim (Bool-cases (p y)) [
    | inl here ↦ ground (arith, same y here)
    | inr later ↦ ground (arith, find-update_if f xs x same)
  ]

-- One crawl of a URL as it is saved: when, with which free id, from which row of Bronze.
pub record Crawl {ℓ} (Body : Type ℓ) : Type ℓ where
  pub now : ℕ
  pub next_id : ℕ
  pub document : ℕ
  pub content_hash : Text
  pub sim_hash : Option ℤ
  pub body : Body

module _ {ℓ} {Body : Type ℓ} (url : Text) where
  abbrev pub row_of : Crawl Body → PageRow Body
  row_of crawl = record {
    crawled_document_id = some crawl.document;
    stored_file_id = none;
    canonical_url = url;
    content_hash = crawl.content_hash;
    sim_hash = crawl.sim_hash;
    body = crawl.body;
  }

  abbrev pub save_crawls : List (Crawl Body) → List (Page Body) → List (Page Body)
  save_crawls [] pages = pages
  save_crawls (crawl ∷ crawls) pages =
      save_crawls crawls (upsert_page crawl.now crawl.next_id (row_of crawl) pages).0

-- What a page holds of its source.
abbrev pub Content {ℓ} : Type ℓ → Type ℓ
Content Body = Option ℕ × Option ℕ × Text × Option ℤ × Body

module _ {ℓ} {Body : Type ℓ} where
  abbrev pub page_content : Page Body → Content Body
  page_content page =
      (page.crawled_document_id, page.stored_file_id, page.content_hash, page.sim_hash, page.body)

  abbrev pub crawl_content : Crawl Body → Content Body
  crawl_content crawl = (some crawl.document, none, crawl.content_hash, crawl.sim_hash, crawl.body)

  -- The crawl with the greatest document id; the last of them, if two have it.
  abbrev pub newest : Crawl Body → List (Crawl Body) → Crawl Body
  newest best [] = best
  newest best (crawl ∷ crawls) =
      newest (if leb best.document crawl.document then crawl else best) crawls

  upsert_page-first :
      (url : Text) (crawl : Crawl Body) (pages : List (Page Body))
      → find (has_url url) pages ≡ none
      → find (has_url url) (upsert_page crawl.now crawl.next_id (row_of url crawl) pages).0
        ≡ some (new_page crawl.now crawl.next_id (row_of url crawl))
  unfolding upsert_page
  upsert_page-first url crawl pages h =
      rw (upsert_page, h)
        (find-append_new (has_url url) pages (new_page crawl.now crawl.next_id (row_of url crawl)) h
          (beq_self url))

  is_not_older-crawl :
      (url : Text) (best crawl : Crawl Body) (page : Page Body)
      → page_content page ≡ crawl_content best
      → is_not_older page (row_of url crawl) ≡ leb best.document crawl.document
  unfolding is_not_older
  is_not_older-crawl url best crawl page k =
      rw (ap (λ (c : Content Body). c.0) k, ap (λ (c : Content Body). c.1) k) (ground arith)

  upsert_page-again :
      (url : Text) (best crawl : Crawl Body) (pages : List (Page Body)) (page : Page Body)
      → find (has_url url) pages ≡ some page
      → page_content page ≡ crawl_content best
      → (q : Page Body) × (find
            (has_url url)
            (upsert_page crawl.now crawl.next_id (row_of url crawl) pages).0
          ≡ some q)
        × (page_content q
            ≡ crawl_content (if leb best.document crawl.document then crawl else best))
  unfolding upsert_page
  upsert_page-again url best crawl pages page h k =
      elim (Bool-cases (leb best.document crawl.document)) [
        | inl newer ↦
            rw (upsert_page, h, is_not_older-crawl url best crawl page k, newer)
              (
                updated_page crawl.now (row_of url crawl) page,
                find-update_if (has_url url) (updated_page crawl.now (row_of url crawl)) pages page
                    (λ y same. same) h,
                refl,
              )
        | inr older ↦
            rw (upsert_page, h, is_not_older-crawl url best crawl page k, older) (page, h, k)
      ]

  save_crawls-newest :
      (url : Text) (best : Crawl Body) (crawls : List (Crawl Body)) (pages : List (Page Body))
      (page : Page Body)
      → find (has_url url) pages ≡ some page
      → page_content page ≡ crawl_content best
      → (q : Page Body) × (find (has_url url) (save_crawls url crawls pages) ≡ some q)
        × (page_content q ≡ crawl_content (newest best crawls))
  save_crawls-newest url best [] pages page h k = (page, h, k)
  save_crawls-newest url best (crawl ∷ crawls) pages page h k =
      let (q, found, content) = upsert_page-again url best crawl pages page h k in
      save_crawls-newest url (if leb best.document crawl.document then crawl else best) crawls
        (upsert_page crawl.now crawl.next_id (row_of url crawl) pages).0 q found content

module _ {ℓ} {Body : Type ℓ} where
  -- What the table holds of a URL.
  abbrev pub content_at : Text → List (Page Body) → Option (Content Body)
  content_at url pages = elim (find (has_url url) pages) [
    | none ↦ none
    | some page ↦ some (page_content page)
  ]

  -- What `newest` goes on with.
  abbrev pub newer : Crawl Body → Crawl Body → Crawl Body
  newer best crawl = if leb best.document crawl.document then crawl else best

  newer-above :
      (best crawl : Crawl Body)
      → (best.document ≤ (newer best crawl).document)
        × (crawl.document ≤ (newer best crawl).document)
  newer-above best crawl = elim (Bool-cases (leb best.document crawl.document)) [
    | inl later ↦ rw (newer, later) (leb→le best.document crawl.document later, omega arith)
    | inr older ↦ rw (newer, older) (omega arith, ground arith)
  ]

  newest-above :
      (best : Crawl Body) (crawls : List (Crawl Body))
      → (best.document ≤ (newest best crawls).document)
        × All (λ (c : Crawl Body). c.document ≤ (newest best crawls).document) crawls
  newest-above best [] = (omega arith, tt)
  newest-above best (crawl ∷ crawls) =
      let (first, others) = newest-above (newer best crawl) crawls in
      let (older, later) = newer-above best crawl in
      (omega (arith, first, older), (omega (arith, first, later), others))

  -- After a URL's crawls have been saved, at least one and in any order, into a table that has no
  -- page of the URL, the table's page of it holds the source, the hashes and the body of the crawl
  -- with the greatest document id, which no crawl of them exceeds.
  pub upsert_page-newest :
      (url : Text) (first : Crawl Body) (crawls : List (Crawl Body)) (pages : List (Page Body))
      → find (has_url url) pages ≡ none
      → (content_at url (save_crawls url (first ∷ crawls) pages)
          ≡ some (crawl_content (newest first crawls)))
        × All (λ (c : Crawl Body). c.document ≤ (newest first crawls).document) (first ∷ crawls)
  upsert_page-newest url first crawls pages h =
      let (q, found, content) =
        save_crawls-newest url first crawls
          (upsert_page first.now first.next_id (row_of url first) pages).0
          (new_page first.now first.next_id (row_of url first))
          (upsert_page-first url first pages h) refl in
      (rw (content_at, found) (ap some content), newest-above first crawls)
