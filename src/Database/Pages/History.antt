-- ===== src/Database/Pages/History.antt =====
-- database/src/pgs_db/repositories/silver.py: the state that every `save_page` leaves.
use pgs_search_engine.Base.{
  if◌then◌else◌, subst, not, ◌||◌, if_ind, ℕ, suc, ◌≤◌, ◌<◌, ◌≡◌, refl, ◌∙◌, inl, inr, Bool, true,
  false, ◌&&◌, Option, none, some, List, [], ◌∷◌, ◌++◌, arith, Bool-cases, Option-cases, ◌==◌,
  nat_eq, beq_self, any, All, find, update_if, All-map, All-append, All-update_if,
}
use pgs_search_engine.Base.Partial.{
  WhenSome, refused, gives, WhenSome-bind, WhenSome-bind_with, from_gives, ◌or_else◌,
}
use pgs_search_engine.Database.Pages.{
  blank_to_none, source_info, ℤ, Payload, page_row, Bronze, Page, PageRow, PageSource, Silver,
  is_not_older, new_page, updated_page, has_url, record_source, option_beq,
}
use pgs_search_engine.Database.Pages.Save.{
  is_set, save_page, id_at, SaveResult, upsert_page, hash_at, write_page,
}
use pgs_search_engine.Base.Text.{Text, text_eq}
use pgs_search_engine.Base.Distinct.{has_key, once, once-append_new, once-update_if}

-- The URLs and the ids tell the pages apart, a version is at least 1, and every id is below the next.
pub record AreKept {ℓ} {Body : Type ℓ} (next_id : ℕ) (pages : List (Page Body)) : Type ℓ where
  pub urls : once (λ (p : Page Body). p.canonical_url) pages ≡ true
  pub ids : once (λ (p : Page Body). p.id) pages ≡ true
  pub below : All (λ (p : Page Body). (p.id < next_id) × (1 ≤ p.version)) pages

abbrev pub IsValid {ℓ} : {Body Children : Type ℓ} → Silver Body Children → Type ℓ
IsValid db = AreKept db.next_page_id db.pages

find-none {ℓ} : {A : Type ℓ} (p : A → Bool) (xs : List A) → find p xs ≡ none → any p xs ≡ false
find-none p [] h = refl
find-none p (x ∷ xs) h = ground (arith, find-none p xs)

module _ {ℓ} {Body : Type ℓ} where
  new_id :
      (n : ℕ) (pages : List (Page Body))
      → All (λ (p : Page Body). (p.id < n) × (1 ≤ p.version)) pages
      → has_key (λ (p : Page Body). p.id) n pages ≡ false
  new_id n [] h = refl
  new_id n (page ∷ pages) h = ground (arith, new_id n pages h.1, h.0.0)

  append-AreKept :
      (now n : ℕ) (row : PageRow Body) (pages : List (Page Body))
      → find (has_url row.canonical_url) pages ≡ none
      → AreKept n pages
      → AreKept (suc n) (pages ++ new_page now n row ∷ [])
  append-AreKept now n row pages missing kept = record {
    urls =
        once-append_new (λ (p : Page Body). p.canonical_url) pages (new_page now n row) kept.urls
          (find-none (has_url row.canonical_url) pages missing);
    ids =
        once-append_new (λ (p : Page Body). p.id) pages (new_page now n row) kept.ids
          (new_id n pages kept.below);
    below =
        All-append (λ (p : Page Body). (p.id < suc n) × (1 ≤ p.version)) pages
          (new_page now n row ∷ []) (All-map (λ p h. (omega (arith, h.0), h.1)) pages kept.below)
          ((omega arith, omega arith), tt);
  }

  update-AreKept :
      (now n : ℕ) (row : PageRow Body) (url : Text) (pages : List (Page Body))
      → AreKept n pages
      → AreKept n (update_if (has_url url) (updated_page now row) pages)
  update-AreKept now n row url pages kept = record {
    urls =
        once-update_if (λ (p : Page Body). p.canonical_url) (has_url url) (updated_page now row)
          (λ p. refl) pages
        ∙ kept.urls;
    ids =
        once-update_if (λ (p : Page Body). p.id) (has_url url) (updated_page now row) (λ p. refl)
          pages
        ∙ kept.ids;
    below =
        All-update_if (λ (p : Page Body). (p.id < n) × (1 ≤ p.version)) (has_url url)
          (updated_page now row) (λ p h. (h.0, ground (arith, h.1))) pages kept.below;
  }

-- The three ends of an upsert.
module _ {ℓ} {Body : Type ℓ} (now n : ℕ) (row : PageRow Body) (pages : List (Page Body)) where
  upsert_page-missing :
      find (has_url row.canonical_url) pages ≡ none
      → upsert_page now n row pages
        ≡ (pages ++ new_page now n row ∷ [], some (record { id = n; inserted = true }))
  unfolding upsert_page
  upsert_page-missing missing = rw (upsert_page, missing) refl

  upsert_page-newer :
      (page : Page Body)
      → find (has_url row.canonical_url) pages ≡ some page
      → is_not_older page row ≡ true
      → upsert_page now n row pages ≡ (
        update_if (has_url row.canonical_url) (updated_page now row) pages,
        some (record { id = page.id; inserted = false }),
      )
  unfolding upsert_page
  upsert_page-newer page found newer = rw (upsert_page, found, newer) refl

  upsert_page-older :
      (page : Page Body)
      → find (has_url row.canonical_url) pages ≡ some page
      → is_not_older page row ≡ false
      → upsert_page now n row pages ≡ (pages, none)
  unfolding upsert_page
  upsert_page-older page found older = rw (upsert_page, found, older) refl

-- The history has the row's source for the page.
abbrev pub is_recorded : ℕ → Option ℕ → Option ℕ → List PageSource → Bool
is_recorded page_id document file sources =
    any
      (λ (s : PageSource).
        (s.page_id == page_id)
        && option_beq s.crawled_document_id document
        && option_beq s.stored_file_id file)
      sources

any-append_here {ℓ} :
    {A : Type ℓ} (p : A → Bool) (xs : List A) (y : A) → p y ≡ true → any p (xs ++ y ∷ []) ≡ true
any-append_here p [] y h = ground arith
any-append_here p (x ∷ xs) y h = ground (arith, any-append_here p xs y h)

option_beq_refl : (o : Option ℕ) → option_beq o o ≡ true
option_beq_refl none = refl
option_beq_refl (some n) = beq_self n

record_source-is_recorded {ℓ} :
    {Body : Type ℓ} (id seen_at : ℕ) (row : PageRow Body) (hash : Option Text)
    (sources : List PageSource)
    → is_recorded id row.crawled_document_id row.stored_file_id
        (record_source id row seen_at hash sources)
      ≡ true
unfolding record_source
record_source-is_recorded id seen_at row hash sources =
    elim (Bool-cases (is_recorded id row.crawled_document_id row.stored_file_id sources)) [
      | inl there ↦ rw (is_recorded, record_source, there) there
      | inr new ↦ rw (record_source, new) (any-append_here _ sources _ same_source)
    ]
  where
    same_source :
        ((id == id)
          && option_beq row.crawled_document_id row.crawled_document_id
          && option_beq row.stored_file_id row.stored_file_id)
        ≡ true
    same_source = ground (
      arith,
      beq_self id,
      option_beq_refl row.crawled_document_id,
      option_beq_refl row.stored_file_id,
    )

abbrev IsFrom {ℓ} : {Body : Type ℓ} → Option ℕ → Option ℕ → PageRow Body → Type 0
IsFrom document file row = (row.crawled_document_id ≡ document) × (row.stored_file_id ≡ file)

module _ {ℓ} {Body Children : Type ℓ} where
  -- A valid state, in which the history has the source for the page that was saved.
  abbrev IsRecorded : Option ℕ → Option ℕ → SaveResult × Silver Body Children → Type ℓ
  IsRecorded document file (saved, db) =
      IsValid db × (is_recorded saved.id document file db.sources ≡ true)

  page_row-IsFrom :
      (payload : Payload Body Children) (document file : Option ℕ) (fallback hash : Option Text)
      (sim_hash : Option ℤ)
      → WhenSome (IsFrom document file) (page_row payload document file fallback hash sim_hash)
  unfolding page_row
  page_row-IsFrom payload document file fallback hash sim_hash =
      WhenSome-bind
        (blank_to_none payload.canonical_url
          or_else blank_to_none payload.source_url
          or_else fallback)
        (λ url.
          WhenSome-bind
            (blank_to_none payload.body_text or_else blank_to_none payload.searchable_text)
            (λ text.
              WhenSome-bind (blank_to_none hash or_else blank_to_none payload.content_hash)
                (λ found. WhenSome-bind payload.body (λ body.
                  WhenSome-bind (elim sim_hash [ none ↦ payload.sim_hash | some z ↦ some (some z) ])
                    (λ stored. gives (refl, refl))))))

  module _ (replace_children : Option Children → Children → Children) (bronze : Bronze) where
    after_upsert-IsRecorded :
        (now seen_at : ℕ) (row : PageRow Body) (children : Option Children)
        (db : Silver Body Children)
        → IsValid db
        → WhenSome
            (IsRecorded row.crawled_document_id row.stored_file_id)
            (write_page replace_children bronze now seen_at row children db)
    unfolding write_page
    after_upsert-IsRecorded now seen_at row children db valid =
        let hash = hash_at row.canonical_url db.pages in
        let recorded = λ (id : ℕ). record_source-is_recorded id seen_at row hash db.sources in
        elim (Option-cases (find (has_url row.canonical_url) db.pages)) [
          | inl missing ↦
              rw (write_page, upsert_page-missing now db.next_page_id row db.pages missing)
                (gives (
                  append-AreKept now db.next_page_id row db.pages missing valid,
                  recorded db.next_page_id,
                ))
          | inr (page, found) ↦ elim (Bool-cases (is_not_older page row)) [
            | inl newer ↦
                rw (write_page, upsert_page-newer now db.next_page_id row db.pages page found newer)
                  (gives (
                    update-AreKept now db.next_page_id row row.canonical_url db.pages valid,
                    recorded page.id,
                  ))
            | inr older ↦
                rw (write_page, upsert_page-older now db.next_page_id row db.pages page found older)
                  (WhenSome-bind (id_at row.canonical_url db.pages)
                    (λ id. gives (valid, recorded id)))
          ]
        ]

    save_page-WhenSome :
        (now : ℕ) (payload : Payload Body Children) (document file : Option ℕ) (hash : Option Text)
        (sim_hash : Option ℤ) (replaces : Bool) (db : Silver Body Children)
        → IsValid db
        → WhenSome
            (IsRecorded document file)
            (save_page replace_children bronze now payload document file hash sim_hash replaces db)
    unfolding save_page
    save_page-WhenSome now payload document file hash sim_hash replaces db valid =
        if_ind (WhenSome (IsRecorded document file))
          (is_set document && is_set file || not (is_set document) && not (is_set file))
          (λ _. refused)
          (λ _. WhenSome-bind (source_info bronze document file) (λ source.
            WhenSome-bind_with (page_row-IsFrom payload document file source.0 hash sim_hash)
              (λ row from.
                WhenSome-bind
                  (if replaces
                    then (elim payload.children [ none ↦ none | some rows ↦ some (some rows) ])
                    else some none)
                  (λ children. at_source row children source.1 from))))
      where
        at_source :
            (row : PageRow Body) (children : Option Children) (seen_at : ℕ)
            → IsFrom document file row
            → WhenSome
                (IsRecorded document file)
                (write_page replace_children bronze now seen_at row children db)
        at_source row children seen_at from =
            let result = write_page replace_children bronze now seen_at row children db in
            subst (λ d. WhenSome (IsRecorded d file) result) from.0
              (subst (λ f. WhenSome (IsRecorded row.crawled_document_id f) result) from.1
                (after_upsert-IsRecorded now seen_at row children db valid))

    -- A save that succeeds leaves the URLs and the ids of the pages apart, every id below the next
    -- and every version at least 1, if they were so before, and the page's history has the source it
    -- was given, also where the source is too old to change the page.
    pub save_page-IsRecorded :
        (now : ℕ) (payload : Payload Body Children) (document file : Option ℕ) (hash : Option Text)
        (sim_hash : Option ℤ) (replaces : Bool) (db : Silver Body Children)
        (result : SaveResult × Silver Body Children)
        → IsValid db
        → save_page replace_children bronze now payload document file hash sim_hash replaces db
          ≡ some result
        → IsValid result.1 × (is_recorded result.0.id document file result.1.sources ≡ true)
    save_page-IsRecorded now payload document file hash sim_hash replaces db result valid saves =
        from_gives result
          (save_page-WhenSome now payload document file hash sim_hash replaces db valid) saves
