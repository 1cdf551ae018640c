-- ===== src/Database/Pages/Save.antt =====
-- database/src/pgs_db/repositories/silver.py: `save_page`.
use pgs_search_engine.Base.{
  ℕ, suc, Bool, true, false, not, ◌&&◌, ◌||◌, Option, none, some, List, [], ◌∷◌, ◌++◌,
  if◌then◌else◌, nat_eq, find, update_if,
}
use pgs_search_engine.Base.Text.{Text, text_eq}
use pgs_search_engine.Base.Dict.{lookup, insert}
use pgs_search_engine.Base.Partial.{◌>>=◌}
use pgs_search_engine.Base.Int.{ℤ}
use pgs_search_engine.Database.Pages.{
  Bronze, Page, PageRow, Silver, Payload, source_info, is_not_older, page_row, new_page,
  updated_page, has_url, record_source,
}

pub record SaveResult : Type 0 where
  pub id : ℕ
  pub inserted : Bool

module _ {ℓ} {Body : Type ℓ} where
  -- INSERT ... ON CONFLICT (canonical_url) DO UPDATE ... WHERE `_is_not_older`. The row that comes
  -- back is None when the WHERE refused it.
  unfoldable pub upsert_page :
      ℕ → ℕ → PageRow Body → List (Page Body) → List (Page Body) × Option SaveResult
  unfolding is_not_older
  upsert_page now next_id row pages = elim (find (has_url row.canonical_url) pages) [
    | none ↦
        (pages ++ new_page now next_id row ∷ [], some (record { id = next_id; inserted = true }))
    | some page ↦
        if is_not_older page row
        then (
          update_if (has_url row.canonical_url) (updated_page now row) pages,
          some (record { id = page.id; inserted = false }),
        )
        else (pages, none)
  ]

  -- `select(Page.content_hash).where(Page.canonical_url == url)`, and the same for the id
  abbrev pub hash_at : Text → List (Page Body) → Option Text
  hash_at url pages = elim (find (has_url url) pages) [
    | none ↦ none
    | some page ↦ some page.content_hash
  ]

  abbrev pub id_at : Text → List (Page Body) → Option ℕ
  id_at url pages = elim (find (has_url url) pages) [ none ↦ none | some page ↦ some page.id ]

abbrev pub is_set : Option ℕ → Bool
is_set none = false
is_set (some _) = true

module _ {ℓ} {Body Children : Type ℓ} (replace_children : Option Children → Children → Children)
    (bronze : Bronze) where
  -- The writes of `save_page` after its upsert.
  abbrev pub after_upsert :
      ℕ
      → PageRow Body
      → Option Children
      → Option Text
      → Silver Body Children
      → List (Page Body) × Option SaveResult
      → Option (SaveResult × Silver Body Children)
  after_upsert seen_at row children previous_hash db (pages, none) = do
    page_id ← id_at row.canonical_url pages
    some (
      record { id = page_id; inserted = false },
      record {
        pages = pages;
        next_page_id = db.next_page_id;
        sources = record_source page_id row seen_at previous_hash db.sources;
        children = db.children;
      },
    )
  after_upsert seen_at row children previous_hash db (pages, some saved) = some (
    saved,
    record {
      pages = pages;
      next_page_id = if saved.inserted then suc db.next_page_id else db.next_page_id;
      sources = record_source saved.id row seen_at previous_hash db.sources;
      children = elim children [
        | none ↦ db.children
        | some rows ↦
            insert saved.id (replace_children (lookup saved.id db.children) rows) db.children
      ];
    },
  )

  -- The writes of `save_page`, once its arguments are checked.
  unfoldable pub write_page :
      ℕ
      → ℕ
      → PageRow Body
      → Option Children
      → Silver Body Children
      → Option (SaveResult × Silver Body Children)
  unfolding upsert_page record_source
  write_page now seen_at row children db =
      after_upsert seen_at row children (hash_at row.canonical_url db.pages) db
        (upsert_page now db.next_page_id row db.pages)

  -- None is an exception, which leaves the transaction without a write: not exactly one source, a
  -- source that is not there (a foreign key), or a payload that is refused. `children` of None is
  -- `replace_children=False`.
  unfoldable pub save_page :
      ℕ
      → Payload Body Children
      → Option ℕ
      → Option ℕ
      → Option Text
      → Option ℤ
      → Bool
      → Silver Body Children
      → Option (SaveResult × Silver Body Children)
  unfolding source_info page_row write_page
  save_page now payload document file content_hash sim_hash replaces db =
      if is_set document && is_set file || not (is_set document) && not (is_set file)
      then none
      else do
        (fallback_url, seen_at) ← source_info bronze document file
        row ← page_row payload document file fallback_url content_hash sim_hash
        children ←
            if replaces
            then (elim payload.children [ none ↦ none | some rows ↦ some (some rows) ])
            else some none
        write_page now seen_at row children db
