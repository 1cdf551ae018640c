-- ===== src/Database/Pages/Tests.antt =====
-- The pages of Silver: runs, and the theorems at concrete inputs.
use pgs_search_engine.Database.Pages.Folding.{
  IsRow, fold_duplicate-points_down, fold_duplicate-original,
}
use pgs_search_engine.Base.Text.{strip, Text, text_eq, codes}
use pgs_search_engine.Base.{
  ℕ, ◌+◌, ◌-◌, ◌^◌, ◌≤◌, ◌<◌, ◌≡◌, refl, Bool, true, false, Option, none, some, List, [], ◌∷◌,
  arith, ⊤, leb, max, nat_eq, All, update_if,
}
use pgs_search_engine.Base.Int.{ℤ, pos, negsuc}
use pgs_search_engine.Database.Queue.{unprocessed}
use pgs_search_engine.Database.Pages.Items.{
  EntityItem, EntityRow, Floats, MediaItem, MediaRow, entity_key, image, media_rows, person,
}
use pgs_search_engine.Database.Pages.Entities.{
  entity_rows, item_mentions, mentions, entity_rows-mentions,
}
use pgs_search_engine.Database.Pages.{Bronze, Page, Silver, Payload}
use pgs_search_engine.Database.Pages.Simhash.{signed_simhash, unsigned_simhash}
use pgs_search_engine.Database.Pages.Save.{SaveResult, upsert_page, save_page}
use pgs_search_engine.Database.Pages.Newest.{
  Crawl, content_at, save_crawls, crawl_content, newest, upsert_page-newest,
}
use pgs_search_engine.Database.Pages.History.{IsValid, is_recorded, save_page-IsRecorded}
use pgs_search_engine.Database.Pages.Duplicates.{
  has_id, is_same_content, set_duplicate, fold_duplicate, hamming,
}
use pgs_search_engine.Database.Pages.Originals.{AllPointDown}

abbrev crawl : ℕ → ℕ → Crawl ⊤
crawl now document = record {
  now = now;
  next_id = 1;
  document = document;
  content_hash = document ∷ [];
  sim_hash = none;
  body = tt;
}

-- The crawl 4 is saved last, and the page keeps crawl 9.
save_crawls_test :
    content_at (codes "u") (save_crawls (codes "u") (crawl 1 3 ∷ crawl 2 9 ∷ crawl 3 4 ∷ []) [])
    ≡ some (crawl_content (crawl 2 9))
unfolding upsert_page
save_crawls_test = refl

upsert_page-newest_example :
    (content_at (codes "u") (save_crawls (codes "u") (crawl 1 3 ∷ crawl 2 9 ∷ crawl 3 4 ∷ []) [])
      ≡ some (crawl_content (newest (crawl 1 3) (crawl 2 9 ∷ crawl 3 4 ∷ []))))
    × All
        (λ (c : Crawl ⊤). c.document ≤ (newest (crawl 1 3) (crawl 2 9 ∷ crawl 3 4 ∷ [])).document)
        (crawl 1 3 ∷ crawl 2 9 ∷ crawl 3 4 ∷ [])
upsert_page-newest_example =
    upsert_page-newest (codes "u") (crawl 1 3) (crawl 2 9 ∷ crawl 3 4 ∷ []) [] refl

abbrev bronze : Bronze
bronze = record {
  crawled_documents = (4, (codes "u", 10)) ∷ (9, (codes "u", 20)) ∷ [];
  stored_files = [];
}

abbrev page : ℕ → Text → Option ℕ → Page ⊤
page id hash original = record {
  id = id;
  crawled_document_id = some (8 + id);
  stored_file_id = none;
  canonical_url = hash;
  content_hash = hash;
  sim_hash = none;
  body = tt;
  version = 1;
  first_seen_at = 0;
  last_seen_at = 0;
  duplicate_of_id = original;
  processing_status = unprocessed;
  processing_error = none;
}

abbrev db : Silver ⊤ ⊤
db = record { pages = page 1 (codes "u") none ∷ []; next_page_id = 2; sources = []; children = [] }

abbrev payload : Payload ⊤ ⊤
payload = record {
  canonical_url = none;
  source_url = none;
  body_text = none;
  searchable_text = some (codes "text");
  content_hash = some (codes "h");
  sim_hash = some none;
  body = some tt;
  children = some tt;
}

abbrev keep_new : Option ⊤ → ⊤ → ⊤
keep_new _ rows = rows

-- The document 4 is older than the page's source, 9: only the history is written.
abbrev after : SaveResult × Silver ⊤ ⊤
after = (
  record { id = 1; inserted = false },
  record {
    pages = page 1 (codes "u") none ∷ [];
    next_page_id = 2;
    sources =
        record {
          page_id = 1;
          crawled_document_id = some 4;
          stored_file_id = none;
          fetched_at = 10;
          content_changed = true;
        }
        ∷ [];
    children = [];
  },
)

db-IsValid : IsValid db
db-IsValid = record { urls = refl; ids = refl; below = ((omega arith, omega arith), tt) }

saves : save_page keep_new bronze 99 payload (some 4) none none none true db ≡ some after
unfolding save_page strip
saves = refl

save_page-IsRecorded_example :
    IsValid after.1 × (is_recorded after.0.id (some 4) none after.1.sources ≡ true)
save_page-IsRecorded_example =
    save_page-IsRecorded keep_new bronze 99 payload (some 4) none none none true db after db-IsValid
      saves

both_sources_test : save_page keep_new bronze 99 payload (some 4) (some 5) none none true db ≡ none
unfolding save_page
both_sources_test = refl

abbrev copies : List (Page ⊤)
copies = page 3 (codes "a") none ∷ page 1 (codes "a") none ∷ page 2 (codes "a") none ∷ []

abbrev folded : Bool × List (Page ⊤)
folded =
    (true, page 3 (codes "a") (some 1) ∷ page 1 (codes "a") none ∷ page 2 (codes "a") none ∷ [])

folds : fold_duplicate 3 copies ≡ some folded
unfolding fold_duplicate
folds = refl

fold_duplicate-points_down_example : AllPointDown folded.1
fold_duplicate-points_down_example =
    fold_duplicate-points_down 3 copies folded (refl, (refl, (refl, tt))) folds

fold_duplicate-original_example :
    (original : Page ⊤) × (fold_duplicate 3 copies
      ≡ some (true, update_if (has_id 3) (set_duplicate (some original.id)) copies))
    × (original.id < 3)
    × (is_same_content (codes "a") 3 original ≡ true)
    × IsRow copies original
fold_duplicate-original_example = fold_duplicate-original (page 3 (codes "a") none) copies refl refl

-- Go's `int64(^uint64(0))` is -1.
signed_simhash_test :
    (signed_simhash (pos (2 ^ 64 - 1)) ≡ negsuc 0)
    × (unsigned_simhash (negsuc 0) ≡ pos (2 ^ 64 - 1))
unfolding signed_simhash unsigned_simhash
signed_simhash_test = (refl, refl)

hamming_test : hamming (negsuc 0) (pos 0) ≡ 64
unfolding hamming
hamming_test = refl

-- A salience in hundredths.
abbrev hundredths : Floats ℕ
hundredths = record { zero_point = 0; in_unit = λ x. leb x 100; larger = max }

abbrev mention : Text → Option ℤ → Option ℕ → EntityItem ℕ
mention name count salience = record {
  entity_type = codes "PERSON";
  name_en = some name;
  name_ne = none;
  name = none;
  key = none;
  mention_count = count;
  salience = salience;
}

-- Two spellings of one name, and another name.
abbrev mentioned : List (EntityItem ℕ)
mentioned =
    mention (codes "ram  thapa") (some (pos 2)) (some 40)
    ∷ mention (codes "sita") none none
    ∷ mention (codes " ram thapa") none (some 70)
    ∷ []

abbrev entity : Text → Text → ℕ → Option ℕ → EntityRow ℕ
entity key name count salience = record {
  normalized_key = key;
  entity_type = person;
  name_en = some name;
  name_ne = none;
  mention_count = count;
  salience = salience;
}

abbrev merged_entities : List (EntityRow ℕ)
merged_entities =
    entity (codes "PERSON:ram thapa") (codes "ram  thapa") 3 (some 70)
    ∷ entity (codes "PERSON:sita") (codes "sita") 1 none
    ∷ []

merges : entity_rows hundredths (λ t. t) (λ t. t) mentioned ≡ some merged_entities
unfolding entity_rows entity_key strip
merges = refl

entity_rows-mentions_example :
    mentions hundredths (λ t. t) (λ t. t) merged_entities
    ≡ item_mentions hundredths (λ t. t) (λ t. t) mentioned
entity_rows-mentions_example =
    entity_rows-mentions hundredths (λ t. t) (λ t. t) mentioned merged_entities merges

-- A count below 1 refuses the payload.
negative_count_test :
    entity_rows hundredths (λ t. t) (λ t. t) (mention (codes "sita") (some (negsuc 0)) none ∷ [])
    ≡ none
unfolding entity_rows strip
negative_count_test = refl

abbrev medium : Text → Text → MediaItem
medium url alt = record {
  url = some url;
  media_type = codes "IMAGE";
  alt_text = some alt;
  extracted_text = none;
  context_text = none;
  surrounding_context = some (codes "near");
  stored_file_id = none;
}

abbrev media_of : Text → Text → MediaRow
media_of url alt = record {
  url = url;
  media_type = image;
  alt_text = some alt;
  extracted_text = none;
  context_text = some (codes "near");
  stored_file_id = none;
}

-- A url listed twice keeps its last entry, at its first place.
media_rows_test :
    media_rows
      (λ t. t)
      (medium (codes "a") (codes "1")
        ∷ medium (codes "b") (codes "2")
        ∷ medium (codes "a") (codes "3")
        ∷ [])
    ≡ some (media_of (codes "a") (codes "3") ∷ media_of (codes "b") (codes "2") ∷ [])
unfolding media_rows strip
media_rows_test = refl
