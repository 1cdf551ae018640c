-- ===== src/Database/Pages/Items.antt =====
-- database/src/pgs_db/repositories/silver.py: the lists of a payload that become child rows of a page,
-- `_media_rows` and the parts of `_entity_rows`. Floats are a record of the operations that the
-- code uses; `str.upper` and `str.casefold` are arguments. None is a ValueError.
use pgs_search_engine.Base.{
  ℕ, zero, suc, Bool, Option, none, some, List, [], ◌∷◌, ◌++◌, if◌then◌else◌, ◌==◌, nat_eq, take,
}
use pgs_search_engine.Base.Text.{Text, text_eq, codes, words, join}
use pgs_search_engine.Base.Dict.{Dict, insert}
use pgs_search_engine.Base.Int.{ℤ, pos, negsuc}
use pgs_search_engine.Base.Partial.{◌>>=◌, ◌or_else◌}
use pgs_search_engine.Database.Pages.{blank_to_none}

pub data MediaType : Type 0 where
  image video document : MediaType

pub record MediaItem : Type 0 where
  pub url : Option Text
  pub media_type : Text
  pub alt_text : Option Text
  pub extracted_text : Option Text
  pub context_text : Option Text
  pub surrounding_context : Option Text
  pub stored_file_id : Option ℕ

pub record MediaRow : Type 0 where
  pub url : Text
  pub media_type : MediaType
  pub alt_text : Option Text
  pub extracted_text : Option Text
  pub context_text : Option Text
  pub stored_file_id : Option ℕ

-- `MediaType[raw]`
abbrev pub media_type_of : Text → Option MediaType
media_type_of raw =
    if raw == codes "IMAGE"
    then some image
    else if raw == codes "VIDEO"
    then some video
    else if raw == codes "DOCUMENT"
    then some document
    else none

unfoldable pub media_row : (Text → Text) → MediaItem → Option MediaRow
unfolding blank_to_none
media_row upper item = do
  url ← blank_to_none item.url
  media_type ← media_type_of (upper item.media_type)
  some (record {
    url = url;
    media_type = media_type;
    alt_text = blank_to_none item.alt_text;
    extracted_text = blank_to_none item.extracted_text;
    context_text = blank_to_none item.context_text or_else blank_to_none item.surrounding_context;
    stored_file_id = item.stored_file_id;
  })

-- `by_url`, after the items
unfoldable pub media_by_url :
    (Text → Text) → List MediaItem → Dict Text MediaRow → Option (Dict Text MediaRow)
unfolding media_row
media_by_url upper [] by_url = some by_url
media_by_url upper (item ∷ items) by_url = do
  row ← media_row upper item
  media_by_url upper items (insert row.url row by_url)

abbrev pub values {ℓ κ} : {K : Type ℓ} {V : Type κ} → Dict K V → List V
values [] = []
values ((_, v) ∷ d) = v ∷ values d

unfoldable pub media_rows : (Text → Text) → List MediaItem → Option (List MediaRow)
unfolding media_by_url
media_rows upper items = do by_url ← media_by_url upper items []; some (values by_url)

pub data EntityType : Type 0 where
  person organization happening other : EntityType

abbrev pub entity_type_of : Text → Option EntityType
entity_type_of raw =
    if raw == codes "PERSON"
    then some person
    else if raw == codes "ORGANIZATION"
    then some organization
    else if raw == codes "EVENT"
    then some happening
    else if raw == codes "OTHER"
    then some other
    else none

abbrev pub type_value : EntityType → Text
type_value person = codes "PERSON"
type_value organization = codes "ORGANIZATION"
type_value happening = codes "EVENT"
type_value other = codes "OTHER"

-- Python's floats, as far as a salience needs them.
pub record Floats (S : Type 0) : Type 0 where
  pub zero_point : S
  pub in_unit : S → Bool
  pub larger : S → S → S

pub record EntityItem (S : Type 0) : Type 0 where
  pub entity_type : Text
  pub name_en : Option Text
  pub name_ne : Option Text
  pub name : Option Text
  pub key : Option Text
  pub mention_count : Option ℤ
  pub salience : Option S

pub record EntityRow (S : Type 0) : Type 0 where
  pub normalized_key : Text
  pub entity_type : EntityType
  pub name_en : Option Text
  pub name_ne : Option Text
  pub mention_count : ℕ
  pub salience : Option S

-- `int(item.get("mention_count") or 1)`, which has to be at least 1
abbrev pub count_of : Option ℤ → Option ℕ
count_of none = some 1
count_of (some (pos zero)) = some 1
count_of (some (pos (suc n))) = some (suc n)
count_of (some (negsuc n)) = none

-- `_entity_key`
unfoldable pub entity_key : (Text → Text) → EntityType → Text → Text
unfolding words
entity_key casefold entity_type name =
    take 255 (type_value entity_type ++ codes ":" ++ join (codes " ") (words (casefold name)))
