-- ===== src/Database/Pages/Entities.antt =====
-- database/src/pgs_db/repositories/silver.py: `_entity_rows`, and what merging keeps.
use pgs_search_engine.Base.{
  ℕ, ◌+◌, ◌≡◌, refl, sym, ap, subst, inl, inr, Option, none, some, List, [], ◌∷◌, arith, ⊤,
  if◌then◌else◌, Bool-cases, Option-cases, ◌==◌, nat_eq, take,
}
use pgs_search_engine.Base.Text.{Text, text_eq}
use pgs_search_engine.Base.Dict.{Dict, lookup, insert}
use pgs_search_engine.Base.Partial.{
  ◌>>=◌, ◌or_else◌, WhenSome, refused, gives, WhenSome-bind, WhenSome-bind_with, from_gives,
}
use pgs_search_engine.Database.Pages.{blank_to_none}
use pgs_search_engine.Database.Pages.Items.{
  EntityType, entity_type_of, Floats, EntityItem, EntityRow, count_of, entity_key, values,
}

module _ {S : Type 0} (floats : Floats S) (upper casefold : Text → Text) where
  -- Refused where `salience is not None and not 0 <= float(salience) <= 1`.
  abbrev pub checked_salience : Option S → Option ⊤
  checked_salience none = some tt
  checked_salience (some x) = if floats.in_unit x then some tt else none

  abbrev pub names_of : EntityItem S → Text → Option Text × Option Text
  names_of item name = elim (blank_to_none item.name_en or_else blank_to_none item.name_ne) [
    | none ↦ (some name, none)
    | some _ ↦ (blank_to_none item.name_en, blank_to_none item.name_ne)
  ]

  -- An item's own row.
  unfoldable pub entity_row : EntityItem S → Option (EntityRow S)
  unfolding blank_to_none entity_key
  entity_row item = do
    entity_type ← entity_type_of (upper item.entity_type)
    name ←
        blank_to_none item.name
        or_else blank_to_none item.name_en
        or_else blank_to_none item.name_ne
    count ← count_of item.mention_count
    checked ← checked_salience item.salience
    key ← blank_to_none item.key or_else some (entity_key casefold entity_type name)
    some (record {
      normalized_key = take 255 key;
      entity_type = entity_type;
      name_en = (names_of item name).0;
      name_ne = (names_of item name).1;
      mention_count = count;
      salience = item.salience;
    })

  abbrev pub merged_salience : Option S → Option S → Option S
  merged_salience prev none = prev
  merged_salience none (some x) = some (floats.larger floats.zero_point x)
  merged_salience (some y) (some x) = some (floats.larger y x)

  -- The row that stands for a key, after one more item of it.
  abbrev pub merge_into : EntityRow S → EntityRow S → EntityRow S
  merge_into row prev = record prev {
    mention_count = prev.mention_count + row.mention_count;
    salience = merged_salience prev.salience row.salience;
  }

  unfoldable pub add_entity : EntityRow S → Dict Text (EntityRow S) → Dict Text (EntityRow S)
  add_entity row merged = elim (lookup row.normalized_key merged) [
    | none ↦ insert row.normalized_key row merged
    | some prev ↦ insert row.normalized_key (merge_into row prev) merged
  ]

  unfoldable pub merge_entities :
      List (EntityItem S) → Dict Text (EntityRow S) → Option (Dict Text (EntityRow S))
  unfolding entity_row add_entity
  merge_entities [] merged = some merged
  merge_entities (item ∷ items) merged = do
    row ← entity_row item
    merge_entities items (add_entity row merged)

  unfoldable pub entity_rows : List (EntityItem S) → Option (List (EntityRow S))
  unfolding merge_entities
  entity_rows items = do merged ← merge_entities items []; some (values merged)

  abbrev pub mentions : List (EntityRow S) → ℕ
  mentions [] = 0
  mentions (row ∷ rows) = row.mention_count + mentions rows

  -- The mentions that the items of a payload state, 1 where they state none.
  abbrev pub item_mentions : List (EntityItem S) → ℕ
  item_mentions [] = 0
  item_mentions (item ∷ items) =
      (elim (count_of item.mention_count) [ none ↦ 0 | some n ↦ n ]) + item_mentions items

  entity_row-count :
      (item : EntityItem S)
      → WhenSome
          (λ (row : EntityRow S). count_of item.mention_count ≡ some row.mention_count)
          (entity_row item)
  unfolding entity_row
  entity_row-count item = WhenSome-bind (entity_type_of (upper item.entity_type)) (λ entity_type.
      WhenSome-bind
        (blank_to_none item.name
          or_else blank_to_none item.name_en
          or_else blank_to_none item.name_ne)
        (λ name. at_count (count_of item.mention_count) refl entity_type name))
    where
      at_count :
          (c : Option ℕ)
          → count_of item.mention_count ≡ c
          → (entity_type : EntityType) (name : Text)
          → WhenSome
              (λ (row : EntityRow S). count_of item.mention_count ≡ some row.mention_count)
              (c >>= λ count. checked_salience item.salience >>= λ checked.
                blank_to_none item.key or_else some (entity_key casefold entity_type name)
                >>= λ key. some (record {
                  normalized_key = take 255 key;
                  entity_type = entity_type;
                  name_en = (names_of item name).0;
                  name_ne = (names_of item name).1;
                  mention_count = count;
                  salience = item.salience;
                }))
      at_count none e entity_type name = refused
      at_count (some n) e entity_type name =
          WhenSome-bind (checked_salience item.salience) (λ checked.
            WhenSome-bind
              (blank_to_none item.key or_else some (entity_key casefold entity_type name))
              (λ key. gives e))

  some_not_none : {A : Type 0} {a : A} → (some a ≡ none) → ⊥
  some_not_none e = cc

  mentions-insert :
      (key : Text) (row : EntityRow S) (merged : Dict Text (EntityRow S))
      → lookup key merged ≡ none
      → mentions (values (insert key row merged)) ≡ mentions (values merged) + row.mention_count
  mentions-insert key row [] h = omega arith
  mentions-insert key row ((k, r) ∷ merged) h = elim (Bool-cases (key == k)) [
    | inl same ↦
        absurd
          (some_not_none (subst (λ b. (if b then some r else lookup key merged) ≡ none) same h))
    | inr different ↦
        rw (insert, different)
          (omega (
            arith,
            mentions-insert key row merged
                (subst (λ b. (if b then some r else lookup key merged) ≡ none) different h),
          ))
  ]

  mentions-update :
      (key : Text) (row prev : EntityRow S) (merged : Dict Text (EntityRow S))
      → lookup key merged ≡ some prev
      → mentions (values (insert key (merge_into row prev) merged))
        ≡ mentions (values merged) + row.mention_count
  mentions-update key row prev [] h = cc
  mentions-update key row prev ((k, r) ∷ merged) h = elim (Bool-cases (key == k)) [
    | inl same ↦
        rw (insert, same)
          (mentions_of_same
            (subst (λ b. (if b then some r else lookup key merged) ≡ some prev) same h))
    | inr different ↦
        rw (insert, different)
          (omega (
            arith,
            mentions-update key row prev merged
                (subst (λ b. (if b then some r else lookup key merged) ≡ some prev) different h),
          ))
  ]
    where
      mentions_of_same :
          some r ≡ some prev
          → prev.mention_count + row.mention_count + mentions (values merged)
            ≡ r.mention_count + mentions (values merged) + row.mention_count
      mentions_of_same e = omega (
        arith,
        ap {B = ℕ} (λ (o : Option (EntityRow S)). elim o [ none ↦ 0 | some x ↦ x.mention_count ]) e,
      )

  mentions-add_entity :
      (row : EntityRow S) (merged : Dict Text (EntityRow S))
      → mentions (values (add_entity row merged)) ≡ mentions (values merged) + row.mention_count
  unfolding add_entity
  mentions-add_entity row merged = elim (Option-cases (lookup row.normalized_key merged)) [
    | inl new ↦ rw (add_entity, new) (mentions-insert row.normalized_key row merged new)
    | inr (prev, there) ↦
        rw (add_entity, there) (mentions-update row.normalized_key row prev merged there)
  ]

  merge_entities-mentions :
      (items : List (EntityItem S)) (merged : Dict Text (EntityRow S))
      → WhenSome
          (λ after. mentions (values after) ≡ mentions (values merged) + item_mentions items)
          (merge_entities items merged)
  unfolding merge_entities
  merge_entities-mentions [] merged = gives (omega arith)
  merge_entities-mentions (item ∷ items) merged =
      WhenSome-bind_with (entity_row-count item) (λ row counted.
        subst
          (λ c.
            WhenSome
              (λ after.
                mentions (values after)
                ≡ mentions (values merged)
                  + ((elim c [ none ↦ 0 | some n ↦ n ]) + item_mentions items))
              (merge_entities items (add_entity row merged)))
          (sym counted)
          (subst
            (λ m.
              WhenSome (λ after. mentions (values after) ≡ m)
                (merge_entities items (add_entity row merged)))
            (omega (arith, mentions-add_entity row merged))
            (merge_entities-mentions items (add_entity row merged))))

  -- Merging the entities of a payload loses no mention: the counts of the rows add up to those of the
  -- items, an item without a count being one mention.
  pub entity_rows-mentions :
      (items : List (EntityItem S)) (rows : List (EntityRow S))
      → entity_rows items ≡ some rows
      → mentions rows ≡ item_mentions items
  unfolding entity_rows
  entity_rows-mentions items rows h =
      from_gives {P = λ (found : List (EntityRow S)). mentions found ≡ item_mentions items} rows
        (WhenSome-bind_with (merge_entities-mentions items [])
          (λ merged e. gives (omega (arith, e))))
        h
