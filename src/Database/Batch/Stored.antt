-- ===== src/Database/Batch/Stored.antt =====
-- What an attempt to store a row does to the queue.
use pgs_search_engine.Base.{
  ℕ, ◌≡◌, refl, Bool, false, Option, some, List, [], ◌∷◌, ⊤, if_ind, nat_eq,
}
use pgs_search_engine.Database.Batch.{
  Postgres, Answer, commits, refuses_write, refuses_commit, Transformed, Transform, gives_page,
  finds_threat, raises, Etl, Tables, Options, Attempt, stored, threat, error, save_row, fold_page,
  attempt_of, attempt,
}
use pgs_search_engine.Base.Text.{Text, text_eq}
use pgs_search_engine.Base.Dict.{lookup}
use pgs_search_engine.Base.Partial.{
  ◌>>=◌, WhenSome, refused, gives, WhenSome-bind, WhenSome-bind_with,
}
use pgs_search_engine.Database.Queue.{QueueRow, mark_processed}
use pgs_search_engine.Database.Pages.Duplicates.{fold_duplicate}

module _ {Body Children : Type 0} (replace_children : Option Children → Children → Children)
    (transform : ℕ → Transform Body Children) (refusal : Text) (tables : Tables) (options : Options)
    (postgres : Postgres Body Children) where
  save_row-queue :
      (now row_id : ℕ) (payload : Transformed Body Children) (db : Etl Body Children)
      → WhenSome
          (λ (r : ℕ × Etl Body Children). r.1.queue ≡ (mark_processed (row_id ∷ []) db.queue).1)
          (save_row replace_children transform refusal tables options postgres now row_id payload
            db)
  unfolding save_row
  save_row-queue now row_id payload db =
      WhenSome-bind (lookup row_id tables.documents)
        (λ document. WhenSome-bind _ (λ (saved, silver). gives refl))

  fold_page-queue :
      (r : ℕ × Etl Body Children) (rows : List QueueRow)
      → r.1.queue ≡ rows
      → WhenSome
          (λ (f : Bool × Etl Body Children). f.1.queue ≡ rows)
          (fold_page replace_children transform refusal tables options postgres r)
  fold_page-queue (page_id, db) rows h =
      if_ind
        (λ (o : Option (Bool × Etl Body Children)).
          WhenSome (λ (f : Bool × Etl Body Children). f.1.queue ≡ rows) o)
        options.dedup
        (λ on. WhenSome-bind (fold_duplicate page_id db.silver.pages) (λ (folded, pages). gives h))
        (λ off. gives h)

  -- A row that was stored is marked.
  abbrev pub IsStored : ℕ → Etl Body Children → Attempt Body Children → Type 0
  IsStored row_id db (stored folded after) = after.queue ≡ (mark_processed (row_id ∷ []) db.queue).1
  IsStored row_id db (threat infected) = ⊤
  IsStored row_id db (error counted message) = ⊤

  attempt_of-IsStored :
      (row_id : ℕ) (db : Etl Body Children) (o : Option (Bool × Etl Body Children))
      → WhenSome
          (λ (f : Bool × Etl Body Children). f.1.queue ≡ (mark_processed (row_id ∷ []) db.queue).1)
          o
      → IsStored row_id db
          (attempt_of replace_children transform refusal tables options postgres row_id o)
  attempt_of-IsStored row_id db _ refused = tt
  attempt_of-IsStored row_id db (some (folded, after)) (gives h) =
      answered (postgres.saves row_id after)
    where
      answered :
          (a : Answer)
          → IsStored row_id db (elim a [
            | commits ↦ stored folded after
            | refuses_write ↦ error false refusal
            | refuses_commit ↦ error folded refusal
          ])
      answered commits = h
      answered refuses_write = tt
      answered refuses_commit = tt

  pub attempt-IsStored :
      (now row_id : ℕ) (db : Etl Body Children)
      → IsStored row_id db
          (attempt replace_children transform refusal tables options postgres now row_id db)
  unfolding attempt
  attempt-IsStored now row_id db = by_transform (transform row_id)
    where
      by_transform :
          (t : Transform Body Children)
          → IsStored row_id db (elim t [
            | gives_page payload ↦
                attempt_of replace_children transform refusal tables options postgres row_id (
                  save_row replace_children transform refusal tables options postgres now row_id
                    payload db
                  >>= fold_page replace_children transform refusal tables options postgres)
            | finds_threat infected ↦ threat infected
            | raises message ↦ error false message
          ])
      by_transform (gives_page payload) =
          attempt_of-IsStored row_id db _ (
            WhenSome-bind_with (save_row-queue now row_id payload db)
              (λ r h. fold_page-queue r _ h))
      by_transform (finds_threat infected) = tt
      by_transform (raises message) = tt
