-- ===== src/Etl/Site.antt =====
-- ETL/spark/site_pipeline.py: one crawled website from the bucket to Silver. Here: the documents, the
-- object keys, and the calls of the services, which are fields of `Services`.
pub mod Pages
pub mod Trust
pub mod Driver
pub mod Run
pub mod Totals
pub mod Adding
pub mod Tally
pub mod Marked
mod Tests
use pgs_search_engine.Base.{
  ℕ, zero, suc, ◌+◌, ◌-◌, ◌*◌, ◌/◌, ◌%◌, ◌^◌, ◌≤◌, ◌<◌, min, max, ◌≡◌, refl, sym, ap, subst, ◌∙◌,
  ◌≢◌, ◌↔◌, ◌⊎◌, inl, inr, Bool, true, false, not, ◌&&◌, ◌||◌, Option, none, some, List, [], ◌∷◌,
  ◌++◌, map, arith, String, ⊤, ltb, leb, nat_beq, if◌then◌else◌, if_ind, ltb→lt, lt→ltb, leb→le,
  le→leb, nat_beq_iff, Bool-cases, Option-cases, PyEq, ◌==◌, nat_eq, beq_self, beq-ne, beq→eq,
  length, take, drop, keep, any, all, All, length-append, take-append-drop, length-take,
  length-drop, length-keep, length-map, elem, distinct, elem-append, elem-keep, find, update_if,
  count_if, find-some, All-keep, All-map, All-append, All-update_if, any_mono, length-update_if,
  length-keep-count,
}
use pgs_search_engine.Base.Text.{
  Text, text_eq, codes, is_empty, strip_left, strip_right, starts_with, ends_with, drop_end,
}
use pgs_search_engine.Etl.Transform.{Unicode}

-- What `json.loads` gives. Of a real number, whether it is not 0.
mutual
  pub data Json : Type 0 where
    null : Json
    truth : Bool → Json
    integer : ℕ → Json
    negative : ℕ → Json
    real : Bool → Json
    text : Text → Json
    array : Elements → Json
    object : Fields → Json

  pub data Elements : Type 0 where
    no_elements : Elements
    element : Json → Elements → Elements

  pub data Fields : Type 0 where
    no_fields : Fields
    field : Text → Json → Fields → Fields

-- `document.get(key)`
abbrev pub get : Text → Fields → Json
get key no_fields = null
get key (field other value fields) = if key == other then value else get key fields

-- The test of `a or b`.
abbrev pub is_true : Json → Bool
is_true null = false
is_true (truth b) = b
is_true (integer n) = not (n == 0)
is_true (negative n) = true
is_true (real b) = b
is_true (text t) = not (is_empty t)
is_true (array no_elements) = false
is_true (array (element _ _)) = true
is_true (object no_fields) = false
is_true (object (field _ _ _)) = true

infixr 20 ◌or_json◌
abbrev pub ◌or_json◌ : Json → Json → Json
a or_json b = if is_true a then a else b

-- What a run raises. `value_error` is permanent for the workflow that runs a site, the other named
-- ones are retried.
pub data Raised : Type 0 where
  value_error type_error s3_error database_error : Raised
  scanner_unavailable dependency_unavailable : Raised

pub data Result {ℓ} (A : Type ℓ) : Type ℓ where
  returned : A → Result A
  raised : Raised → Result A

infixl 5 ◌>>=◌
abbrev pub ◌>>=◌ {ℓ κ} : {A : Type ℓ} {B : Type κ} → Result A → (A → Result B) → Result B
returned a >>= f = f a
raised e >>= f = raised e

-- What holds of what is returned, if anything is.
pub data WhenReturned {ℓ κ} {A : Type ℓ} (P : A → Type κ) : Result A → Type (ℓ ⊔ κ) where
  raises : {e : Raised} → WhenReturned P (raised e)
  returns : {a : A} → P a → WhenReturned P (returned a)

module _ {ℓ κ} {A : Type ℓ} {B : Type κ} where
  pub WhenReturned-bind {μ} :
      {P : B → Type μ} {f : A → Result B} (m : Result A)
      → ((a : A) → WhenReturned P (f a))
      → WhenReturned P (m >>= f)
  WhenReturned-bind (returned a) h = h a
  WhenReturned-bind (raised e) h = raises

  pub WhenReturned-bind_with {μ ν} :
      {Q : A → Type ν} {P : B → Type μ} {m : Result A} {f : A → Result B}
      → WhenReturned Q m
      → ((a : A) → Q a → WhenReturned P (f a))
      → WhenReturned P (m >>= f)
  WhenReturned-bind_with raises h = raises
  WhenReturned-bind_with (returns {a} q) h = h a q

what_holds {ℓ κ} : {A : Type ℓ} {P : A → Type κ} {a : A} → WhenReturned P (returned a) → P a
what_holds (returns p) = p

pub from_returns {ℓ κ} :
    {A : Type ℓ} {P : A → Type κ} {m : Result A} (a : A) → WhenReturned P m → m ≡ returned a → P a
from_returns {P} a h e = what_holds (subst (λ m. WhenReturned P m) e h)

-- `client.get_object(...)`: its bytes, a ClientError that `_is_missing` recognises, or another error.
pub data Fetched : Type 0 where
  content : List ℕ → Fetched
  missing : Fetched
  unreachable : Fetched

pub record Event : Type 0 where
  pub crawl_run_id : ℕ
  pub target_domain : Text
  pub bucket : Text
  pub documents_prefix : Text
  pub key_prefix : Option Text
  pub status : Option Text

-- `path.split("/")`, with the characters before the next slash reversed in `part`
abbrev pub reversed : Text → Text → Text
reversed acc [] = acc
reversed acc (c ∷ t) = reversed (c ∷ acc) t

abbrev pub split_from : Text → Text → List Text
split_from part [] = reversed [] part ∷ []
split_from part (c ∷ t) =
    let next = split_from [] t in
    let longer = split_from (c ∷ part) t in if c == b'/' then reversed [] part ∷ next else longer

abbrev pub split_path : Text → List Text
split_path path = split_from [] path

abbrev pub is_slash : ℕ → Bool
is_slash c = c == b'/'

-- `posixpath.join(a, b)`
abbrev pub join_path : Text → Text → Text
join_path a [] = if is_empty a || ends_with (codes "/") a then a else a ++ codes "/"
join_path a (c ∷ t) =
    if is_slash c
    then c ∷ t
    else if is_empty a || ends_with (codes "/") a
    then a ++ c ∷ t
    else a ++ b'/' ∷ c ∷ t

-- The key under its prefix: `posixpath.join(prefix.strip("/"), key) if prefix else key`
abbrev pub prefixed : Option Text → Text → Text
prefixed none key = key
prefixed (some []) key = key
prefixed (some (c ∷ p)) key = join_path (strip_right is_slash (strip_left is_slash (c ∷ p))) key

-- `_join`
unfoldable pub join_key : Option Text → Text → Result Text
join_key prefix key =
    let joined = prefixed prefix key in
    if starts_with (codes "/") joined || elem (codes "..") (split_path joined)
    then raised value_error
    else returned joined

-- `posixpath.basename`
abbrev pub basename_from : Text → Text → Text
basename_from part [] = reversed [] part
basename_from part (c ∷ t) =
    let next = basename_from [] t in
    let longer = basename_from (c ∷ part) t in if is_slash c then next else longer

abbrev pub basename : Text → Text
basename path = basename_from [] path

-- `name.removesuffix(suffix)`, with the suffix first
abbrev pub remove_suffix : Text → Text → Text
remove_suffix suffix name = if ends_with suffix name then drop_end (length suffix) name else name

-- `str.encode`, `bytes.decode("utf-8", errors="replace")`, `json.loads` of bytes, where None is a
-- JSONDecodeError or a UnicodeDecodeError, `_decode` with its regular expressions, and
-- `datetime.fromisoformat` with `isoformat` in `_published_at`.
pub record Python : Type 0 where
  pub unicode : Unicode
  pub decode_utf8 : List ℕ → Text
  pub loads : List ℕ → Option Json
  pub decode_html : List ℕ → Json → Result Text
  pub iso_time : Text → Option Text
