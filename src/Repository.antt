-- ===== src/Repository.antt =====
-- app/shared/base_repository.py over a table, which is the list of its rows, and
-- app/shared/pagination.py. A `where` clause is a Boolean test; `ORDER BY` is the database's, and
-- enters as a function on lists of rows.
pub mod Rows
pub mod Updates
pub mod Pages
pub mod Partial
pub mod Unique
use ops_pilot_be.Prelude.{
  ℕ, ◌+◌, ◌/◌, ◌-◌, ◌*◌, ◌<◌, Bool, ◌&&◌, Option, none, some, List, [], ◌∷◌, ◌++◌, String, length,
  filter, any, take, drop, Result, ok, err, ◌>>=◌, or_raise, ◌==◌, nat_eq, if◌then◌else◌, ltb, not,
}
use ops_pilot_be.Exceptions.{Error, multiple_results, integrity_error, ops, ErrorClass}

abbrev pub Uuid : Type 0
Uuid = ℕ

-- A mapped class: its primary key.
pub record Model (A : Type 0) : Type 0 where
  pub id_of : A → Uuid

-- `scalar_one_or_none`, which raises `MultipleResultsFound`.
unfoldable pub scalar_one_or_none : {A : Type 0} → List A → Result Error (Option A)
scalar_one_or_none [] = ok none
scalar_one_or_none (r ∷ []) = ok (some r)
scalar_one_or_none (r ∷ s ∷ rs) = err multiple_results

module _ {A : Type 0} where
  unfoldable pub get_one_by : (A → Bool) → List A → Result Error (Option A)
  unfolding scalar_one_or_none
  get_one_by p t = scalar_one_or_none (filter p t)

  unfoldable pub get_many : (List A → List A) → ℕ → ℕ → (A → Bool) → List A → List A
  get_many order_by offset limit p t = take limit (drop offset (order_by (filter p t)))

  unfoldable pub count : (A → Bool) → List A → ℕ
  count p t = length (filter p t)

  unfoldable pub exists : (A → Bool) → List A → Bool
  unfolding count
  exists p t = ltb 0 (count p t)

  -- `create`: the flush raises `IntegrityError` if a row clashes with the new one, in the primary
  -- key or in a unique column.
  unfoldable pub create : (A → A → Bool) → A → List A → Result Error (A × List A)
  create clash r t = if any (clash r) t then err integrity_error else ok (r, t ++ r ∷ [])

  unfoldable pub create_many : (A → A → Bool) → List A → List A → Result Error (List A × List A)
  unfolding create
  create_many clash [] t = ok ([], t)
  create_many clash (r ∷ rs) t = do
    one ← create clash r t
    more ← create_many clash rs one.1
    ok (one.0 ∷ more.0, more.1)

module _ {A : Type 0} ⦃m : Model A⦄ where
  abbrev pub has_id : Uuid → A → Bool
  has_id i r = m.id_of r == i

  unfoldable pub get_by_id : Uuid → List A → Result Error (Option A)
  unfolding get_one_by
  get_by_id i t = get_one_by (has_id i) t

  unfoldable pub get_by_id_or_raise : Uuid → String → List A → Result Error A
  unfolding get_by_id
  get_by_id_or_raise i detail t = do r ← get_by_id i t; or_raise r (ops ErrorClass.not_found detail)

  -- `UPDATE … SET … WHERE id = …`: the row object is changed, and its row with it.
  unfoldable pub update : Uuid → (A → A) → List A → List A
  update i f [] = []
  update i f (r ∷ t) = (if has_id i r then f r else r) ∷ update i f t

  unfoldable pub delete : Uuid → List A → List A
  delete i t = filter (λ r. not (has_id i r)) t

  -- `soft_delete`: a model with no `is_active` column has none here.
  unfoldable pub soft_delete : Option (A → A) → Uuid → List A → List A
  unfolding update delete
  soft_delete none i t = delete i t
  soft_delete (some deactivate) i t = update i deactivate t

-- `get_by_business` and `count_by_business`, with the column and the extra filters.
module _ {A : Type 0} (business_of : A → Uuid) where
  abbrev pub scoped : Uuid → (A → Bool) → A → Bool
  scoped b extra r = business_of r == b && extra r

  unfoldable pub get_by_business : (List A → List A) → ℕ → ℕ → Uuid → (A → Bool) → List A → List A
  unfolding get_many
  get_by_business order_by offset limit b extra t =
      get_many order_by offset limit (scoped b extra) t

  unfoldable pub count_by_business : Uuid → (A → Bool) → List A → ℕ
  unfolding count
  count_by_business b extra t = count (scoped b extra) t

-- `PaginationParams`: FastAPI refuses a query outside `page >= 1` and `1 <= per_page <= 100`.
pub record PaginationParams : Type 0 where
  pub page : ℕ
  pub per_page : ℕ

abbrev pub IsAccepted : PaginationParams → Type 0
IsAccepted p = (0 < p.page) × (0 < p.per_page) × (p.per_page < 101)

unfoldable pub page_offset : PaginationParams → ℕ
page_offset p = (p.page - 1) * p.per_page

abbrev pub page_limit : PaginationParams → ℕ
page_limit p = p.per_page

-- `total_pages` of `paginated_response` in app/shared/response.py
unfoldable pub total_pages : ℕ → ℕ → ℕ
total_pages total per_page = if ltb 0 per_page then (total + per_page - 1) / per_page else 0
