-- ===== src/Repository/Pages.antt =====
-- On the pages of a listing (app/shared/base_repository.py, pagination.py and response.py).
use ops_pilot_be.Prelude.{
  ℕ, zero, suc, ◌+◌, ◌-◌, ◌*◌, ◌/◌, ◌≤◌, ◌<◌, ◌≡◌, refl, Bool, List, [], ◌∷◌, ◌++◌, arith, filter,
  length, take, drop, lt→ltb, ◌∙◌, ap,
}
use native.Mathlib.Nat.{zero-add, suc-add, zero-mul}
use ops_pilot_be.Repository.{
  get_many, count, total_pages, PaginationParams, page_offset, page_limit,
}

-- Rounding the number of pages up leaves no row out.
ceil_covers :
    (total per_page : ℕ) → 0 < per_page → total ≤ (total + per_page - 1) / per_page * per_page
ceil_covers total per_page pos = grind arith

module _ {A : Type 0} where
  drop-drop : (i j : ℕ) (xs : List A) → drop j (drop i xs) ≡ drop (i + j) xs
  drop-drop zero j xs = rw zero-add
  drop-drop (suc i) zero [] = rw suc-add refl
  drop-drop (suc i) (suc j) [] = rw suc-add refl
  drop-drop (suc i) j (x ∷ xs) = rw suc-add (drop-drop i j xs)

  take-append-take : (i j : ℕ) (xs : List A) → take i xs ++ take j (drop i xs) ≡ take (i + j) xs
  take-append-take zero j xs = rw zero-add
  take-append-take (suc i) zero [] = rw suc-add refl
  take-append-take (suc i) (suc j) [] = rw suc-add refl
  take-append-take (suc i) j (x ∷ xs) =
      rw suc-add (ap (λ (l : List A). x ∷ l) (take-append-take i j xs))

  take-all : (n : ℕ) (xs : List A) → length xs ≤ n → take n xs ≡ xs
  take-all zero [] h = refl
  take-all zero (x ∷ xs) h = absurd (omega arith)
  take-all (suc n) [] h = refl
  take-all (suc n) (x ∷ xs) h = ap (λ (l : List A). x ∷ l) (take-all n xs (omega arith))

-- The rows of the `n` pages from page `first` on, one after the other.
pub pages {ℓ} : {A : Type ℓ} → (PaginationParams → List A) → ℕ → ℕ → ℕ → List A
pages page per_page first zero = []
pages page per_page first (suc n) =
    page (record { page = first; per_page = per_page }) ++ pages page per_page (suc first) n

module _ {A : Type 0} (order_by : List A → List A) (p : A → Bool) (t : List A) where
  -- One page of a listing.
  abbrev pub listing : PaginationParams → List A
  listing q = get_many order_by (page_offset q) (page_limit q) p t

  pages-listing :
      (k i n : ℕ) → pages listing k (suc i) n ≡ take (n * k) (drop (i * k) (order_by (filter p t)))
  unfolding pages get_many page_offset
  pages-listing k i zero = rw zero-mul refl
  pages-listing k i (suc n) =
      let rows = order_by (filter p t) in
      let there : i * k + k ≡ suc i * k = omega arith in
      let whole : k + n * k ≡ suc n * k = omega arith in
      let offset : (suc i - 1) * k ≡ i * k = ap (λ (j : ℕ). j * k) (omega arith) in
      rw (offset, pages-listing k (suc i) n, ← there, ← whole, ← drop-drop (i * k) k rows)
        (take-append-take k (n * k) (drop (i * k) rows))

  -- If the page size is positive and the order of the listing keeps the number of rows, then as many
  -- pages as `total_pages` says, from the first on, make up the whole listing in order, none of it
  -- twice.
  pub pages-total_pages :
      (per_page : ℕ)
      → 0 < per_page
      → length (order_by (filter p t)) ≡ length (filter p t)
      → pages listing per_page 1 (total_pages (count p t) per_page) ≡ order_by (filter p t)
  unfolding count total_pages
  pages-total_pages per_page pos sized =
      let rows = order_by (filter p t) in
      let n = (length (filter p t) + per_page - 1) / per_page in
      let enough : length rows ≤ n * per_page =
        rw sized (ceil_covers (length (filter p t)) per_page pos) in
      rw (lt→ltb 0 per_page pos)
        (pages-listing per_page 0 n ∙ rw zero-mul (take-all (n * per_page) rows enough))
