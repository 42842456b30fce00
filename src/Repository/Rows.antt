-- ===== src/Repository/Rows.antt =====
-- On reading, updating and inserting rows with app/shared/base_repository.py, for every table.
use ops_pilot_be.Prelude.{
  ◌≡◌, refl, inl, inr, Bool, true, false, ◌&&◌, if◌then◌else◌, Option, none, some, List, [], ◌∷◌,
  ◌++◌, arith, filter, any, length, All, Result, ok, err, nat_eq, Bool-cases, filter-append,
  append-nil, ◌<◌,
}
use ops_pilot_be.Exceptions.{Error, integrity_error}
use ops_pilot_be.Repository.{Uuid, Model, scalar_one_or_none, get_one_by, update, create, has_id}

module _ {A : Type 0} where
  -- The row that a test selects passes it.
  pub All-filter_self : (p : A → Bool) (t : List A) → All (λ r. p r ≡ true) (filter p t)
  All-filter_self p [] = tt
  All-filter_self p (r ∷ t) = elim (Bool-cases (p r)) [
    | inl h ↦ rw h (h, All-filter_self p t)
    | inr h ↦ rw h (All-filter_self p t)
  ]

  scalar-some :
      (P : A → Type 0) (t : List A) (r : A) → scalar_one_or_none t ≡ ok (some r) → All P t → P r
  unfolding scalar_one_or_none
  scalar-some P [] r e h = cc
  scalar-some P (s ∷ []) r e h = let same : s ≡ r = cc in rw (← same) h.0
  scalar-some P (s ∷ u ∷ t) r e h = cc

  pub get_one_by-some :
      (p : A → Bool) (t : List A) (r : A) → get_one_by p t ≡ ok (some r) → p r ≡ true
  unfolding get_one_by
  get_one_by-some p t r e = scalar-some (λ s. p s ≡ true) (filter p t) r e (All-filter_self p t)

  scalar-none : (t : List A) → scalar_one_or_none t ≡ ok none → t ≡ []
  unfolding scalar_one_or_none
  scalar-none [] e = refl
  scalar-none (r ∷ []) e = cc
  scalar-none (r ∷ s ∷ t) e = cc

  any-of_filter-nil : (p : A → Bool) (t : List A) → filter p t ≡ [] → any p t ≡ false
  any-of_filter-nil p [] e = refl
  any-of_filter-nil p (r ∷ t) e = ground (arith, any-of_filter-nil p t)

  pub get_one_by-none : (p : A → Bool) (t : List A) → get_one_by p t ≡ ok none → any p t ≡ false
  unfolding get_one_by
  get_one_by-none p t e = any-of_filter-nil p t (scalar-none (filter p t) e)

  -- No two rows pass the test, so a query for one row answers.
  abbrev pub AtMostOne : (A → Bool) → List A → Type 0
  AtMostOne p t = length (filter p t) < 2

  pub get_one_by-answers :
      (p : A → Bool) (t : List A) → AtMostOne p t → (o : Option A) × (get_one_by p t ≡ ok o)
  unfolding get_one_by
  get_one_by-answers p t h = go (filter p t) h
    where
      go : (rs : List A) → length rs < 2 → (o : Option A) × (scalar_one_or_none rs ≡ ok o)
      go [] k = (none, unfold scalar_one_or_none in refl)
      go (r ∷ []) k = (some r, unfold scalar_one_or_none in refl)
      go (r ∷ s ∷ rs) k = absurd (omega arith)

  pub filter-and :
      (p q : A → Bool) (t : List A) → filter (λ r. p r && q r) t ≡ filter q (filter p t)
  filter-and p q [] = refl
  filter-and p q (r ∷ t) = elim (Bool-cases (p r)) [
    | inl h ↦ rw (h, filter-and p q t) refl
    | inr h ↦ rw (h, filter-and p q t) refl
  ]

  -- A query for a row with a second test answers with the one row that passes the first, if it passes
  -- the second.
  abbrev pub kept_if : (A → Bool) → Option A → Option A
  kept_if q none = none
  kept_if q (some r) = if q r then some r else none

  pub get_one_by-and :
      (p q : A → Bool) (t : List A)
      → AtMostOne p t
      → (o : Option A) × (get_one_by p t ≡ ok o)
        × (get_one_by (λ r. p r && q r) t ≡ ok (kept_if q o))
  unfolding get_one_by scalar_one_or_none
  get_one_by-and p q t h = rw (filter-and p q t) (go (filter p t) h)
    where
      go :
          (rs : List A)
          → length rs < 2
          → (o : Option A) × (scalar_one_or_none rs ≡ ok o)
            × (scalar_one_or_none (filter q rs) ≡ ok (kept_if q o))
      go [] k = (none, refl, refl)
      go (r ∷ []) k = elim (Bool-cases (q r)) [
        | inl h ↦ (some r, refl, rw h refl)
        | inr h ↦ (some r, refl, rw h refl)
      ]
      go (r ∷ s ∷ rs) k = absurd (omega arith)

  pub filter-nil-of_any : (p : A → Bool) (t : List A) → any p t ≡ false → filter p t ≡ []
  filter-nil-of_any p [] e = refl
  filter-nil-of_any p (r ∷ t) e = ground (arith, filter-nil-of_any p t)

  pub All-map_any :
      (P : A → Type 0) (p : A → Bool) (t : List A)
      → ((r : A) → p r ≡ false → P r)
      → any p t ≡ false
      → All P t
  All-map_any P p [] f e = tt
  All-map_any P p (r ∷ t) f e = (f r (ground arith), All-map_any P p t f (ground arith))

module _ {A : Type 0} ⦃m : Model A⦄ where
  -- A property of rows that the change keeps is kept by the update of one row.
  pub All-update :
      (P : A → Type 0) (i : Uuid) (f : A → A) (t : List A)
      → ((r : A) → m.id_of r ≡ i → P r → P (f r))
      → All P t
      → All P (update i f t)
  unfolding update
  All-update P i f [] keep h = tt
  All-update P i f (r ∷ t) keep (p, h) = (
    elim (Bool-cases (has_id i r)) [
      | inl here ↦ rw here (keep r (ground arith) p)
      | inr other ↦ rw other p
    ],
    All-update P i f t keep h,
  )

  -- A test that the change does not affect selects as many rows as before.
  pub length-filter-update :
      (p : A → Bool) (i : Uuid) (f : A → A) (t : List A)
      → ((r : A) → p (f r) ≡ p r)
      → length (filter p (update i f t)) ≡ length (filter p t)
  unfolding update
  length-filter-update p i f [] same = refl
  length-filter-update p i f (r ∷ t) same =
      ground (arith, same r, length-filter-update p i f t same)

  pub any-update :
      (p : A → Bool) (i : Uuid) (f : A → A) (t : List A)
      → ((r : A) → p (f r) ≡ p r)
      → any p (update i f t) ≡ any p t
  unfolding update
  any-update p i f [] same = refl
  any-update p i f (r ∷ t) same = ground (arith, same r, any-update p i f t same)

module _ {A : Type 0} where
  pub any-implied :
      (p q : A → Bool) (t : List A)
      → ((r : A) → p r ≡ true → q r ≡ true)
      → any q t ≡ false
      → any p t ≡ false
  any-implied p q [] imp e = refl
  any-implied p q (r ∷ t) imp e = elim (Bool-cases (p r)) [
    | inl h ↦ let h' = imp r h in ground (arith, h')
    | inr h ↦ rw h (any-implied p q t imp (ground arith))
  ]

  -- A new row that clashes with none keeps a unique column unique.
  pub AtMostOne-create :
      (p : A → Bool) (clash : A → A → Bool) (r : A) (t : List A)
      → ((x : A) → p r ≡ true → p x ≡ true → clash r x ≡ true)
      → AtMostOne p t
      → any (clash r) t ≡ false
      → AtMostOne p (t ++ r ∷ [])
  AtMostOne-create p clash r t key one none_ = elim (Bool-cases (p r)) [
    | inl h ↦
        rw
          (
            filter-append p t (r ∷ []),
            filter-nil-of_any p t (any-implied p (clash r) t (λ x. key x h) none_),
            h,
          )
          (omega arith)
    | inr h ↦ rw (filter-append p t (r ∷ []), h, append-nil (filter p t)) one
  ]

  pub create-ok :
      (clash : A → A → Bool) (r r' : A) (t t' : List A)
      → create clash r t ≡ ok (r', t')
      → (any (clash r) t ≡ false) × (r' ≡ r) × (t' ≡ t ++ r ∷ [])
  unfolding create
  create-ok clash r r' t t' e = ground arith

  scalar-any :
      (p : A → Bool) (t : List A) (r : A)
      → scalar_one_or_none (filter p t) ≡ ok (some r)
      → any p t ≡ true
  scalar-any p t r e = elim (Bool-cases (any p t)) [
    | inl h ↦ h
    | inr h ↦ unfold scalar_one_or_none in cc (rw (filter-nil-of_any p t h) at e)
  ]

  -- The three ways in which a query for one row ends.
  pub data Query (p : A → Bool) (t : List A) : Type 0 where
    failed : (e : Error) → get_one_by p t ≡ err e → Query p t
    missing : get_one_by p t ≡ ok none → any p t ≡ false → Query p t
    found : (r : A) → get_one_by p t ≡ ok (some r) → p r ≡ true → any p t ≡ true → Query p t

  pub query : (p : A → Bool) (t : List A) → Query p t
  query p t = go (get_one_by p t) refl
    where
      go : (o : Result Error (Option A)) → get_one_by p t ≡ o → Query p t
      go (err e) h = failed e h
      go (ok none) h = missing h (get_one_by-none p t h)
      go (ok (some r)) h =
          found r h (get_one_by-some p t r h) (scalar-any p t r (unfold get_one_by in h))

  -- The two ways in which an insertion ends.
  pub data Insertion (clash : A → A → Bool) (r : A) (t : List A) : Type 0 where
    refused : create clash r t ≡ err integrity_error → Insertion clash r t
    stored : create clash r t ≡ ok (r, t ++ r ∷ []) → any (clash r) t ≡ false → Insertion clash r t

  pub insertion : (clash : A → A → Bool) (r : A) (t : List A) → Insertion clash r t
  insertion clash r t = elim (Bool-cases (any (clash r) t)) [
    | inl h ↦ refused (unfold create in rw h)
    | inr h ↦ stored (unfold create in rw h) h
  ]
