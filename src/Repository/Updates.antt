-- ===== src/Repository/Updates.antt =====
-- On queries after the update of one row with app/shared/base_repository.py.
use ops_pilot_be.Prelude.{
  ◌≡◌, ◌≢◌, refl, Bool, true, false, some, List, [], ◌∷◌, arith, filter, All, ok, ◌==◌, nat_eq,
  Bool-cases, inl, inr, ap, nat_beq_iff,
}
use ops_pilot_be.Repository.{Uuid, Model, scalar_one_or_none, get_one_by, get_by_id, update, has_id}
use ops_pilot_be.Repository.Rows.{All-filter_self}

module _ {A : Type 0} where
  scalar-singleton : (t : List A) (r : A) → scalar_one_or_none t ≡ ok (some r) → t ≡ r ∷ []
  unfolding scalar_one_or_none
  scalar-singleton [] r e = cc
  scalar-singleton (s ∷ []) r e = cc
  scalar-singleton (s ∷ u ∷ t) r e = cc

  pub filter-singleton :
      (p : A → Bool) (t : List A) (r : A) → get_one_by p t ≡ ok (some r) → filter p t ≡ r ∷ []
  unfolding get_one_by
  filter-singleton p t r e = scalar-singleton (filter p t) r e

module _ {A : Type 0} ⦃m : Model A⦄ where
  filter-update :
      (p : A → Bool) (i : Uuid) (f : A → A) (t : List A)
      → ((r : A) → p (f r) ≡ p r)
      → filter p (update i f t) ≡ update i f (filter p t)
  unfolding update
  filter-update p i f [] same = refl
  filter-update p i f (r ∷ t) same = elim (Bool-cases (p r)) [
    | inl h ↦ elim (Bool-cases (has_id i r)) [
      | inl here ↦
          rw (here, same r, h) (rw here (ap (λ (l : List A). f r ∷ l) (filter-update p i f t same)))
      | inr other ↦
          rw (other, h) (rw other (ap (λ (l : List A). r ∷ l) (filter-update p i f t same)))
    ]
    | inr h ↦ elim (Bool-cases (has_id i r)) [
      | inl here ↦ rw (here, same r, h) (filter-update p i f t same)
      | inr other ↦ rw (other, h) (filter-update p i f t same)
    ]
  ]

  update_ne :
      (i j : Uuid) (f : A → A) (t : List A)
      → i ≢ j
      → All (λ r. has_id j r ≡ true) t
      → update i f t ≡ t
  unfolding update
  update_ne i j f [] ne h = refl
  update_ne i j f (r ∷ t) ne (mine, h) =
      let other : has_id i r ≡ false = ground arith in
      rw other (ap (λ (l : List A). r ∷ l) (update_ne i j f t ne h))

  -- The row that a query found is found changed, where the query does not read what changed.
  pub get_one_by-update_self :
      (p : A → Bool) (f : A → A) (t : List A) (r : A)
      → ((x : A) → p (f x) ≡ p x)
      → get_one_by p t ≡ ok (some r)
      → get_one_by p (update (m.id_of r) f t) ≡ ok (some (f r))
  get_one_by-update_self p f t r same e =
      unfold get_one_by in
      rw (filter-update p (m.id_of r) f t same, filter-singleton p t r e)
        (unfold update scalar_one_or_none in rw ((nat_beq_iff (m.id_of r) (m.id_of r)).1 refl))

  -- A row with another id is found as before.
  pub get_by_id-update_ne :
      (i j : Uuid) (f : A → A) (t : List A)
      → i ≢ j
      → ((x : A) → m.id_of (f x) ≡ m.id_of x)
      → get_by_id j (update i f t) ≡ get_by_id j t
  unfolding get_by_id get_one_by
  get_by_id-update_ne i j f t ne same = rw (
    filter-update (has_id j) i f t (λ x. ap (λ (k : Uuid). k == j) (same x)),
    update_ne i j f (filter (has_id j) t) ne (All-filter_self (has_id j) t),
  )
