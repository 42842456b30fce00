-- ===== src/Repository/Unique.antt =====
-- On rows that a test selects alone.
use ops_pilot_be.Prelude.{
  ◌≡◌, ◌<◌, refl, Bool, true, false, not, ◌&&◌, none, some, List, [], ◌∷◌, arith, filter, find,
  length, All, ok, nat_eq, Bool-cases, inl, inr, ap, if◌then◌else◌,
}
use ops_pilot_be.Repository.{
  Uuid, Model, scalar_one_or_none, get_one_by, get_by_id, update, delete, has_id,
}
use ops_pilot_be.Repository.Rows.{AtMostOne}
use ops_pilot_be.Repository.Updates.{filter-singleton}

module _ {A : Type 0} where
  find-of_filter : (p : A → Bool) (t : List A) (r : A) → filter p t ≡ r ∷ [] → find p t ≡ some r
  find-of_filter p [] r e = cc
  find-of_filter p (s ∷ t) r e = elim (Bool-cases (p s)) [
    | inl h ↦ let same : s ≡ r = cc (rw h at e) in rw (h, same) refl
    | inr h ↦ rw h (find-of_filter p t r (rw h at e))
  ]

  -- `find` gives the row that a query for one row gives.
  pub find-get_one_by :
      (p : A → Bool) (t : List A) (r : A) → get_one_by p t ≡ ok (some r) → find p t ≡ some r
  find-get_one_by p t r e = find-of_filter p t r (filter-singleton p t r e)

  All-none :
      (p : A → Bool) (P : A → Type 0) (t : List A) → filter p t ≡ [] → All (λ r. p r ≡ true → P r) t
  All-none p P [] e = tt
  All-none p P (r ∷ t) e = elim (Bool-cases (p r)) [
    | inl h ↦ cc (rw h at e)
    | inr h ↦ (λ k. cc, All-none p P t (rw h at e))
  ]

  filter-and_nil : (p q : A → Bool) (t : List A) → filter p t ≡ [] → filter (λ r. p r && q r) t ≡ []
  filter-and_nil p q [] e = refl
  filter-and_nil p q (r ∷ t) e = elim (Bool-cases (p r)) [
    | inl h ↦ cc (rw h at e)
    | inr h ↦ rw h (filter-and_nil p q t (rw h at e))
  ]

  nil_of_short : (t : List A) → length t < 1 → t ≡ []
  nil_of_short [] h = refl
  nil_of_short (r ∷ t) h = absurd (omega arith)

  pub filter-filter : (p q : A → Bool) (t : List A) → filter p (filter q t) ≡ filter q (filter p t)
  filter-filter p q [] = refl
  filter-filter p q (r ∷ t) = ground (arith, filter-filter p q t)

  -- The row that a query finds is not found among the rows that another test keeps, if it fails that.
  pub get_one_by-filter_out :
      (p q : A → Bool) (t : List A) (r : A)
      → get_one_by p t ≡ ok (some r)
      → q r ≡ false
      → get_one_by p (filter q t) ≡ ok none
  get_one_by-filter_out p q t r e fails =
      unfold get_one_by in
      rw (filter-filter p q t, filter-singleton p t r e, fails) (unfold scalar_one_or_none in refl)

  -- If a test selects at most one row, a row found by that test and another is the only one.
  only-of_and :
      (p q : A → Bool) (t : List A) (w : A)
      → length (filter p t) < 2
      → filter (λ r. p r && q r) t ≡ w ∷ []
      → All (λ r. p r ≡ true → r ≡ w) t
  only-of_and p q [] w one e = tt
  only-of_and p q (r ∷ t) w one e = elim (Bool-cases (p r)) [
    | inr h ↦ (λ k. cc, only-of_and p q t w (rw h at one) (rw h at e))
    | inl h ↦
        let rest : filter p t ≡ [] =
          nil_of_short (filter p t)
            (let k : length (r ∷ filter p t) < 2 = rw h at one in omega arith) in
        elim (Bool-cases (q r)) [
          | inl k ↦
              let same : r ≡ w = cc (rw (h, k) at e) in (λ _. same, All-none p (λ s. s ≡ w) t rest)
          | inr k ↦ cc (rw (h, k, filter-and_nil p q t rest) at e)
        ]
  ]

  pub only-get_one_by :
      (p q : A → Bool) (t : List A) (w : A)
      → AtMostOne p t
      → get_one_by (λ r. p r && q r) t ≡ ok (some w)
      → All (λ r. p r ≡ true → r ≡ w) t
  only-get_one_by p q t w one e = only-of_and p q t w one (filter-singleton (λ r. p r && q r) t w e)

module _ {A : Type 0} ⦃m : Model A⦄ where
  pub get_by_id-delete : (i : Uuid) (t : List A) → get_by_id i (delete i t) ≡ ok none
  unfolding get_by_id get_one_by delete scalar_one_or_none
  get_by_id-delete i t = ap scalar_one_or_none (go t)
    where
      go : (t : List A) → filter (has_id i) (filter (λ r. not (has_id i r)) t) ≡ []
      go [] = refl
      go (r ∷ t) = elim (Bool-cases (has_id i r)) [
        | inl h ↦ rw h (go t)
        | inr h ↦ rw h (rw h (go t))
      ]

  -- A test that fails on the changed row before and after selects the same rows.
  pub filter-update_outside :
      (p : A → Bool) (i : Uuid) (f : A → A) (t : List A)
      → All (λ r. has_id i r ≡ true → (p r ≡ false) × (p (f r) ≡ false)) t
      → filter p (update i f t) ≡ filter p t
  unfolding update
  filter-update_outside p i f [] h = refl
  filter-update_outside p i f (r ∷ t) (k, h) = elim (Bool-cases (has_id i r)) [
    | inl here ↦
        let (before, after) = k here in rw (here, before, after) (filter-update_outside p i f t h)
    | inr other ↦
        rw other (ap (λ (l : List A). if p r then r ∷ l else l) (filter-update_outside p i f t h))
  ]

  pub filter-delete_outside :
      (p : A → Bool) (i : Uuid) (t : List A)
      → All (λ r. has_id i r ≡ true → p r ≡ false) t
      → filter p (delete i t) ≡ filter p t
  unfolding delete
  filter-delete_outside p i [] h = refl
  filter-delete_outside p i (r ∷ t) (k, h) = elim (Bool-cases (has_id i r)) [
    | inl here ↦ rw (here, k here) (filter-delete_outside p i t h)
    | inr other ↦
        rw other (ap (λ (l : List A). if p r then r ∷ l else l) (filter-delete_outside p i t h))
  ]
