-- ===== src/Admin/Suspension.antt =====
-- On `toggle_business_status` of app/modules/admin/service.py.
use ops_pilot_be.Prelude.{
  ◌≡◌, refl, Bool, Option, none, some, List, [], ◌∷◌, String, ok, nat_eq, ◌==◌, Bool-cases, inl,
  inr, find, result-cases,
}
use ops_pilot_be.Repository.{get_by_id, update, has_id}
use ops_pilot_be.Auth.Models.{Uuid, Time}
use ops_pilot_be.Auth.Tokens.{Security, Claims}
use ops_pilot_be.Businesses.Models.{Business, business_model}
use ops_pilot_be.Auth.Service.{
  user_model, Tables, subject, admit, get_current_user, business_with, is_deleted, user_model,
}
use ops_pilot_be.Admin.Accounts.{find_business, flip_business, toggle_business_status}

-- A workspace is as deleted as before.
is_deleted-flip :
    (k i : Uuid) (t : List Business)
    → is_deleted (find (λ b. b.id == k) (update i flip_business t))
      ≡ is_deleted (find (λ b. b.id == k) t)
unfolding update
is_deleted-flip k i [] = refl
is_deleted-flip k i (b ∷ t) = elim (Bool-cases (has_id i b)) [
  | inl here ↦ elim (Bool-cases (b.id == k)) [
    | inl h ↦ rw (here, h) refl
    | inr h ↦ rw (here, h) (is_deleted-flip k i t)
  ]
  | inr other ↦ elim (Bool-cases (b.id == k)) [
    | inl h ↦ rw (other, h) refl
    | inr h ↦ rw (other, h) (is_deleted-flip k i t)
  ]
]

business_with-flip :
    (i : Uuid) (t : List Business) (o : Option Uuid)
    → is_deleted (business_with (update i flip_business t) o) ≡ is_deleted (business_with t o)
business_with-flip i t none = refl
business_with-flip i t (some k) = is_deleted-flip k i t

abbrev flipped : Uuid → Tables → Tables
flipped i t = record t { businesses = update i flip_business t.businesses }

admit-flipped :
    (s : Security) (t : Tables) (i : Uuid) (x : Claims × Uuid)
    → admit s (flipped i t) x ≡ admit s t x
unfolding admit
admit-flipped s t i (c, j) = elim (result-cases (get_by_id j t.users)) [
  | inl (x, h) ↦ rw h refl
  | inr (none, h) ↦ rw h refl
  | inr (some v, h) ↦ rw (h, business_with-flip i t.businesses v.business_id) refl
]

-- Where `toggle_business_status` succeeds, `get_current_user` answers for every token, at any time,
-- what it answered before: a suspended business locks none of its members out.
pub toggle_business_status-admits :
    (s : Security) (now : Time) (token : String) (i : Uuid) (t t' : Tables) (x : Uuid × Bool)
    → toggle_business_status i t ≡ ok (x, t')
    → get_current_user s now token t' ≡ get_current_user s now token t
unfolding toggle_business_status get_current_user
toggle_business_status-admits s now token i t t' x e = elim (result-cases (find_business i t)) [
  | inl (y, h) ↦ cc (rw h at e)
  | inr (w, h) ↦
      let left : t' ≡ flipped w.id t = cc (rw h at e) in
      rw left (elim (result-cases (subject s now "access" "Expected an access token." token t)) [
        | inl (y, k) ↦ rw k refl
        | inr (c, k) ↦ rw k (admit-flipped s t w.id c)
      ])
]
