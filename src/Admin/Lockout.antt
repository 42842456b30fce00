-- ===== src/Admin/Lockout.antt =====
-- On the overrides of app/modules/admin/service.py and `get_current_user`.
use ops_pilot_be.Prelude.{
  ◌≡◌, ◌≢◌, refl, sym, ◌∙◌, true, false, not, some, List, String, ok, ap, nat_eq, ◌==◌, is_some,
  option_eq, result-cases, bind-ok, or_raise, or_raise-ok, Bool-cases, inl, inr, arith,
}
use ops_pilot_be.Exceptions.{ErrorClass, init}
use ops_pilot_be.Repository.{Model, get_by_id, update, has_id}
use ops_pilot_be.Repository.Updates.{get_one_by-update_self}
use ops_pilot_be.Repository.Unique.{find-get_one_by, get_by_id-delete, get_one_by-filter_out}
use ops_pilot_be.Auth.Models.{Uuid, Time, User}
use ops_pilot_be.Auth.Tokens.{Security, Claims}
use ops_pilot_be.Businesses.Models.{Business, business_model}
use ops_pilot_be.Auth.Service.{user_model, Tables, get_current_user, business_of, is_deleted}
use ops_pilot_be.Auth.Sessions.{MayAct, get_current_user-MayAct}
use ops_pilot_be.Admin.Accounts.{
  find_row, find_user, find_business, flip_user, remove_user, close_business, works_for,
  toggle_user_status, soft_delete_user, hard_purge_user, soft_delete_business, hard_purge_business,
}

-- The user with an id is suspended, soft-deleted or purged, or the user's workspace is.
pub data Lockout (now : Time) (t t' : Tables) (i : Uuid) : Type 0 where
  suspended : (j : Uuid) → toggle_user_status i t ≡ ok ((j, false), t') → Lockout now t t' i
  removed : (x : Uuid × Time) → soft_delete_user now i t ≡ ok (x, t') → Lockout now t t' i
  purged : hard_purge_user i t ≡ ok (tt, t') → Lockout now t t' i
  closed :
      (b : Uuid) (u : User) (x : Uuid × Time)
      → get_by_id i t.users ≡ ok (some u)
      → u.business_id ≡ some b
      → soft_delete_business now b t ≡ ok (x, t')
      → Lockout now t t' i
  emptied :
      (b : Uuid) (u : User)
      → get_by_id i t.users ≡ ok (some u)
      → u.business_id ≡ some b
      → hard_purge_business b t ≡ ok (tt, t')
      → Lockout now t t' i

module _ {A : Type 0} ⦃m : Model A⦄ where
  pub find_row-ok :
      (i : Uuid) (detail : String) (t : List A) (r : A)
      → find_row i detail t ≡ ok r
      → get_by_id i t ≡ ok (some r)
  unfolding find_row
  find_row-ok i detail t r e =
      let (o, got, raised) =
        bind-ok (get_by_id i t) (λ o. or_raise o (init ErrorClass.not_found (some detail))) r e in
      rw (← or_raise-ok o (init ErrorClass.not_found (some detail)) r raised) got

  -- The row that is read by its id is read changed.
  pub get_by_id-update_self :
      (i : Uuid) (f : A → A) (t : List A) (r : A)
      → ((x : A) → m.id_of (f x) ≡ m.id_of x)
      → get_by_id i t ≡ ok (some r)
      → get_by_id i (update (m.id_of r) f t) ≡ ok (some (f r))
  unfolding get_by_id
  get_by_id-update_self i f t r same e =
      get_one_by-update_self (has_id i) f t r (λ x. ap (λ (k : Uuid). k == i) (same x)) e

-- No row that may act is left under the id.
abbrev pub Absent : Tables → Uuid → Type 0
Absent t i = (u : User) → get_by_id i t.users ≡ ok (some u) → MayAct t u → ⊥

pub toggle_user_status-Absent :
    (t t' : Tables) (i j : Uuid) → toggle_user_status i t ≡ ok ((j, false), t') → Absent t' i
unfolding toggle_user_status
toggle_user_status-Absent t t' i j e u stored may =
    let (v, found, done) =
      bind-ok (find_user i t)
        (λ v. ok ((v.id, not v.is_active), record t { users = update v.id flip_user t.users }))
        ((j, false), t') e in
    let off : not v.is_active ≡ false = cc in
    let users' : t'.users ≡ update v.id flip_user t.users = cc in
    let read =
      get_by_id-update_self i flip_user t.users v (λ x. refl)
        (find_row-ok i "User account not found." t.users v found) in
    let same : u ≡ flip_user v = cc (rw users' at stored) in
    let acts = may.active in cc (rw same at acts)

pub soft_delete_user-Absent :
    (now : Time) (t t' : Tables) (i : Uuid) (x : Uuid × Time)
    → soft_delete_user now i t ≡ ok (x, t')
    → Absent t' i
unfolding soft_delete_user
soft_delete_user-Absent now t t' i x e u stored may = elim (result-cases (find_user i t)) [
  | inl (y, h) ↦ cc (rw h at e)
  | inr (v, h) ↦
      let found = find_row-ok i "User account not found." t.users v h in
      let kept = may.kept in
      elim (Bool-cases (is_some v.deleted_at)) [
        | inl gone ↦
            let same : t ≡ t' = cc (rw (h, gone) at e) in
            let row : u ≡ v = cc (rw (← same) at stored) in cc (rw (row, gone) at kept)
        | inr stays ↦
            let users' : t'.users ≡ update v.id (remove_user now) t.users =
              cc (rw (h, stays) at e) in
            let read = get_by_id-update_self i (remove_user now) t.users v (λ x. refl) found in
            let row : u ≡ remove_user now v = cc (rw users' at stored) in cc (rw row at kept)
      ]
]

pub hard_purge_user-Absent :
    (t t' : Tables) (i : Uuid) → hard_purge_user i t ≡ ok (tt, t') → Absent t' i
unfolding hard_purge_user
hard_purge_user-Absent t t' i e u stored may = elim (result-cases (find_user i t)) [
  | inl (y, h) ↦ cc (rw h at e)
  | inr (v, h) ↦ let none_ = get_by_id-delete i t.users in cc (rw h at e)
]

hard_purge_business-Absent :
    (t t' : Tables) (i b : Uuid) (v : User)
    → get_by_id i t.users ≡ ok (some v)
    → v.business_id ≡ some b
    → hard_purge_business b t ≡ ok (tt, t')
    → Absent t' i
unfolding hard_purge_business get_by_id
hard_purge_business-Absent t t' i b v found works e u stored may =
    elim (result-cases (find_business b t)) [
      | inl (y, h) ↦ cc (rw h at e)
      | inr (w, h) ↦
          let out : not (works_for b v) ≡ false = ground (arith, works) in
          let none_ =
            get_one_by-filter_out (has_id i) (λ (u : User). not (works_for b u)) t.users v found
              out in
          cc (rw h at e)
    ]

deleted-of_find :
    (t : Tables) (u : User) (b : Uuid) (w : Business)
    → u.business_id ≡ some b
    → get_by_id b t.businesses ≡ ok (some w)
    → is_some w.deleted_at ≡ true
    → is_deleted (business_of t u) ≡ true
unfolding get_by_id
deleted-of_find t u b w works found gone =
    rw (works, find-get_one_by (has_id b) t.businesses w found) gone

soft_delete_business-Absent :
    (now : Time) (t t' : Tables) (i b : Uuid) (v : User) (x : Uuid × Time)
    → get_by_id i t.users ≡ ok (some v)
    → v.business_id ≡ some b
    → soft_delete_business now b t ≡ ok (x, t')
    → Absent t' i
unfolding soft_delete_business
soft_delete_business-Absent now t t' i b v x found works e u stored may =
    elim (result-cases (find_business b t)) [
      | inl (y, h) ↦ cc (rw h at e)
      | inr (w, h) ↦
          let open_ = may.workspace in
          let biz = find_row-ok b "Business workspace not found." t.businesses w h in
          elim (Bool-cases (is_some w.deleted_at)) [
            | inl gone ↦
                let same : t ≡ t' = cc (rw (h, gone) at e) in
                let row : u ≡ v = cc (rw (← same) at stored) in
                let shut = deleted-of_find t v b w works biz gone in cc (rw (← same, row) at open_)
            | inr stays ↦
                let users' : t'.users ≡ t.users = cc (rw (h, stays) at e) in
                let businesses' : t'.businesses ≡ update w.id (close_business now) t.businesses =
                  cc (rw (h, stays) at e) in
                let row : u ≡ v = cc (rw users' at stored) in
                let read : get_by_id b t'.businesses ≡ ok (some (close_business now w)) =
                  rw businesses'
                    (get_by_id-update_self b (close_business now) t.businesses w (λ x. refl) biz) in
                let shut = deleted-of_find t' v b (close_business now w) works read refl in
                cc (rw row at open_)
          ]
    ]

Lockout-Absent : (now : Time) (t t' : Tables) (i : Uuid) → Lockout now t t' i → Absent t' i
Lockout-Absent now t t' i (suspended j e) = toggle_user_status-Absent t t' i j e
Lockout-Absent now t t' i (removed x e) = soft_delete_user-Absent now t t' i x e
Lockout-Absent now t t' i (purged e) = hard_purge_user-Absent t t' i e
Lockout-Absent now t t' i (closed b u x found works e) =
    soft_delete_business-Absent now t t' i b u x found works e
Lockout-Absent now t t' i (emptied b u found works e) =
    hard_purge_business-Absent t t' i b u found works e

-- If an administrator's operation suspends, soft-deletes or purges the user with an id, or
-- soft-deletes or purges the business that the user's one row names, then `get_current_user`
-- refuses, at any time, every token that decodes to a subject with that id, on the tables that the
-- operation leaves.
pub Lockout-refuses :
    (s : Security) (now later : Time) (t t' : Tables) (i : Uuid) (token : String) (c : Claims)
    (u : User)
    → Lockout now t t' i
    → s.decode later token ≡ some c
    → s.parse_uuid c.sub ≡ some i
    → get_current_user s later token t' ≢ ok u
Lockout-refuses s now later t t' i token c u out decodes parses e =
    let (c', decodes', _, parses', _, may) = get_current_user-MayAct s later token t' u e in
    let claims : c' ≡ c = cc in
    let same : u.id ≡ i = cc (rw claims at parses') in
    Lockout-Absent now t t' i out u
      (ap (λ (k : Uuid). get_by_id k t'.users) (sym same) ∙ may.stored) may
