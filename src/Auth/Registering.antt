-- ===== src/Auth/Registering.antt =====
-- On `register` and `login` of app/modules/auth/service.py.
use ops_pilot_be.Prelude.{
  ◌≡◌, refl, Bool, true, false, none, some, List, [], ◌∷◌, ◌++◌, String, ok, err, arith, filter,
  filter-append, any, length, Bool-cases, inl, inr, ◌==◌, nat_eq, nat_beq_iff, string_eq, eq_iff,
  ltb,
}
use ops_pilot_be.Exceptions.{ErrorClass, init}
use ops_pilot_be.Repository.{
  scalar_one_or_none, get_one_by, get_by_id, count, exists, update, has_id,
}
use ops_pilot_be.Repository.Rows.{insertion, refused, stored, filter-nil-of_any, any-implied}
use ops_pilot_be.Repository.Unique.{find-get_one_by}
use ops_pilot_be.Repository.Updates.{filter-singleton, get_one_by-update_self}
use ops_pilot_be.Auth.Models.{Time, User}
use ops_pilot_be.Auth.Tokens.{Security}
use ops_pilot_be.Auth.Slug.{CharClasses}
use ops_pilot_be.Auth.Service.{
  user_model, Tables, generate_tokens, login, get_by_email, business_of,
}
use ops_pilot_be.Auth.Sessions.{MayAct}
use ops_pilot_be.Auth.Registration.{
  RegisterRequest, Fresh, Registered, register, new_user, new_business, with_owner, user_clash,
  email_exists,
}
use ops_pilot_be.Businesses.Models.{Business, business_model, business_clash}

module _ {A : Type 0} where
  -- A query that selects no row before selects the new row alone.
  pub get_one_by-new :
      (p : A → Bool) (t : List A) (r : A)
      → any p t ≡ false
      → p r ≡ true
      → get_one_by p (t ++ r ∷ []) ≡ ok (some r)
  unfolding get_one_by scalar_one_or_none
  get_one_by-new p t r none_ here =
      rw (filter-append p t (r ∷ []), filter-nil-of_any p t none_, here) refl

  any-of_exists : (p : A → Bool) (t : List A) → exists p t ≡ false → any p t ≡ false
  unfolding exists count
  any-of_exists p [] e = refl
  any-of_exists p (r ∷ t) e = elim (Bool-cases (p r)) [
    | inl h ↦
        absurd (let long : ltb 0 (length (r ∷ filter p t)) ≡ false = rw h at e in ground arith)
    | inr h ↦ rw h (any-of_exists p t (rw h at e))
  ]

module _ (s : Security) (k : CharClasses) (f : Fresh) (now : Time) (p : RegisterRequest)
    (t : Tables) where
  -- Nothing clashes with the rows that a registration adds.
  record Accepted : Type 0 where
    unused : email_exists s p.email t.users ≡ false
    free_business : any (business_clash (new_business s k f p)) t.businesses ≡ false
    free_user : any (user_clash (new_user s k f p)) t.users ≡ false

  abbrev pub after : Tables
  after = record t {
    users = t.users ++ new_user s k f p ∷ [];
    businesses =
        update f.business_id (with_owner s k f.user_id) (t.businesses ++ new_business s k f p ∷ []);
  }

  abbrev pub outcome : Registered
  outcome = record {
    user = new_user s k f p;
    tokens = generate_tokens s now (new_user s k f p);
    tables = after;
    emitted = record {
      user_id = s.uuid_str f.user_id;
      email = s.lower p.email;
      business_id = s.uuid_str f.business_id;
    };
  }

  register-ok : (r : Registered) → register s k f now p t ≡ ok r → Accepted × (r ≡ outcome)
  unfolding register
  register-ok r e = elim (Bool-cases (email_exists s p.email t.users)) [
    | inl h ↦ cc (rw h at e)
    | inr h ↦ elim (insertion business_clash (new_business s k f p) t.businesses) [
      | refused g ↦ cc (rw (h, g) at e)
      | stored g no_business ↦ elim (insertion user_clash (new_user s k f p) t.users) [
        | refused g' ↦ cc (rw (h, g, g') at e)
        | stored g' no_user ↦ (
          record { unused = h; free_business = no_business; free_user = no_user },
          cc (rw (h, g, g') at e),
        )
      ]
    ]
  ]

  user_by_id : Accepted → get_by_id f.user_id after.users ≡ ok (some (new_user s k f p))
  unfolding get_by_id
  user_by_id a =
      get_one_by-new (has_id f.user_id) t.users (new_user s k f p)
        (any-implied (has_id f.user_id) (user_clash (new_user s k f p)) t.users (λ x h. rw h refl)
          a.free_user)
        ((nat_beq_iff f.user_id f.user_id).1 refl)

  abbrev owned : Business
  owned = with_owner s k f.user_id (new_business s k f p)

  business_by_id : Accepted → business_of after (new_user s k f p) ≡ some owned
  business_by_id a = find-get_one_by (has_id f.business_id) after.businesses owned (
      get_one_by-update_self (has_id f.business_id) (with_owner s k f.user_id)
        (t.businesses ++ new_business s k f p ∷ []) (new_business s k f p) (λ x. refl)
        (get_one_by-new (has_id f.business_id) t.businesses (new_business s k f p)
          (any-implied (has_id f.business_id) (business_clash (new_business s k f p)) t.businesses
            (λ x h. rw h refl) a.free_business)
          ((nat_beq_iff f.business_id f.business_id).1 refl)))

  may_act : Accepted → MayAct after (new_user s k f p)
  may_act a = record {
    stored = user_by_id a;
    kept = refl;
    active = refl;
    workspace = rw (business_by_id a) refl;
  }

  module _ (email : String) (same : s.lower email ≡ s.lower p.email)
      (stable : s.sql_lower (s.lower p.email) ≡ s.lower p.email) where
    by_email : Accepted → get_by_email s email after.users ≡ ok (some (new_user s k f p))
    unfolding get_by_email email_exists
    by_email a = rw same (
        get_one_by-new (λ (u : User). s.sql_lower u.email == s.lower p.email) t.users
          (new_user s k f p)
          (any-of_exists (λ (u : User). s.sql_lower u.email == s.lower p.email) t.users a.unused)
          ((eq_iff (s.sql_lower (s.lower p.email)) (s.lower p.email)).1 stable))

    logs_in :
        Accepted
        → s.checkpw p.password (s.hashpw p.password) ≡ true
        → (later : Time)
        → login s later email p.password after
          ≡ ok (new_user s k f p, generate_tokens s later (new_user s k f p))
    unfolding login
    logs_in a checks later = rw (by_email a, checks) refl

    is_taken : Accepted → email_exists s email after.users ≡ true
    unfolding email_exists exists count get_by_email get_one_by
    is_taken a =
        rw
          (filter-singleton (λ (u : User). s.sql_lower u.email == s.lower email) after.users
            (new_user s k f p) (by_email a))
          refl

-- If a registration succeeds, the database leaves the lower-cased email as it is in lower case, and
-- the password matches its hash, then a login with that password and an email that differs from the
-- registered one in case only returns the new user with its tokens, the user may act and owns the
-- user's business, and another registration with such an email is refused as a duplicate.
pub register-login :
    (s : Security) (k : CharClasses) (f f' : Fresh) (now later : Time) (p p' : RegisterRequest)
    (t : Tables) (r : Registered)
    → register s k f now p t ≡ ok r
    → s.lower p'.email ≡ s.lower p.email
    → s.sql_lower (s.lower p.email) ≡ s.lower p.email
    → s.checkpw p.password (s.hashpw p.password) ≡ true
    → (login s later p'.email p.password r.tables ≡ ok (r.user, generate_tokens s later r.user))
      × MayAct r.tables r.user
      × ((b : Business) × (business_of r.tables r.user ≡ some b) × (b.owner_id ≡ some r.user.id))
      × (register s k f' later p' r.tables ≡ err (init ErrorClass.duplicate_email none))
unfolding register
register-login s k f f' now later p p' t r e same stable checks =
    let (a, done) = register-ok s k f now p t r e in
    rw done (
      logs_in s k f now p t p'.email same stable a checks later,
      may_act s k f now p t a,
      (owned s k f now p t, business_by_id s k f now p t a, refl),
      rw (is_taken s k f now p t p'.email same stable a) refl,
    )
