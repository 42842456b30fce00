-- ===== src/Auth/Sessions.antt =====
-- On `get_current_user` of app/modules/auth/service.py.
use ops_pilot_be.Prelude.{
  inl, inr, ◌+◌, ◌*◌, ◌/◌, ◌≡◌, ◌≤◌, refl, true, false, none, some, List, String, string_eq, nat_eq,
  ◌==◌, ok, arith, Bool-cases, result-cases, bind-ok, ap, ◌∙◌, is_some,
}
use ops_pilot_be.Repository.{get_by_id, has_id}
use ops_pilot_be.Repository.Rows.{get_one_by-some}
use ops_pilot_be.Auth.Models.{Uuid, Time, User}
use ops_pilot_be.Auth.Tokens.{Security, Claims, second, is_token_blacklisted}
use ops_pilot_be.Auth.Service.{
  user_model, Tables, subject, admit, get_current_user, business_of, is_deleted, token_data,
  generate_tokens,
}
use ops_pilot_be.Auth.Revocation.{subject-ok}

-- A row that may act: it is in the table, is not deleted, is active, and its workspace is not deleted.
pub record MayAct (t : Tables) (u : User) : Type 0 where
  pub stored : get_by_id u.id t.users ≡ ok (some u)
  pub kept : is_some u.deleted_at ≡ false
  pub active : u.is_active ≡ true
  pub workspace : is_deleted (business_of t u) ≡ false

get_by_id-id :
    (i : Uuid) (users : List User) (u : User) → get_by_id i users ≡ ok (some u) → u.id ≡ i
unfolding get_by_id
get_by_id-id i users u e = ground (arith, get_one_by-some (has_id i) users u e)

admit-MayAct :
    (s : Security) (t : Tables) (c : Claims) (i : Uuid) (u : User)
    → admit s t (c, i) ≡ ok u
    → (u.id ≡ i) × MayAct t u
unfolding admit
admit-MayAct s t c i u e = elim (result-cases (get_by_id i t.users)) [
  | inl (x, h) ↦ cc (rw h at e)
  | inr (none, h) ↦ cc (rw h at e)
  | inr (some v, h) ↦ elim (Bool-cases (is_some v.deleted_at)) [
    | inl gone ↦ cc (rw (h, gone) at e)
    | inr kept ↦ elim (Bool-cases v.is_active) [
      | inr inactive ↦ cc (rw (h, kept, inactive) at e)
      | inl active ↦ elim (Bool-cases (is_deleted (business_of t v))) [
        | inl closed ↦ cc (rw (h, kept, active, closed) at e)
        | inr workspace ↦
            let same : u ≡ v = cc (rw (h, kept, active, workspace) at e) in
            rw same (
              get_by_id-id i t.users v h,
              record {
                stored = ap (λ (k : Uuid). get_by_id k t.users) (get_by_id-id i t.users v h) ∙ h;
                kept = kept;
                active = active;
                workspace = workspace;
              },
            )
      ]
    ]
  ]
]

-- If `get_current_user` returns a user, the token decodes to an access token that is not blacklisted
-- and names that user's id, and the user is the one stored row with that id, is not deleted, is
-- active, and does not belong to a deleted business.
pub get_current_user-MayAct :
    (s : Security) (now : Time) (token : String) (t : Tables) (u : User)
    → get_current_user s now token t ≡ ok u
    → (c : Claims) × (s.decode now token ≡ some c)
      × (c.type ≡ "access")
      × (s.parse_uuid c.sub ≡ some u.id)
      × (is_token_blacklisted t.redis now token ≡ false)
      × MayAct t u
unfolding get_current_user
get_current_user-MayAct s now token t u e =
    let ((c, i), accepted, admitted) =
      bind-ok (subject s now "access" "Expected an access token." token t) (admit s t) u e in
    let (decoded, access, live, parsed) =
      subject-ok s now "access" "Expected an access token." token t (c, i) accepted in
    let (same, may_act) = admit-MayAct s t c i u admitted in
    (c, decoded, access, rw same parsed, live, may_act)

-- What a user's access token carries.
abbrev pub access_claims : Security → Time → User → Claims
access_claims s now u = record (token_data s u) {
  exp = now / second + s.access_minutes * 60;
  type = "access";
}

-- If the token library reads the user's access token back until its expiry, the user's id reads back
-- from its non-empty text, and the user may act, then the access token that is generated for the
-- user makes `get_current_user` return the user until it expires, unless it is blacklisted.
pub access_token-admits :
    (s : Security) (now later : Time) (t : Tables) (u : User)
    → (later / second ≤ (access_claims s now u).exp
        → s.decode later (s.encode (access_claims s now u)) ≡ some (access_claims s now u))
    → s.parse_uuid (s.uuid_str u.id) ≡ some u.id
    → (s.uuid_str u.id == "") ≡ false
    → MayAct t u
    → later / second ≤ now / second + s.access_minutes * 60
    → is_token_blacklisted t.redis later (generate_tokens s now u).access_token ≡ false
    → get_current_user s later (generate_tokens s now u).access_token t ≡ ok u
unfolding get_current_user generate_tokens admit
access_token-admits s now later t u reads parses full may fresh live =
    rw (reads fresh, live, full, parses, may.stored, may.kept, may.active, may.workspace) refl
