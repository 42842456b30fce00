-- ===== src/Admin/Routes/Demotion.antt =====
-- On administrators who are dismissed through app/modules/admin/routes.py.
use ops_pilot_be.Prelude.{
  ◌≡◌, ap, sym, ◌∙◌, refl, Bool, true, false, ◌&&◌, not, Option, some, String, ok, err, ℕ, ◌==◌,
  nat_eq, nat_beq_iff, bind-err, result-cases, inl, inr, arith,
}
use ops_pilot_be.Exceptions.{Error}
use ops_pilot_be.Repository.{get_by_id, update}
use ops_pilot_be.Auth.Models.{Uuid, Time, User, UserRole, role_eq}
use ops_pilot_be.Auth.Tokens.{Security, Claims}
use ops_pilot_be.Auth.Service.{user_model, Tables, get_current_user}
use ops_pilot_be.Auth.Sessions.{MayAct, get_current_user-MayAct}
use ops_pilot_be.Auth.Dependencies.{get_current_super_admin}
use ops_pilot_be.Admin.Accounts.{
  find_user, with_role, update_user_role, toggle_user_status, soft_delete_user, hard_purge_user,
}
use ops_pilot_be.Admin.Lockout.{
  Absent, find_row-ok, get_by_id-update_self, toggle_user_status-Absent, soft_delete_user-Absent,
  hard_purge_user-Absent,
}
use ops_pilot_be.Admin.Routes.{
  AdminRequest, user_role, user_toggle, user_delete, user_purge, Platform, Outside, Envelope,
  Payload, status, route, serve_admin,
}
use ops_pilot_be.Admin.Routes.Guard.{active-current, super_admin-ok, serve_admin-MayAct}

abbrev pub is_off : Payload → Bool
is_off (status _ on) = not on
is_off _ = false

-- The request, with the payload of its answer, takes user `i` the office: another role, suspension,
-- or deletion.
abbrev pub dismisses : Uuid → AdminRequest → Payload → Bool
dismisses i (user_role j r) _ = j == i && not (r == UserRole.super_admin)
dismisses i (user_toggle j) answer = j == i && is_off answer
dismisses i (user_delete j) _ = j == i
dismisses i (user_purge j) _ = j == i
dismisses i _ _ = false

-- The row with the id may not act as a super administrator.
abbrev Powerless : Tables → Uuid → Type 0
Powerless t i =
    (u : User)
    → get_by_id i t.users ≡ ok (some u)
    → MayAct t u
    → (u.role == UserRole.super_admin) ≡ false

of_Absent : (t : Tables) (i : Uuid) → Absent t i → Powerless t i
of_Absent t i gone u stored may = absurd (gone u stored may)

update_user_role-Powerless :
    (t t' : Tables) (i : Uuid) (r : UserRole) (x : Uuid × String × Option Uuid)
    → (r == UserRole.super_admin) ≡ false
    → update_user_role i r t ≡ ok (x, t')
    → Powerless t' i
unfolding update_user_role
update_user_role-Powerless t t' i r x lower e u stored may = elim (result-cases (find_user i t)) [
  | inl (y, h) ↦ cc (rw h at e)
  | inr (v, h) ↦
      let users' : t'.users ≡ update v.id (with_role r) t.users = cc (rw h at e) in
      let read =
        get_by_id-update_self i (with_role r) t.users v (λ x. refl)
          (find_row-ok i "User account not found." t.users v h) in
      let row : u ≡ with_role r v = cc (rw users' at stored) in rw row lower
]

same_id : (j i : Uuid) (t : Tables) → (j == i) ≡ true → Powerless t j → Powerless t i
same_id j i t e h = let same : j ≡ i = (nat_beq_iff j i).0 e in rw (← same) h

module _ (out : Outside) (str : ℕ → String) (now : Time) (i : Uuid) (p p' : Platform)
    (answer : Envelope) where
  route-Powerless :
      (request : AdminRequest)
      → dismisses i request answer.payload ≡ true
      → route out str now request p ≡ ok (answer, p')
      → Powerless p'.tables i
  unfolding route
  route-Powerless (user_role j r) d e = elim (result-cases (update_user_role j r p.tables)) [
    | inl (x, h) ↦ cc (rw h at e)
    | inr ((x, t), h) ↦
        let after : p'.tables ≡ t = cc (rw h at e) in
        rw after (
          same_id j i t (ground arith)
            (update_user_role-Powerless p.tables t j r x (ground arith) h))
  ]
  route-Powerless (user_toggle j) d e = elim (result-cases (toggle_user_status j p.tables)) [
    | inl (x, h) ↦ cc (rw h at e)
    | inr (((k, on), t), h) ↦
        let after : p'.tables ≡ t = cc (rw h at e) in
        let told : answer.payload ≡ status k on = cc (rw h at e) in
        let off : on ≡ false = ground (arith, told) in
        rw after (
          same_id j i t (ground arith)
            (of_Absent t j (toggle_user_status-Absent p.tables t j k (rw off at h))))
  ]
  route-Powerless (user_delete j) d e = elim (result-cases (soft_delete_user now j p.tables)) [
    | inl (x, h) ↦ cc (rw h at e)
    | inr ((x, t), h) ↦
        let after : p'.tables ≡ t = cc (rw h at e) in
        rw after (same_id j i t d (of_Absent t j (soft_delete_user-Absent now p.tables t j x h)))
  ]
  route-Powerless (user_purge j) d e = elim (result-cases (hard_purge_user j p.tables)) [
    | inl (x, h) ↦ cc (rw h at e)
    | inr ((tt, t), h) ↦
        let after : p'.tables ≡ t = cc (rw h at e) in
        rw after (same_id j i t d (of_Absent t j (hard_purge_user-Absent p.tables t j h)))
  ]
  route-Powerless AdminRequest.system_health d e = cc
  route-Powerless AdminRequest.websocket_sessions d e = cc
  route-Powerless (AdminRequest.system_logs _ _) d e = cc
  route-Powerless (AdminRequest.businesses_list _ _) d e = cc
  route-Powerless (AdminRequest.users_list _ _) d e = cc
  route-Powerless (AdminRequest.workflows_list _ _) d e = cc
  route-Powerless (AdminRequest.maintenance _) d e = cc
  route-Powerless (AdminRequest.business_toggle _) d e = cc
  route-Powerless (AdminRequest.business_delete _) d e = cc
  route-Powerless (AdminRequest.business_purge _) d e = cc
  route-Powerless (AdminRequest.broadcast _ _) d e = cc

-- A token of a user without the office opens no route.
Powerless-err :
    (s : Security) (later : Time) (t : Tables) (i : Uuid) (token : String) (c : Claims)
    → Powerless t i
    → s.decode later token ≡ some c
    → s.parse_uuid c.sub ≡ some i
    → (x : Error) × (get_current_super_admin s later (some token) t ≡ err x)
Powerless-err s later t i token c lost decodes parses =
    elim (result-cases (get_current_super_admin s later (some token) t)) [
      | inl refused ↦ refused
      | inr (u, e) ↦
          let (active, is_admin) = super_admin-ok s later (some token) t u e in
          let current : get_current_user s later token t ≡ ok u =
            active-current s later token t u active in
          let (c', decodes', _, parses', _, may) =
            get_current_user-MayAct s later token t u current in
          let claims : c' ≡ c = cc in
          let same : u.id ≡ i = cc (rw claims at parses') in
          let lower = lost u (ap (λ (k : Uuid). get_by_id k t.users) (sym same) ∙ may.stored) may in
          cc (rw lower at is_admin)
    ]

module _ (out : Outside) (str : ℕ → String) (s : Security) (now later : Time) where
  -- If an administrator's request succeeds and takes from the user `i` the office, by another role,
  -- a suspension, a deletion or a purge, then at any time no request to any route of the
  -- administrators succeeds on the resulting state with a token that decodes to claims which name
  -- `i`.
  pub dismissed-err :
      (credentials : Option String) (request request' : AdminRequest) (p p' : Platform)
      (answer : Envelope) (i : Uuid) (token : String) (c : Claims)
      → serve_admin out str now s credentials request p ≡ ok (answer, p')
      → dismisses i request answer.payload ≡ true
      → s.decode later token ≡ some c
      → s.parse_uuid c.sub ≡ some i
      → (x : Error) × (serve_admin out str later s (some token) request' p' ≡ err x)
  unfolding serve_admin
  dismissed-err credentials request request' p p' answer i token c e d decodes parses =
      let (u, _, _, done) = serve_admin-MayAct s now credentials out str request p p' answer e in
      bind-err (get_current_super_admin s later (some token) p'.tables)
        (λ _. route out str later request' p')
        (Powerless-err s later p'.tables i token c
          (route-Powerless out str now i p p' answer request d done) decodes parses)
