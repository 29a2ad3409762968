-- ===== src/Teams/Roles/Access.antt =====
-- apps/teams/roles.py: proofs on `has_permission` and `PERMISSIONS`.
use mathlib.Core.List.{Memᴰ}
use novena_hub.Prelude.{
  ℕ, ◌≡◌, refl, true, false, Option, none, some, List, [], ◌∷◌, String, str_eq, arith, All,
  find?-sound, contains, Bool-cases, inl, inr,
}
use novena_hub.Teams.Types.{Team, User, Membership}
use novena_hub.Teams.Roles.{
  permissions, roles_in, roles_of, membership_of, site_allowed, membership_allows, has_permission,
  is_closed,
}

-- A member of the open team whose role carries the permission and whose sites include this one.
pub record IsGranted (members : List Membership) (user : User) (team : Team) (permission : String)
    (site : Option ℕ) : Type 0 where
  pub authenticated : user.is_authenticated ≡ true
  pub open_team : is_closed team ≡ false
  pub membership : Membership
  pub member : Memᴰ membership members
  pub of_user : membership.user ≡ user.pk
  pub of_team : membership.team ≡ team.pk
  pub role : contains (roles_of permission) membership.role ≡ true
  pub at_site : site_allowed membership site team ≡ true

allows :
    (o : Option Membership) (permission : String) (site : Option ℕ) (team : Team)
    → membership_allows o permission site team ≡ true
    → (m : Membership) × (o ≡ some m)
      × (contains (roles_of permission) m.role ≡ true)
      × (site_allowed m site team ≡ true)
unfolding membership_allows
allows none permission site team h = cc
allows (some m) permission site team h = elim (Bool-cases (contains (roles_of permission) m.role)) [
  | inl carried ↦ (m, refl, carried, rw carried at h)
  | inr missing ↦ cc (rw missing at h)
]

found_member :
    (members : List Membership) (user : User) (team : Team) {m : Membership}
    → membership_of members user team ≡ some m
    → Memᴰ m members × (m.user ≡ user.pk) × (m.team ≡ team.pk)
unfolding membership_of
found_member members user team {m} h =
    let (member, both) = find?-sound _ members {a = m} h in (member, ground arith, ground arith)

-- When a permission is granted, the user is authenticated, the team is not closed, and the
-- membership table holds a row of this user and team whose role carries the permission and whose
-- sites include the one that is asked about.
pub has_permission_sound :
    (members : List Membership) (user : User) (team : Team) (permission : String) (site : Option ℕ)
    → has_permission members user (some team) permission site ≡ true
    → IsGranted members user team permission site
unfolding has_permission
has_permission_sound members user team permission site h =
    let (m, found, role, at) =
      allows (membership_of members user team) permission site team (ground arith) in
    let (member, u, t) = found_member members user team {m = m} found in
    record {
      authenticated = ground arith;
      open_team = ground arith;
      membership = m;
      member = member;
      of_user = u;
      of_team = t;
      role = role;
      at_site = at;
    }

-- A role above another has all that the other has.
abbrev pub IsOrdered : List String → Type 0
IsOrdered roles =
    (contains roles "viewer" ≡ true → contains roles "operator" ≡ true)
    × (contains roles "operator" ≡ true → contains roles "manager" ≡ true)
    × (contains roles "manager" ≡ true → contains roles "admin" ≡ true)
    × (contains roles "admin" ≡ true → contains roles "owner" ≡ true)

roles_in-IsOrdered :
    (table : List (String × List String)) (permission : String)
    → All (λ (row : String × List String). IsOrdered row.1) table
    → IsOrdered (roles_in table permission)
unfolding roles_in
roles_in-IsOrdered [] permission h = ((λ e. cc), (λ e. cc), (λ e. cc), (λ e. cc))
roles_in-IsOrdered ((name, roles) ∷ rest) permission h =
    elim (Bool-cases (str_eq name permission)) [
      | inl this ↦ rw this h.0
      | inr other ↦ rw other (roles_in-IsOrdered rest permission h.1)
    ]

-- For every permission the roles are ordered: what a viewer has an operator has, what an operator
-- has a manager has, and so on to the administrator and the owner.
pub roles_of-IsOrdered : (permission : String) → IsOrdered (roles_of permission)
unfolding roles_of
roles_of-IsOrdered permission = roles_in-IsOrdered permissions permission (ground arith)
