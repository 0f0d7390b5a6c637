-- ===== src/Access.antt =====
-- The role checks of src/app/services/common.py and `get_organization` of
-- src/app/services/organization.py, over the tables that they read.
use smenka_back.Prelude.{
  ℕ, Bool, true, false, not, ◌&&◌, List, Option, none, some, ◌==◌, if◌then◌else◌, find, Result, ok,
  err, forbidden, org_not_found, or_raise,
}

pub data UserRole : Type 0 where
  super_admin user : UserRole

pub record User : Type 0 where
  pub id : ℕ
  pub role : UserRole

pub data MemberRole : Type 0 where
  admin employee : MemberRole

pub record OrganizationMember : Type 0 where
  pub id : ℕ
  pub organization_id : ℕ
  pub user_id : ℕ
  pub role : MemberRole

pub record Organization : Type 0 where
  pub id : ℕ
  pub owner_id : ℕ
  pub is_deleted : Bool

pub record WorkLocation : Type 0 where
  pub id : ℕ
  pub organization_id : ℕ

-- The tables of users, organizations, members and work locations.
pub record Directory : Type 0 where
  pub users : List User
  pub organizations : List Organization
  pub members : List OrganizationMember
  pub work_locations : List WorkLocation

abbrev pub is_admin_role : MemberRole → Bool
is_admin_role admin = true
is_admin_role employee = false

abbrev pub is_super_role : UserRole → Bool
is_super_role super_admin = true
is_super_role user = false

abbrev pub has_role : Option User → Bool
has_role none = false
has_role (some u) = is_super_role u.role

unfoldable pub is_super_admin : Directory → ℕ → Bool
is_super_admin db user_id = has_role (find (λ u. u.id == user_id) db.users)

abbrev pub of_org : ℕ → ℕ → OrganizationMember → Bool
of_org org_id user_id m = m.organization_id == org_id && m.user_id == user_id

-- At most one row of `organization_members` fits a pair, by its unique constraint.
unfoldable pub find_member : Directory → ℕ → ℕ → Option OrganizationMember
find_member db org_id user_id = find (of_org org_id user_id) db.members

unfoldable pub find_admin : Directory → ℕ → ℕ → Option OrganizationMember
find_admin db org_id user_id =
    find (λ m. of_org org_id user_id m && is_admin_role m.role) db.members

abbrev pub is_some : {A : Type 0} → Option A → Bool
is_some none = false
is_some (some _) = true

unfoldable pub ensure_owner : Directory → Organization → ℕ → Result (Unit {0})
ensure_owner db org user_id =
    if org.owner_id == user_id
    then ok tt
    else if is_super_admin db user_id
    then ok tt
    else err forbidden

unfoldable pub ensure_member : Directory → Organization → ℕ → Result (Unit {0})
ensure_member db org user_id =
    if org.owner_id == user_id
    then ok tt
    else if is_some (find_member db org.id user_id)
    then ok tt
    else if is_super_admin db user_id
    then ok tt
    else err forbidden

unfoldable pub ensure_admin_or_owner : Directory → Organization → ℕ → Bool → Result (Unit {0})
ensure_admin_or_owner db org user_id allow_super_admin =
    if org.owner_id == user_id
    then ok tt
    else if is_some (find_admin db org.id user_id)
    then ok tt
    else if allow_super_admin && is_super_admin db user_id
    then ok tt
    else err forbidden

unfoldable pub get_organization : Directory → ℕ → Result Organization
get_organization db org_id =
    or_raise (find (λ o. o.id == org_id && not o.is_deleted) db.organizations) org_not_found
