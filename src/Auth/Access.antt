-- ===== src/Auth/Access.antt =====
-- af/crates/af-auth/src/authz.rs. The three queries are answers of a database, each of which may be
-- an error; a UUID is a number.
pub mod Grants
pub mod Examples
use arbeiterfarm.Base.{
  ℕ, Bool, true, false, not, Option, none, some, ◌++◌, leb, ◌==◌, if◌then◌else◌,
}
use arbeiterfarm.Base.Text.{Text, lit, text_eq}

pub data ProjectRole : Type 0 where
  owner manager collaborator viewer : ProjectRole

pub data Action : Type 0 where
  read write delete manage_members : Action

pub data AuthzError : Type 0 where
  forbidden : Text → AuthzError
  not_member : AuthzError
  db_error : Text → AuthzError

pub data Access : Type 0 where
  granted : Access
  refused : AuthzError → Access

-- The answer of a query.
pub data Query (A : Type 0) : Type 0 where
  row : A → Query A
  failed : Text → Query A

-- `SELECT owner_id FROM projects` and `SELECT role FROM project_members`.
pub record Database : Type 0 where
  pub owner_of : ℕ → Query (Option (Option ℕ))
  pub role_of : ℕ → ℕ → Query (Option Text)

abbrev pub all_users_sentinel : ℕ
all_users_sentinel = 0

unfoldable pub from_str : Text → Option ProjectRole
from_str s =
    if text_eq s (lit "owner")
    then some owner
    else if text_eq s (lit "manager")
    then some manager
    else if text_eq s (lit "collaborator")
    then some collaborator
    else if text_eq s (lit "viewer")
    then some viewer
    else none

unfoldable pub allows : ProjectRole → Action → Bool
allows owner action = true
allows manager read = true
allows manager write = true
allows manager manage_members = true
allows manager delete = false
allows collaborator read = true
allows collaborator write = true
allows collaborator delete = false
allows collaborator manage_members = false
allows viewer read = true
allows viewer write = false
allows viewer delete = false
allows viewer manage_members = false

unfoldable pub priority : ProjectRole → ℕ
priority owner = 4
priority manager = 3
priority collaborator = 2
priority viewer = 1

-- `{:?}`
unfoldable pub role_name : ProjectRole → Text
role_name owner = lit "Owner"
role_name manager = lit "Manager"
role_name collaborator = lit "Collaborator"
role_name viewer = lit "Viewer"

unfoldable pub action_name : Action → Text
action_name read = lit "Read"
action_name write = lit "Write"
action_name delete = lit "Delete"
action_name manage_members = lit "ManageMembers"

-- `row.and_then(|r| ProjectRole::from_str(&r.0))`
unfoldable pub role_in : Option Text → Option ProjectRole
role_in none = none
role_in (some r) = from_str r

-- The `match (direct, all)`.
unfoldable pub higher : Option ProjectRole → Option ProjectRole → Option ProjectRole
higher (some d) (some a) = if leb (priority a) (priority d) then some d else some a
higher (some d) none = some d
higher none (some a) = some a
higher none none = none

unfoldable pub decide_role : Option ProjectRole → Action → Access
decide_role none required = refused not_member
decide_role (some role) required =
    if allows role required
    then granted
    else refused
        (forbidden (role_name role ++ (lit " role cannot perform " ++ action_name required)))

-- `owner_id == Some(user_id)`
abbrev pub is_owner : Option ℕ → ℕ → Bool
is_owner none user_id = false
is_owner (some o) user_id = o == user_id

unfoldable pub check_members : Database → ℕ → ℕ → Action → Access
check_members db user_id project_id required = elim (db.role_of project_id user_id) [
  | failed e ↦ refused (db_error e)
  | row direct ↦ elim (db.role_of project_id all_users_sentinel) [
    | failed e ↦ refused (db_error e)
    | row everyone ↦ decide_role (higher (role_in direct) (role_in everyone)) required
  ]
]

unfoldable pub check_project_access : Database → ℕ → ℕ → Action → Access
check_project_access db user_id project_id required = elim (db.owner_of project_id) [
  | failed e ↦ refused (db_error e)
  | row none ↦ refused (forbidden (lit "project not found"))
  | row (some owner_id) ↦
      if is_owner owner_id user_id then granted else check_members db user_id project_id required
]
