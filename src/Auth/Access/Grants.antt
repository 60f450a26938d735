-- ===== src/Auth/Access/Grants.antt =====
-- Which of a user's roles lets an action through, and what a failed query does.
use arbeiterfarm.Base.{
  ℕ, ◌≡◌, refl, Bool, true, false, ◌&&◌, ◌||◌, not, Option, none, some, arith, leb, is_some,
}
use arbeiterfarm.Base.Text.{Text}
use arbeiterfarm.Auth.Access.{
  ProjectRole, Action, Access, Database, all_users_sentinel, allows, priority, role_in, higher,
  decide_role, is_owner, check_members, check_project_access, owner, manager, collaborator, viewer,
  not_member, granted, refused, row,
}

-- The role, if there is one, allows the action.
abbrev pub may : Option ProjectRole → Action → Bool
may none action = false
may (some r) action = allows r action

abbrev pub is_granted : Access → Bool
is_granted granted = true
is_granted (refused e) = false

abbrev pub is_not_member : Access → Bool
is_not_member (refused not_member) = true
is_not_member _ = false

allows-priority :
    (r s : ProjectRole) (action : Action)
    → leb (priority r) (priority s) ≡ true
    → allows r action ≡ true
    → allows s action ≡ true
unfolding allows priority
allows-priority owner s action l h = ground arith
allows-priority r owner action l h = refl
allows-priority manager manager action l h = h
allows-priority manager collaborator action l h = ground arith
allows-priority manager viewer action l h = ground arith
allows-priority collaborator manager action l h = ground arith
allows-priority collaborator collaborator action l h = h
allows-priority collaborator viewer action l h = ground arith
allows-priority viewer manager action l h = ground arith
allows-priority viewer collaborator action l h = ground arith
allows-priority viewer viewer action l h = h

may-higher :
    (d a : Option ProjectRole) (action : Action)
    → may (higher d a) action ≡ (may d action || may a action)
unfolding higher
may-higher none none action = refl
may-higher none (some a) action = refl
may-higher (some d) none action = ground arith
may-higher (some d) (some a) action =
    ground (arith, allows-priority a d action, allows-priority d a action)

decide_role-granted :
    (r : Option ProjectRole) (action : Action) → is_granted (decide_role r action) ≡ may r action
unfolding decide_role
decide_role-granted none action = refl
decide_role-granted (some r) action = ground arith

decide_role-not_member :
    (r : Option ProjectRole) (action : Action)
    → is_not_member (decide_role r action) ≡ not (is_some r)
unfolding decide_role
decide_role-not_member none action = refl
decide_role-not_member (some r) action = ground arith

is_some-higher : (d a : Option ProjectRole) → is_some (higher d a) ≡ (is_some d || is_some a)
unfolding higher
is_some-higher none none = refl
is_some-higher none (some a) = refl
is_some-higher (some d) none = refl
is_some-higher (some d) (some a) = ground arith

-- The three answers, where no query fails and the project exists.
pub record Answers (db : Database) (user_id project_id : ℕ) : Type 0 where
  pub owner_id : Option ℕ
  pub direct : Option Text
  pub everyone : Option Text
  pub owner_answer : db.owner_of project_id ≡ row (some owner_id)
  pub direct_answer : db.role_of project_id user_id ≡ row direct
  pub everyone_answer : db.role_of project_id all_users_sentinel ≡ row everyone

-- Where the project exists and no query fails, access is granted exactly if the user is the owner,
-- or the user's own role or the role of all users allows the action; and it is refused for lack of a
-- membership exactly if the user is not the owner and neither row names one of the four roles.
pub check_project_access-roles :
    (db : Database) (user_id project_id : ℕ) (required : Action)
    → (q : Answers db user_id project_id)
    → (is_granted (check_project_access db user_id project_id required) ≡ (
        is_owner q.owner_id user_id
        || (may (role_in q.direct) required || may (role_in q.everyone) required)))
      × (is_not_member (check_project_access db user_id project_id required) ≡ (
          not (is_owner q.owner_id user_id)
          && not (is_some (role_in q.direct) || is_some (role_in q.everyone))))
unfolding check_project_access check_members
check_project_access-roles db u p required q =
    rw (q.owner_answer, q.direct_answer, q.everyone_answer, check_project_access, check_members)
      (
        ground (
          arith,
          decide_role-granted (higher (role_in q.direct) (role_in q.everyone)) required,
          may-higher (role_in q.direct) (role_in q.everyone) required,
        ),
        ground (
          arith,
          decide_role-not_member (higher (role_in q.direct) (role_in q.everyone)) required,
          is_some-higher (role_in q.direct) (role_in q.everyone),
        ),
      )
