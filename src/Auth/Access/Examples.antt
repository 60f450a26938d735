-- ===== src/Auth/Access/Examples.antt =====
-- A viewer of a project that all users may write to.
use arbeiterfarm.Base.{◌≡◌, refl, true, some, ◌==◌, if◌then◌else◌}
use arbeiterfarm.Base.Text.{lit, text_eq}
use arbeiterfarm.Auth.Access.{
  Database, from_str, allows, priority, role_name, action_name, role_in, higher, decide_role,
  check_members, check_project_access, write, delete, forbidden, refused, row,
}
use arbeiterfarm.Auth.Access.Grants.{is_granted, Answers, check_project_access-roles}

abbrev open_project : Database
open_project = record {
  owner_of = λ p. row (some (some 7));
  role_of = λ p u. if u == 0 then row (some (lit "collaborator")) else row (some (lit "viewer"));
}

abbrev answers : Answers open_project 5 1
answers = record {
  owner_id = some 7;
  direct = some (lit "viewer");
  everyone = some (lit "collaborator");
  owner_answer = refl;
  direct_answer = refl;
  everyone_answer = refl;
}

no_delete :
    check_project_access open_project 5 1 delete
    ≡ refused (forbidden (lit "Collaborator role cannot perform Delete"))
unfolding check_project_access check_members decide_role higher role_in from_str text_eq allows
    priority role_name action_name
no_delete = refl

check_project_access-roles_example : is_granted (check_project_access open_project 5 1 write) ≡ true
unfolding role_in from_str text_eq allows
check_project_access-roles_example = (check_project_access-roles open_project 5 1 write answers).0
