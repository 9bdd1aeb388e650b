-- ===== src/Coreclient/Convert/Laws.antt =====
-- The roles, by the numbers that the core's contract gives them.
use dop_api.Base.{ℕ, String, nat_eq, ◌==◌, ◌≡◌, arith, if◌then◌else◌}
use dop_api.Coreclient.Convert.{role_name}

abbrev pub role_numbered : ℕ → String
role_numbered n =
    if n == 1
    then "owner"
    else if n == 2
    then "admin"
    else if n == 3
    then "developer"
    else if n == 4
    then "viewer"
    else ""

pub role_name-role_numbered : (n : ℕ) → role_name n ≡ role_numbered n
role_name-role_numbered n = ground arith
