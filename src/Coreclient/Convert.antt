-- ===== src/Coreclient/Convert.antt =====
-- app/coreclient/convert.py: the identity vocabulary.
pub mod Laws
use dop_api.Base.{ℕ, String, [], ◌∷◌}
use dop_api.Base.Table.{Table, name_of, value_of}

abbrev pub role_to_name : Table
role_to_name = (1, "owner") ∷ (2, "admin") ∷ (3, "developer") ∷ (4, "viewer") ∷ []

abbrev pub kind_to_name : Table
kind_to_name = (1, "personal") ∷ (2, "organization") ∷ []

abbrev pub invite_status_to_name : Table
invite_status_to_name = (1, "pending") ∷ (2, "accepted") ∷ (3, "expired") ∷ (4, "revoked") ∷ []

abbrev pub role_name : ℕ → String
role_name = name_of role_to_name

-- `name.lower()` is the first argument.
abbrev pub role_value : (String → String) → String → ℕ
role_value lower name = value_of role_to_name (lower name)

abbrev pub account_kind_name : ℕ → String
account_kind_name = name_of kind_to_name

abbrev pub invite_status_name : ℕ → String
invite_status_name = name_of invite_status_to_name
