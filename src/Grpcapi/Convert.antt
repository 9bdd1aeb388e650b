-- ===== src/Grpcapi/Convert.antt =====
-- app/grpcapi/convert.py: the vocabulary of the edge's own contract, `dop.bff.v1`.
use dop_api.Base.{ℕ, String, [], ◌∷◌, nat_eq, string_eq}
use dop_api.Base.Table.{Table, name_of, value_of}

abbrev pub role_to_name : Table
role_to_name = (1, "owner") ∷ (2, "admin") ∷ (3, "developer") ∷ (4, "viewer") ∷ []

abbrev pub kind_from_name : Table
kind_from_name = (1, "personal") ∷ (2, "organization") ∷ []

abbrev pub status_from_name : Table
status_from_name = (1, "pending") ∷ (2, "accepted") ∷ (3, "expired") ∷ (4, "revoked") ∷ []

abbrev pub role_enum : String → ℕ
role_enum = value_of role_to_name

abbrev pub role_name : ℕ → String
role_name = name_of role_to_name

abbrev pub kind_enum : String → ℕ
kind_enum = value_of kind_from_name

abbrev pub status_enum : String → ℕ
status_enum = value_of status_from_name
