-- ===== src/Platform/Routes.antt =====
-- app/platform/security/decorator.py: which routes are exempt from authentication. Whether a
-- compiled route template matches a path is a parameter, the regular expressions' `match`.
pub mod Laws
use dop_api.Base.{
  String, Bool, true, Option, none, some, List, [], ◌∷◌, ◌++◌, map, ◌&&◌, ◌==◌, string_eq, is_empty,
  any, if◌then◌else◌,
}

-- The marks that `public` and `token_only` set on a handler.
pub record Endpoint : Type 0 where
  pub is_public : Bool
  pub is_token_only : Bool

abbrev pub public : Endpoint → Endpoint
public func = record func { is_public = true }

abbrev pub token_only : Endpoint → Endpoint
token_only func = record func { is_token_only = true }

pub record Leaf : Type 0 where
  pub endpoint : Option Endpoint
  pub path : String
  pub methods : List String

-- A registered route, or a wrapper around the routes of an included router. An empty wrapper is
-- itself a leaf to the sweep, with no endpoint.
mutual
  pub data Route : Type 0 where
    leaf : Leaf → Route
    included : Routes → Route

  pub data Routes : Type 0 where
    nil : Routes
    cons : Route → Routes → Routes

abbrev pub no_endpoint : Leaf
no_endpoint = record { endpoint = none; path = ""; methods = [] }

-- `_flatten`.
unfoldable mutual
  pub flatten_route : Route → List Leaf
  flatten_route (leaf l) = l ∷ []
  flatten_route (included nil) = no_endpoint ∷ []
  flatten_route (included (cons r rs)) = flatten_route r ++ flatten rs

  pub flatten : Routes → List Leaf
  flatten nil = []
  flatten (cons r rs) = flatten_route r ++ flatten rs

-- A method, in upper case, and a template.
pub record Pattern : Type 0 where
  pub method : String
  pub template : String

-- `_PUBLIC_PATTERNS` and `_TOKEN_ONLY_PATTERNS`.
pub record Registry : Type 0 where
  pub public_patterns : List Pattern
  pub token_only_patterns : List Pattern

pub record HttpRequest : Type 0 where
  pub method : String
  pub path : String
  pub authorization : String
  pub account : String

module _ (upper : String → String) (matches : String → String → Bool) where
  abbrev pub patterns_of : Leaf → List Pattern
  patterns_of l = map (λ m. record { method = upper m; template = l.path }) l.methods

  abbrev pub append_to : Registry → Endpoint → List Pattern → Registry
  append_to reg e ps =
      if e.is_public
      then record reg { public_patterns = reg.public_patterns ++ ps }
      else if e.is_token_only
      then record reg { token_only_patterns = reg.token_only_patterns ++ ps }
      else reg

  -- One round of the sweep.
  abbrev pub register_leaf : Leaf → Registry → Registry
  register_leaf l reg = elim l.endpoint [
    | none ↦ reg
    | some e ↦ if is_empty l.path then reg else append_to reg e (patterns_of l)
  ]

  pub register_leaves : List Leaf → Registry → Registry
  register_leaves [] reg = reg
  register_leaves (l ∷ ls) reg = register_leaves ls (register_leaf l reg)

  -- `register_public_routes`: both tables are cleared first.
  pub register_public_routes : Routes → Registry
  unfolding register_leaves flatten
  register_public_routes routes =
      register_leaves (flatten routes) (record { public_patterns = []; token_only_patterns = [] })

  abbrev pub is_listed : List Pattern → HttpRequest → Bool
  is_listed ps req = any (λ p. p.method == upper req.method && matches p.template req.path) ps

  abbrev pub is_public : Registry → HttpRequest → Bool
  is_public reg = is_listed reg.public_patterns

  abbrev pub is_token_only : Registry → HttpRequest → Bool
  is_token_only reg = is_listed reg.token_only_patterns
