-- ===== src/Platform/Routes/Laws.antt =====
-- What the sweep registers: exactly the marked handlers, wherever they hang.
use dop_api.Base.{
  ◌∙◌, map, String, Bool, false, Option, none, some, List, [], ◌∷◌, ◌++◌, ◌&&◌, ◌||◌, not, ◌==◌,
  string_eq, is_empty, any, ◌≡◌, refl, arith,
}
use dop_api.Platform.Routes.{
  Route, leaf, included, nil, cons, no_endpoint, flatten_route, Routes, is_token_only,
  register_public_routes, flatten, Endpoint, Leaf, Pattern, Registry, HttpRequest, patterns_of,
  register_leaf, register_leaves, is_listed, is_public,
}

any-append {ℓ} :
    {A : Type ℓ} (p : A → Bool) (xs ys : List A) → any p (xs ++ ys) ≡ (any p xs || any p ys)
any-append p [] ys = refl
any-append p (x ∷ xs) ys = ground (arith, any-append p xs ys)

abbrev pub marks : (Endpoint → Bool) → Option Endpoint → Bool
marks mark none = false
marks mark (some e) = mark e

abbrev pub token_mark : Endpoint → Bool
token_mark e = not e.is_public && e.is_token_only

any-map :
    {A B : Type 0} (p : B → Bool) (f : A → B) (xs : List A)
    → any p (map f xs) ≡ any (λ x. p (f x)) xs
any-map p f [] = refl
any-map p f (x ∷ xs) = ground (arith, any-map p f xs)

-- Some route that is registered, or hangs in an included router at any depth.
abbrev mutual
  pub some_leaf : (Leaf → Bool) → Route → Bool
  some_leaf p (leaf l) = p l
  some_leaf p (included rs) = some_leaves p rs

  pub some_leaves : (Leaf → Bool) → Routes → Bool
  some_leaves p nil = false
  some_leaves p (cons r rs) = some_leaf p r || some_leaves p rs

module _ (p : Leaf → Bool) (empty : p no_endpoint ≡ false) where
  mutual
    unfolding flatten

    any-flatten_route : (r : Route) → any p (flatten_route r) ≡ some_leaf p r
    any-flatten_route (leaf l) = ground arith
    any-flatten_route (included nil) = ground (arith, empty)
    any-flatten_route (included (cons r rs)) =
        ground
          (arith, any-append p (flatten_route r) (flatten rs), any-flatten_route r, any-flatten rs)

    any-flatten : (rs : Routes) → any p (flatten rs) ≡ some_leaves p rs
    any-flatten nil = refl
    any-flatten (cons r rs) =
        ground
          (arith, any-append p (flatten_route r) (flatten rs), any-flatten_route r, any-flatten rs)

module _ (upper : String → String) (matches : String → String → Bool) (req : HttpRequest) where
  -- A route whose handler is marked, and whose method and template are the request's.
  abbrev pub serves : (Endpoint → Bool) → Leaf → Bool
  serves mark l =
      marks mark l.endpoint
      && not (is_empty l.path)
      && any (λ m. upper m == upper req.method && matches l.path req.path) l.methods

  listed-methods :
      (l : Leaf)
      → is_listed upper matches (patterns_of upper matches l) req
        ≡ any (λ m. upper m == upper req.method && matches l.path req.path) l.methods
  listed-methods l =
      any-map (λ (p : Pattern). p.method == upper req.method && matches p.template req.path)
        (λ m. record { method = upper m; template = l.path }) l.methods

  register_leaves-public :
      (ls : List Leaf) (reg : Registry)
      → is_public upper matches (register_leaves upper matches ls reg) req
        ≡ (is_public upper matches reg req || any (serves (λ e. e.is_public)) ls)
  unfolding register_leaves
  register_leaves-public [] reg = ground arith
  register_leaves-public (l ∷ ls) reg = ground (
    arith,
    register_leaves-public ls (register_leaf upper matches l reg),
    any-append (λ (p : Pattern). p.method == upper req.method && matches p.template req.path)
        reg.public_patterns (patterns_of upper matches l),
    listed-methods l,
  )

  register_leaves-token :
      (ls : List Leaf) (reg : Registry)
      → is_token_only upper matches (register_leaves upper matches ls reg) req
        ≡ (is_token_only upper matches reg req || any (serves token_mark) ls)
  unfolding register_leaves
  register_leaves-token [] reg = ground arith
  register_leaves-token (l ∷ ls) reg = ground (
    arith,
    register_leaves-token ls (register_leaf upper matches l reg),
    any-append (λ (p : Pattern). p.method == upper req.method && matches p.template req.path)
        reg.token_only_patterns (patterns_of upper matches l),
    listed-methods l,
  )

  -- After the sweep a request is exempt from the token exactly if a handler marked public serves
  -- it, and needs a token but no account exactly if a handler serves it that is marked so and not
  -- public, however deep the handler hangs in included routers. A handler serves a request by its
  -- template and one of its methods, in whatever case they are written.
  pub register_public_routes-exact :
      (routes : Routes)
      → (is_public upper matches (register_public_routes upper matches routes) req
          ≡ some_leaves (serves (λ e. e.is_public)) routes)
        × (is_token_only upper matches (register_public_routes upper matches routes) req
            ≡ some_leaves (serves token_mark) routes)
  unfolding register_public_routes
  register_public_routes-exact routes = (
    register_leaves-public (flatten routes)
          (record { public_patterns = []; token_only_patterns = [] })
        ∙ any-flatten (serves (λ e. e.is_public)) refl routes,
    register_leaves-token (flatten routes)
          (record { public_patterns = []; token_only_patterns = [] })
        ∙ any-flatten (serves token_mark) refl routes,
  )
