-- ===== src/Platform/Edge.antt =====
-- A call of the edge: it reads the context variables, acts on the world outside, and returns or
-- raises. What the world is made of is a parameter of the whole development: a call of the core
-- or of a clock changes it, and a call that was refused leaves it as it was.
use dop_api.Base.{Bool, true, false, List, [], ◌∷◌, Option, none, some}
use dop_api.Platform.Context.{Scope, AuthContext}
use dop_api.Platform.Errors.{Error, Result, done, raised}

abbrev pub Edge : Type 0 → Type 0 → Type 0
Edge W A = Scope → W → Result A × W

module _ {W : Type 0} where
  abbrev pub pure : {A : Type 0} → A → Edge W A
  pure a s w = (done a, w)

  abbrev pub raise : {A : Type 0} → Error → Edge W A
  raise e s w = (raised e, w)

  -- `raise HTTPException(status_code, detail)`.
  abbrev pub refusing : {A : Type 0} → Result A → Edge W A
  refusing r s w = (r, w)

  infixl 5 ◌>>=◌ ◌>>◌
  abbrev pub ◌>>=◌ : {A B : Type 0} → Edge W A → (A → Edge W B) → Edge W B
  ◌>>=◌ m f s w = let (r, w') = m s w in elim r [ done a ↦ f a s w' | raised e ↦ (raised e, w') ]

  abbrev pub ◌>>◌ : {A B : Type 0} → Edge W A → Edge W B → Edge W B
  m >> k = m >>= λ _. k

  abbrev pub scope : Edge W Scope
  scope s w = (done s, w)

  -- `auth_ctx.get()`, an attribute of which is read at once: without a context that raises.
  abbrev pub caller : Edge W AuthContext
  caller s w = elim s.auth_ctx [
    | none ↦ (raised (Error.failure "'NoneType' object has no attribute"), w)
    | some ctx ↦ (done ctx, w)
  ]

  -- `[await f(x) for x in xs]`.
  unfoldable pub for_each : {A B : Type 0} → (A → Edge W B) → List A → Edge W (List B)
  for_each f [] = pure []
  for_each f (x ∷ xs) = do y ← f x; ys ← for_each f xs; pure (y ∷ ys)

-- The order in which concurrent calls come to their end.
pub data Order : Type 0 where
  abc acb bac bca cab cba : Order

abbrev pub error_of : {A : Type 0} → Result A → Option Error
error_of (done a) = none
error_of (raised e) = some e

abbrev first_error : Option Error → Option Error → Option Error → Option Error
first_error (some e) f g = some e
first_error none (some f) g = some f
first_error none none g = g

-- The error that came first.
unfoldable pub first_in : Order → Option Error → Option Error → Option Error → Option Error
first_in abc a b c = first_error a b c
first_in acb a b c = first_error a c b
first_in bac a b c = first_error b a c
first_in bca a b c = first_error b c a
first_in cab a b c = first_error c a b
first_in cba a b c = first_error c b a

-- The three results, or the first failure.
unfoldable pub settle :
    {A B C : Type 0} → Option Error → Result A → Result B → Result C → Result (A × B × C)
settle _ (done a) (done b) (done c) = done (a, b, c)
settle (some e) _ _ _ = raised e
settle none _ _ _ = raised (Error.failure "unreachable")

module _ {W A B C : Type 0} where
  -- `asyncio.gather(a, b, c)`, each call taken as one step: all three run to their end, in an order
  -- that the caller does not choose, and the first failure is raised.
  unfoldable pub gather : Order → Edge W A → Edge W B → Edge W C → Edge W (A × B × C)
  unfolding settle first_in
  gather abc a b c s w =
      let (x, w') = a s w in
      let (y, w'') = b s w' in
      let (z, v) = c s w'' in
      (settle (first_in abc (error_of x) (error_of y) (error_of z)) x y z, v)
  gather acb a b c s w =
      let (x, w') = a s w in
      let (z, w'') = c s w' in
      let (y, v) = b s w'' in
      (settle (first_in acb (error_of x) (error_of y) (error_of z)) x y z, v)
  gather bac a b c s w =
      let (y, w') = b s w in
      let (x, w'') = a s w' in
      let (z, v) = c s w'' in
      (settle (first_in bac (error_of x) (error_of y) (error_of z)) x y z, v)
  gather bca a b c s w =
      let (y, w') = b s w in
      let (z, w'') = c s w' in
      let (x, v) = a s w'' in
      (settle (first_in bca (error_of x) (error_of y) (error_of z)) x y z, v)
  gather cab a b c s w =
      let (z, w') = c s w in
      let (x, w'') = a s w' in
      let (y, v) = b s w'' in
      (settle (first_in cab (error_of x) (error_of y) (error_of z)) x y z, v)
  gather cba a b c s w =
      let (z, w') = c s w in
      let (y, w'') = b s w' in
      let (x, v) = a s w'' in
      (settle (first_in cba (error_of x) (error_of y) (error_of z)) x y z, v)

module _ {A B : Type 0} where
  abbrev pub first_of_two : Bool → Result A → Result B → Result (A × B)
  first_of_two _ (done a) (done b) = done (a, b)
  first_of_two _ (done a) (raised f) = raised f
  first_of_two _ (raised e) (done b) = raised e
  first_of_two true (raised e) (raised f) = raised e
  first_of_two false (raised e) (raised f) = raised f

module _ {W A B : Type 0} where
  -- `asyncio.gather(a, b)`; the flag says whether `a` ends first.
  unfoldable pub gather_two : Bool → Edge W A → Edge W B → Edge W (A × B)
  gather_two true a b s w =
      let (x, w') = a s w in let (y, w'') = b s w' in (first_of_two true x y, w'')
  gather_two false a b s w =
      let (y, w') = b s w in let (x, w'') = a s w' in (first_of_two false x y, w'')
