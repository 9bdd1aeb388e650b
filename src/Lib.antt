-- ===== src/Lib.antt =====
-- dop-api is the edge of a development platform: one Python process that answers REST and gRPC
-- clients by calling a core over gRPC. This library models it and proves what the edge answers for.
--
-- A request comes in by one of two ports. On both a token is verified, a resolver asks the core who
-- the user is and which role they hold in the active account, and the answer becomes the calling
-- context. A use case runs behind decorators that check that context, calls the core with metadata
-- made from it, and turns the core's messages into models of the edge's own. A failure of the core is
-- translated into a status of the port by which the client came.
--
-- The files follow the packages of app/:
--
--   Base               the operations of Python's text, lists and integers that the code calls, and
--                      Base/Table the two-way vocabularies of enumerations
--   Platform/Context   app/platform/context.py: Principal, AuthContext and the context variables
--   Platform/Errors    app/platform/errors.py: the tables of statuses; exceptions are values, Error
--   Platform/Edge      the monad of a call: it reads the context, changes a world, returns or raises;
--                      `gather` is asyncio.gather with the order in which the calls end as argument
--   Platform/Decorator app/platform/security/decorator.py: account_scoped, require_role, require_grant
--   Platform/Routes    the same file: public, token_only and register_public_routes
--   Platform/Firebase  app/platform/security/firebase.py: FirebaseVerifier with its certificate cache
--   Platform/Auth      app/platform/security/middleware.py: AuthMiddleware.dispatch
--   Platform/Admin     app/platform/security/firebase_admin.py: the access token and the action links
--   Platform/Tracing   app/platform/tracing.py: `setup`, on the settings that it reads
--   Platform/Lease     what a cached token is meant to be: one abstract lease, which the caches of
--                      Platform/Admin and Coreclient/Service implement
--   Platform/Logging   app/platform/logging: config.py with the mask, decorator.py in Logging/Calls,
--                      middleware.py and the unary logging interceptor in Logging/Requests
--   Grpcapi            app/grpcapi: interceptors.py, with its streaming halves in Interceptors/Streams
--                      and Interceptors/Logging, convert.py, and the fourteen servicers, each in the
--                      module of its file; server.py's stack of interceptors in Grpcapi/Server
--   Coreclient         app/coreclient: client.py, callauth.py, convert.py and resolver.py
--   Coreclient/Service app/coreclient/client.py: _ServiceIdentity, the service's own token
--   Usecases/Workflow  app/usecases/workflow.py
--   Usecases/Demand    app/usecases/demand.py, with its vocabularies and models in Demand/Views
--   Usecases/Delivery  app/usecases/delivery.py, with `_refusal` in Delivery/Refusal
--   Usecases/Cost      app/usecases/cost.py
--   Usecases/Attention app/usecases/attention.py
--   Usecases/Hierarchy app/usecases/hierarchy.py
--   Usecases/Identity  app/usecases/identity.py: accounts, members and invites, with Profile and
--                      Verification for the person and the proof of an address
--   Usecases/SecondFactor, Execution, Resource, Knowledge, Runtime, Catalog
--                      the use cases of the same names
--   Usecases/Stream    app/usecases/stream.py; the generator `_pump` is the state machine of
--                      Stream/Pump, a stream that is taken to its end the list in Stream/Yields
--   Usecases/Forms     the constraints on the fields of the models that a client fills in
--   Routers/Stream     app/routers/stream.py: _sse_events over such a stream, and the three endpoints
--   Routers/Delivery   app/routers/delivery.py, with the status of a refusal
--   Routers            app/routers: the other routes, each its use case
--   App                app/main.py: the stack of REST, and the start and end of the process in
--                      App/Lifespan
--   Tests              each result at a concrete input
--
-- A function keeps its name, less a leading underscore; a private translation `_demand` is
-- `demand_of`. A use case is an Edge action with the stub of its service and the outside world
-- (identifiers, clock, MAC, base64) as parameters, and a method of a stub is any function from
-- metadata, request and world to a message or an error. So what is stated of a use case holds for
-- whatever the core may answer. The record of a protobuf message holds the fields that the edge reads
-- or writes, a reference by its id and an enumeration by its number; an absent submessage is `none`.
--
-- Text is the native text with Python's white space. Amounts of money are integers of either sign
-- and unbounded, as they are in Python; protobuf's own 64-bit range is not modelled, and a JSON
-- number is an integer. Times are in microseconds, and the clock is a function of the world. The
-- generator of a stream is run by a list of its consumer's actions. No definition has fuel: every
-- loop of the code modelled here goes down a list, a text or a tree of routes, and is a structural
-- recursion. Concurrent reads are taken as one step each.
--
-- Not modelled: the framework's part of REST, which finds a route, decodes its request and sets the
-- status of a success; the other settings, instrumentation and stub construction; the set-up of the
-- logging library; the generated protobuf code; sockets, CORS and reflection. The text of
-- pydantic's message is left out: an error of validation names the first field that breaks its
-- constraint. On REST the framework checks a body before a route runs. The @log decorator is
-- modelled apart from the functions that it stands on, since it returns or raises what they do.
-- The libraries (token decoding, certificates, hashes, HMAC, base64, regular expressions) are
-- parameters, with their documented behaviour as named hypotheses where a theorem rests on it.
pub mod Base
pub mod Platform
pub mod Coreclient
pub mod Usecases
pub mod Grpcapi
pub mod Tests
pub mod Routers
pub mod App
