-- ===== src/Lib.antt =====
-- The authentication service of the accelerator packs: who may log in, which tokens are given out and
-- accepted, and what they permit.
--
-- The service is the Python package src/accelerator_pack_auth_service. Its handlers (main.py) call the
-- modules below them with one database session; each handler is modelled as a function of the
-- database, the instant of the request and the random values that it draws, and returns a result or an
-- error together with the database as it was committed, also beside an error.
--
-- The files and the code they are about:
--   Exec (Cases), Table (Laws, Membership, Joins, Ordering, Orders, Apart, Any), Queries: calls that read and write a
--     state; tables, and the queries that SQLAlchemy is used for.
--   Values: JSON values and dictionaries.
--   Models (Rows, Federation, Database): models.py. An instant is a number of microseconds in UTC.
--   External: the JSON and base64 codecs, bcrypt, SHA-256 and PyJWT, as parameters with named laws.
--   StrMethods, Decimal, ScopeString: the methods of `str` and the conversions of `int` that are used;
--     `parse_scope_string` of scopes.py, the validators of scope entries in schemas.py.
--   PackModels (Registry, Declared): pack_models/*.py, with the six packs as they are written.
--   Config (Profiles): config.py.
--   Keys (Signing, Rotation): crypto.py.
--   Scopes (Granting, Effective): scopes.py.
--   Permissions (Check, Permitted, Sound, Complete, Answers): `check_permission` of permission_service.py.
--   Seeding (Ensure, EachRole, Again, Granted): `seed_roles_and_permissions` of permission_service.py, and the
--     start-up (`lifespan` of main.py).
--   Sessions (Limit, Spent): the refresh tokens of auth.py.
--   Lockout (Window), Audit: the failed logins and `log_audit` of auth.py.
--   Tokens (Verification, Admission, Minting): the access tokens of auth.py and the dependencies that
--     guard the routes.
--   Clients (Created, Saving, Revoked): clients.py.
--   Oauth (Passed, Issuing, Refusing): `oauth_token` of main.py and its helpers.
--   Accounts (Login, Access, Logout, Traces, History; Traces.Entry): `register`, `login`,
--     `refresh_token`, `logout` and `revoke_token` (here `revoke_access_token`) of main.py.
--   Admin (Owners, Revocation): the handlers of main.py for service accounts and signing keys.
--   Roles (System, Granted), Assignments (Gained), Users (Audited, Deactivated), Collections (Levels),
--     Groups (Access): the handlers of main.py for roles and permissions, the roles of users, users,
--     the permissions on collections, and groups.
--   AuditService (Handlers, Paging, Retention): audit_service.py and the handlers that call it.
--   Sso (States with Live and Histories, Discovery with Https and Cached, Exchange with
--     IdToken, KeySets and Verified,
--     Provisioning with Users, Made and Linked, Mappings with Held and Assigned, Login, Providers with
--     Handlers): sso_service.py, and the handlers of main.py for the login over an identity provider,
--     for identity providers and for claim mappings.
--   Scim (Handlers, Refused, Deprovisioned, Partial): scim_service.py and the SCIM handlers of main.py.
--   Samples and the modules named Tests: concrete data, and each theorem applied to it.
--
-- State and errors: a table is a list of rows with the value of its identity column; a unique column is
-- a test before the insertion, which fails as the commit does. An HTTPException is its status and
-- detail (of a detail that is an object, the description); every other exception is a status 500. All
-- loops are structural, so no bound or fuel is used. Numbers that the code keeps as Python integers
-- are natural numbers; a difference of instants stops at the epoch.
--
-- The foreign keys are taken to be enforced as models.py declares them, with their cascades. A request
-- body that the code reads as a dictionary is a record of the keys that it reads, with values of the
-- types that the columns have. The order of the audit logs is a parameter of each query, since the code
-- orders them by the instant alone; a query on another table gives rows of one key in the order of
-- the table. `re.search` is a parameter, which may find the pattern malformed.
--
-- Not modelled: rate limits, headers that middleware sets, the description of the API, the health checks
-- and the database engine, since they are configuration of libraries; generation of RSA keys and the
-- rendering of a key for the JWKS document. The identity provider is a parameter, what it answers in
-- the course of one request, and so are the parts of PyJWT that read a foreign token. `tenant_id` is
-- stored by the tables and read by no modelled query, as in the code, save the constraint on the names
-- of roles.
pub mod Prelude
pub mod Exec
pub mod Table
pub mod Values
pub mod Models
pub mod PackModels
pub mod Keys
pub mod ScopeString
pub mod External
pub mod Samples
pub mod Scopes
pub mod Permissions
pub mod Sessions
pub mod Config
pub mod Decimal
pub mod Audit
pub mod Lockout
pub mod Tokens
pub mod Clients
pub mod StrMethods
pub mod Oauth
pub mod Accounts
pub mod Queries
pub mod Roles
pub mod Assignments
pub mod Users
pub mod Collections
pub mod Groups
pub mod AuditService
pub mod Seeding
pub mod Sso
pub mod Scim
pub mod Admin
