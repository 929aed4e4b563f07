-- ===== src/Lib.antt =====
-- SAMS is the back end of a school administration system: one control plane for all schools, one
-- database per school (a tenant), and services for events, students, the school year and accounts.
-- This library models the parts that carry its rules and proves what keeps them correct.
--
-- How the parts interact. A request carries a CurrentUser, built from its token
-- (app/core/dependencies.py). Every service method asks the authorization gate `authz.require`
-- (app/core/authz.py) about the roles of that user, then reads and writes the tenant's tables through
-- TenantRepository (app/domains/tenant/tenant_repository.py). The service methods themselves are in
-- app/domains/tenant/service.py, with app/domains/events/service.py in front of the event part.
--
-- The files, and the code they follow:
--   Base            what the modules share: Python's tests (Base/Tests), lists that stand for sets and
--                   for the rows of a table (Base/Lists, Base/Rows), service calls that read and write a
--                   store and may raise (Base/Actions, Base/Frames, Base/Invariants,
--                   Base/Ends), and str.strip (Base/Text)
--   Authz           authz.require and CurrentUser.has_role, has_any_role and can; Authz/Catalog has the
--                   table COMPOSITE_ROLE_PERMISSIONS, Authz/Gate and Authz/Roles the proofs
--   Tenant          the tables of _initialize_tenant_tables (app/core/database.py) that the other files
--                   use, as the record Store, and the queries of TenantRepository on them; Tenant/Years
--                   has the rows of the academic years and of the rollover, Tenant/Supplies those of
--                   the resources
--   Event           check_event_permission and EventService (Event/Permission), transition_event
--                   (Event/Workflow, with its table in Event/Workflow/Table and its side effects in
--                   Event/Workflow/Effects), and the proofs: Event/Guards the guards, Event/Delivery and
--                   Event/Notices the notifications, Event/Steps one step, Event/Lifecycle sequences of them,
--                   Event/Publication what publishing does, Event/Rights the permissions;
--                   Event/Resources has the resource lines and their costs: the queries
--                   (Event/Resources/Rows), the calls of EventService and TenantService
--                   (Event/Resources/Calls), the endpoints of app/domains/events/router.py
--                   (Event/Resources/Endpoints), and the proofs: Event/Resources/Exact, Event/Resources/Priced,
--                   Event/Resources/Repriced, Event/Resources/Kept, Event/Resources/Edited and
--                   Event/Resources/Costs the costs, Event/Resources/Replaced the replacement of the
--                   lines, Event/Resources/Summary the summary
--   Rollover        the year rollover: the plan (Rollover/Plan, _recompute_rollover_lines and
--                   upsert_rollover_lines, over the facts of Rollover/Plan/Facts and the cells of
--                   Rollover/Plan/Capacity), the calls before the commit (Rollover/Service), the commit
--                   (Rollover/Commit, commit_year_rollover, with its loops in Rollover/Commit/Targets
--                   and Rollover/Commit/Lines), and the proofs: Rollover/Upsert and
--                   Rollover/Recompute the stored lines, Rollover/Preview the preview, Rollover/Calendar,
--                   Rollover/Students and Rollover/Classes the loops of the commit, Rollover/CommitRun,
--                   Rollover/Turnover, Rollover/Placement and Rollover/Stamps the commit as a whole
--   Enrollment      enrollments and payments: the queries (Enrollment/Rows), enroll_student,
--                   cancel_enrollment and pay_enrollment (Enrollment/Service), the routes of
--                   app/domains/students/router.py that make and decide an enrollment
--                   (Enrollment/Approval), and the proofs: Enrollment/Consent how a request starts,
--                   Enrollment/Decisions who decides what,
--                   Enrollment/Counts and Enrollment/Uniqueness how often a student is enrolled,
--                   Enrollment/CancelSteps and Enrollment/Cancellation the cancellation,
--                   Enrollment/Payment paying and cancelling
--   Account         the control plane and the sessions: its tables with the users of all tenants (Account),
--                   the queries of ControlPlaneRepository and UserRepository (Account/Directory),
--                   memberships and access requests (Account/Memberships), refresh tokens and selection
--                   challenges (Account/Tokens), and AuthService of app/domains/auth/service.py: the
--                   candidates of a login (Account/Candidates), login_user (Account/Login), login_redeem
--                   (Account/Redeem), invitations (Account/Invites), register_user (Account/Register) and
--                   change_password (Account/Passwords); and the proofs: Account/Pools what opening a
--                   tenant writes, Account/Rotation, Account/Reuse, Account/LiveTokens and
--                   Account/Families the refresh tokens, Account/Lifecycle, Account/Diagram and
--                   Account/Standing the memberships, Account/Genuine, Account/Scan, Account/Sessions,
--                   Account/Answers and Account/Admission the login, Account/SingleUse the challenges,
--                   Account/NewPassword, Account/ChangedPassword and Account/LoginHash the passwords, Account/Codes,
--                   Account/Registration, Account/Registering and Account/Operator the registration
-- Each part's Tests module evaluates the model and applies the theorems to a concrete school.
--
-- How code becomes a definition. A table is the list of its rows in the order of insertion; a query is
-- first_row or where_rows, an UPDATE is update_rows, and a key is a number taken from one counter,
-- next_id, that starts above zero. A service method is a function of its arguments and the store to a
-- result and a store (Action); an exception is the value err, and what was written before it stays
-- written, except inside a transaction, which restores the store. The message of an exception keeps the
-- source's text, with the quoted expressions unevaluated. Times are numbers that the caller supplies,
-- money is counted in cents, the prices of resources in ten-thousandths, as their columns hold it.
-- The database's refusals of a notification, a payment, a reviewer, a resource line and an account (a
-- unique or foreign key, a column that is NOT NULL or of bounded length) are checks before the write, and
-- errors. Outside Account the calls that fetch a pool for a tenant are left out: each definition there is
-- about the store of one tenant. All loops run over finite lists and are structural recursions, so
-- no definition has fuel. One call runs at a time: the row lock of the commit is not modelled.
--
-- What is outside. The policy engine behind CurrentUser.can is a parameter. In Account the record Outside
-- has what a call takes from elsewhere: the clock, the settings, sha256, the password hash of passlib,
-- whether a tenant's database answers, and the secrets and keys that are drawn; an access token is its
-- claims, a set of tenants is walked in an order that the caller gives, letters beyond ASCII have no case,
-- and the calls of the identity provider, the e-mails and the cache of memberships are left out. What
-- register_user writes for a student in the tables of the tenant is a parameter. The columns that no rule
-- reads (names in other tables, colours, updated_at) are left out of the rows, and the joins and
-- orderings that only serve display are left out of the queries. The order in which the database
-- lists the resources of an event is a parameter. Not modelled: the ticket prices of events, the
-- lists that a user sees, the route that guards paying, the upkeep of students, classes and levels,
-- health records, the family and school profiles, imports, the audit log, analytics, and everything
-- that is network or database plumbing.
pub mod Base
pub mod Tenant
pub mod Authz
pub mod Event
pub mod Account
pub mod Enrollment
pub mod Rollover
