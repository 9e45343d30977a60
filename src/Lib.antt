-- ===== src/Lib.antt =====
-- nestjs-starter: the core of a NestJS backend.
--
-- The program is a set of services behind HTTP controllers. Requests reach a service, which reads
-- and writes tables through a repository, asks the clock and the random generator, and calls other
-- services; failures are HTTP exceptions.
--
-- How the code is modelled.
--   A service method is an action of `Exec`: from a state to a result, or an exception, and the state
--   that it leaves. `Database` is the interface of a table with a generated id; what TypeORM and
--   Postgres do is its laws, and `Database/Memory` is a table that meets them. SHA-256, the random
--   tokens and codes, and the notifier are arguments. Instants are milliseconds since the epoch; each
--   reading of the clock in a method is an argument of its own. Translated messages are their keys.
--
-- Which file models which part.
--   Otp, Otp/Service: src/modules/otps (entity and repository, then otp.service.ts).
--   RefreshTokens, RefreshTokens/Service: src/modules/refresh-tokens (entity and repository, then
--     refresh-token.service.ts).
--   Whatsapp/Queue, Whatsapp/Auth, Whatsapp/Connection: src/modules/whatsapp/services
--     (whatsapp-queue.service.ts, whatsapp-auth.service.ts, whatsapp.service.ts).
--   Storage: src/infrastructure/storage. Paths, Names, Sizes: utils; Validation: validation;
--     Compression: processing; Provider: the interface of the providers, with the abstract store that
--     both Local and Supabase fill; Service: service/storage.service.ts.
--   Text: the methods of strings that the sources use.
--   Cache, with Keys, Noop, Redis: src/infrastructure/cache (cache.service.ts, cache.constants.ts and the
--     drivers). Both drivers fill the interface `CacheDriver`, which the guard takes.
--   Filters, Filters/Handlers: src/core/filters (global-exception.filter.ts and error-handler.factory.ts,
--     then base, handlers and interfaces).
--   Pagination, Pagination/Pages: src/core/pagination.
--   Guards: src/core/guards, src/core/auth/user-resolver.registry.ts.
--   Users, Users/Service, Users/Auth: src/modules/users (entity and repository, user.service.ts over the
--     refresh tokens and the cache, user-auth.service.ts over all of them).
--   Domain: src/domain/enums.
--   Lookups, Lookups/Cities, Lookups/Areas: src/modules/cities and src/modules/areas (the admin calls
--     over both tables, with the unique indexes and the cascade that the entities declare)
--   Admins, Admins/Passwords, Admins/Service: src/modules/admins and src/shared/utils/password.util.ts
--     (updateMe, the hook that hashes a password, and the login)
--   Exec, Database, Prelude: shared by all; Database/Rows and Database/Keys have the lemmas on
--     queries and updates.
--
-- How the parts are cut.
--   `rotate` is the composition of `check` (up to the transaction) and `exchange` (the transaction);
--   in `Races` other requests take steps between the two. The queue's worker runs from one `await` to
--   the next; `Worker` says where it waits, and in `Runs` callers, timers, sends and the shutdown take
--   their steps in any order. `getOrSet` is a read, the factory and a write (`fill`), so that
--   `Users/Service/Races` can put a deactivation between them; elsewhere in `Users` and `Guards` a
--   call or a request is one step, and calls come one after the other. The fuel of
--   `decimal` is one more than the number, of which each round takes away a digit; that of the
--   compression's loop is one more than the quality, which each turn lowers.
--   In `Whatsapp/Auth` an upload and a deletion begin in one step and land in another; in
--   `Whatsapp/Connection` callers, timers, the socket's events and shutdowns take steps in any order.
--
-- What is not modelled: the upload of photos, the lists and pages of users, cities and
-- areas, the pipes and the controller of stored files, HTTP transport, decorators and dependency
-- injection, logging, the texts of translations, the digits of a generated code, and the unique
-- indexes on the hash of a refresh token, on a phone and on a username (a theorem that
-- needs them says so).
mod Prelude
mod Exec
mod Database
mod Domain
pub mod Admins
pub mod Cache
pub mod Filters
pub mod Guards
pub mod Lookups
pub mod Otp
pub mod Pagination
pub mod RefreshTokens
pub mod Users
pub mod Storage
pub mod Text
pub mod Whatsapp
