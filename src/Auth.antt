-- ===== src/Auth.antt =====
-- src/auth and src/users: accounts, log-in, tokens, and the guards of the routes. bcrypt, the JWT
-- library and TypeORM's `Repository<User>` are not code of the repository: `Accounts` and `Tokens` have
-- the calls that the code makes.
mod Tests
pub mod Memory
pub mod Users
pub mod Service
pub mod Guards
pub mod Sessions
pub mod Handlers
