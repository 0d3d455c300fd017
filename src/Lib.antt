-- ===== src/Lib.antt =====
-- The template engine of benny-rs, its shared throttle and cache, its level curve, automod,
-- moderation with its sweeper, the prefixes, the tags, and parts of its API.
--
-- benny-rs is a Discord bot. Its cogs (src/cogs) answer commands and events; they share helpers
-- (src/utils), the state of the bot (src/state.rs), and the template engine (src/tagscript), which
-- renders the texts of tags and of welcome messages. Modelled here are:
--
--   Base            texts, integers, maps, and what the program calls of Rust's `str` and `i64`
--   Utils           src/utils
--     Utils/Cache       cache.rs: `bounded_insert`
--     Utils/RateLimit   ratelimit.rs: `RateLimiter`
--     Utils/Roles       roles.rs: `role_rank`, `top_role`
--   Tagscript       src/tagscript
--     Tagscript/Host        the externals, as one record that the definitions take
--     Tagscript/Context     context.rs: `TagContext`, `get_var`, `string_index`
--     Tagscript/Lexer       lexer.rs: `tokenize`, `parse_block`
--     Tagscript/Blocks      blocks.rs: what the blocks do, a module for each family of them
--     Tagscript/Dispatch    blocks.rs: `process_block`
--     Tagscript/Engine      mod.rs: `resolve` and `run`
--   Cogs            src/cogs
--     Cogs/Levels           levels.rs: the level curve, and the award of XP and roles
--     Cogs/Automod          automod.rs: the filters, the windows, and the event handlers
--     Cogs/Moderation       moderation.rs: `can_act_on`
--       Moderation/Store        the tables, `create_case`, `record_timed`
--       Moderation/Calls        the calls of Discord, the guards, the answers
--       Moderation/Escalation   `apply_native_timeout`, `escalate`, `warn`
--       Moderation/Commands     the commands that punish a member or lift a punishment
--       Moderation/Policy       `ensure_mute_role`, `mute`, `reason`, `delcase`, `warnings`
--       Moderation/Sweep        `spawn_expiry_task`, one turn and many
--       Moderation/Invariant    what the tables keep to, command by command
--       Moderation/Steps        commands and rows of the sweeper in any order
--       Moderation/Channels     `purge`, `lock` and `unlock`
--     Cogs/Prefixes         prefixes.rs: its event handlers and commands
--     Cogs/Tags             tags.rs: the commands that change a tag, `on_ready`, `on_message`
--       Tags/Invoke             `invoke_tag`, `send_output_message`
--   State           src/state.rs: the prefixes of a guild, `starts_with_prefix`
--   Http            src/http
--     Http/Auth             auth.rs: `RateLimiter::allow`, `auth_middleware`
--     Http/Cases            v1/cases.rs: the routes that change a case
--     Http/Config           v1/config.rs: `put_prefixes`
--     Http/Policy           v1/config.rs: `put_warn_policy`, `put_moderation`; v1/mod.rs: ids
--
-- A `String` is the list of its code points, and a `char` its code point. A `u64`, `u32` or
-- `usize` is a natural number, with the wrap-around written out where the code can reach it; an
-- `i64` is an integer, and the sum of XP wraps. A `HashMap` or `DashMap` is an association list,
-- whose order stands for the order of iteration: what is shown of every list is shown of every
-- such order, and so of every choice of victims that `bounded_insert` makes. An `Instant` is a
-- natural number that the caller gives.
--
-- `f64`, `serde_json`, `chrono`, Unicode case tables, and the random numbers are not code of this
-- repository: they are the fields of `Host`, and no law of them is assumed. A panic is the outcome
-- `panicked`, or `none` in a reply of the engine.
--
-- What is passed as `&mut` to a block is one state, `Machine`: the context, the output, and how many
-- blocks have had a random number at hand. A block takes it and gives it back, and `resolve` threads
-- it through the tokens of a text in their order, as the source does.
--
-- A table of the database is an association list from primary keys to rows. Whether a statement
-- reaches the database, and what Discord answers to a call, are arguments; a command of moderation
-- gives its calls in their order, the tables after it, and its answer. The sweeper waits between
-- two rows, so Moderation/Steps lets any command come between them, on the rows scanned before; a
-- row itself is one step, although the task waits for Discord and the database while it handles
-- one. An id is a number: the casts between `u64` and `i64` keep ids apart.
--
-- What the automod handlers ask of Discord and of the database is a list of actions, in their
-- order; the answers that decide how a handler goes on are its arguments.
--
-- Loops are structural recursion or recursion on fuel. `tokenize` has the length of its input as
-- fuel, since each turn takes a character; `MathParser` six times the length and six more, since at
-- most six calls are made between two characters; `level_from_xp` the total, since a level takes an
-- XP at least. `resolve` recurses on the levels left, `MAX_DEPTH + 1 - depth`.
--
-- Not modelled: what Discord and the database do with a call, the commands that only show rows, the
-- texts of embeds, `parse_when` (its result is an argument), the context that a message gives a tag's
-- template, the playground of tags, the other cogs, the other routes of the
-- HTTP service, the other parts of the bot's state, and the configuration.
pub mod Base
pub mod Utils
pub mod Tagscript
pub mod State
pub mod Cogs
pub mod Http
