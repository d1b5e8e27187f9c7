-- ===== src/Lib.antt =====
-- A model of September, a web front end for NNTP newsgroups, and its theorems.
--
-- A request of the web server reaches the federated service, which holds the caches and one
-- service for each configured NNTP server, in priority order. A service queues requests for its
-- pool of workers, and each worker keeps one connection to the server. Articles come back as
-- overview entries or HDR data, are built into thread trees, cached, merged with newer articles,
-- and cut into pages for the templates. Logins are cookies that a middleware checks.
--
-- The files and the code that they model:
--   Base               shared names: lists over native numbers, maps with text keys as association
--                      lists, texts as code points, a sort by name, 64-bit arithmetic
--   Pagination         PaginationInfo and the page slices, src/nntp/mod.rs and src/nntp/federated.rs
--   Thread             ThreadNodeView, its walks with a stack, the flat list of comments and
--                      add_reply_to_node, src/nntp/mod.rs
--   Overview           build_threads_from_overview, build_threads_from_hdr and the two merges of new
--                      articles, src/nntp/mod.rs
--   Federated          failover, get_article with its caches, the directory of groups and servers,
--                      posting and the polling after it, debounce, high water marks, cached threads
--                      and their pages in the order of dates (Listing), the page of one thread with
--                      its bodies (Page), the callers that share a fetch (Flights) and the
--                      incremental updates and refreshes (Incremental), src/nntp/federated.rs
--   Activity           GroupActivity and ActivityTracker, src/nntp/federated.rs
--   Worker             capabilities, priority queues, the worker's loop and counters, the requests
--                      it answers, the order of its threads, src/nntp/worker.rs; the messages of
--                      src/nntp/messages.rs
--   Newsgroups         GroupTreeNode: build_tree, build_tree_with_stats and the lookups by path,
--                      src/nntp/mod.rs; the names in a tree, src/routes/home.rs
--   Preview            is_quote_line, strip_block_quotes, compute_preview and compute_timeago,
--                      src/nntp/mod.rs, and the filters of src/templates.rs
--   Config             the configuration and AppConfig::load, src/config.rs
--   Posts              submit and reply, src/routes/post.rs
--   Service            the coalesced calls of NntpService as steps of many callers and as whole
--                      calls, and the choice of a queue, src/nntp/service.rs
--   Session            User and AuthFlowState of src/oidc/session.rs, auth_layer of
--                      src/middleware.rs, validate_return_to and callback of
--                      src/routes/auth.rs
-- A file below one of these holds a part of it or its proofs, and its Examples the tests and the
-- instances of theorems.
--
-- Conventions. State is a record that an operation takes and returns. A panic (an index out of
-- range, a division by zero) and a stack that is too small are `none`. `u64` and `usize` wrap around
-- at 2 ^ 64, as in a release build. Locks and awaits are left out: an operation is one step, and
-- where several workers or callers run at once their events or steps are an explicit sequence in
-- any order. Instants are numbers of a monotonic clock. A HashMap is iterated in the order of its
-- association list, which stands for any order; where the code takes the last key, the key is a
-- parameter.
--
-- Fuel. The walks with a stack (flatten, contains_message_id, collect_all_message_ids) take the
-- number of nodes, one unit for each node that is popped, and are proved to end with a result. The
-- recursion over the references takes the depth of the stack; it ends when the entries can be
-- ranked, each above the message that it answers, and otherwise may not.
--
-- Parameters. The accessors of an overview entry and the commands of the NNTP client (nntp_rs), the
-- dates that chrono parses, the sort of the standard library, which may panic, the jar of cookies of
-- axum_extra, and the caches of moka, whose laws say that a cache returns only what was inserted last
-- and may forget any entry. A call of the services may be dropped at any of its waits.
--
-- Not modelled: the set-up and rendering of templates, the HTTP server, the other routes, TLS, the
-- OIDC exchange, telemetry, the loops that spawn the refresh tasks and the table of these tasks
-- (one refresh is modelled, running alone), the callers that wait in get_new_articles_coalesced
-- (they do as those of get_groups in Federated/Flights), the cached counts of all groups,
-- floating-point rates, the fallback of a
-- worker to HEAD and parse_article.
mod Base
pub mod Pagination
pub mod Thread
pub mod Activity
pub mod Session
pub mod Federated
pub mod Overview
pub mod Worker
pub mod Service
pub mod Newsgroups
pub mod Preview
pub mod Config
pub mod Posts
