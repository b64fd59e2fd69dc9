-- ===== src/Lib.antt =====
-- Verification library of the tarassov.me backend, a C++ web service with a background worker.
--
-- The program: a request meets the advices of src/api/Middleware.hpp in the order of
-- src/api/Api.hpp before its controller: its content type, who sends it (src/security/Auth.hpp,
-- Jwt.hpp, ApiKeys.hpp), the CSRF token (Csrf.hpp), the rate limit (RateLimit.hpp) and the
-- idempotency key (Idempotency.hpp), the last two over Redis. The controllers read it with
-- src/api/RequestUtils.hpp and src/api/Validation.hpp, keep files through src/storage/Storage.hpp,
-- and the repositories build their ORDER BY with src/repositories/ListQuery.hpp. Controllers submit
-- jobs to a queue in Redis (src/jobs/Jobs.hpp) and workers (src/worker_main.cpp) pick them, hand
-- them to the handlers of src/jobs/Dispatcher.hpp and complete, fail or bury them; sweeps bring back
-- what a crashed worker held. Sessions are tokens whose ids stand in Redis (src/api/AuthController.hpp),
-- and the links of mails are tokens that are used once (src/api/AccountController.hpp, over the
-- transactions of src/database/Database.hpp). A process starts its parts in the order of
-- src/core/Core.hpp, with the values of src/utils/Config.hpp, and applies the migrations of the
-- database (src/database/Migrations.hpp). src/utils holds what all of these share.
--
-- The files:
--   Prelude      numbers, bytes, lists and tests. A text is the list of its bytes; an `int` is an ℤ,
--                or an ℕ where the code keeps it from being negative.
--   External     what the program uses of Redis, its Lua scripts, nlohmann::json and OpenSSL, as
--                records of operations and laws (Redis, KeyValue for keys that run out, Sets,
--                Scripts, Json, Signing); and Remote, the world of a client of Redis: each command may
--                succeed, be refused, or be carried out with its reply lost, as a list of faults
--                says, and an exception is an error that ends the method. Remote/Keeps, Yields,
--                Gives, Ends and Calm are the rules to reason about its actions. Samples, Ciphers and
--                Server have instances.
--   Utils        src/utils: Retry (Policy, run, compute_delay_ms, the classifiers), Strings
--                (split_csv_vec, path_is_public, mask_email), Pg (quote_value, make_conninfo,
--                with_connect_timeout), Base64 (url_encode, url_decode), Hex (bytes_to_hex and
--                constant_time_equals of Crypto.hpp, hex_to_bytes of src/worker_main.cpp), Config (expand_string, find_nested_node, get,
--                require, get_optional).
--   Jobs         src/jobs: Model is Job.hpp and the fields and pure helpers of JobQueue; Queue has
--                submit, pick, complete, fail, dead_letter, requeue_from_dlq, cancel, get_status and
--                set_trace_id; Sweep has recover_processing, promote_due_jobs and
--                reap_expired_leases; Listing has list_paged, list_dlq and dlq_depth; Worker has the
--                Dispatcher and a round of worker_loop. A method is an action of Remote, command by
--                command. Durable and Effects are about them: the first with any faults, through any
--                history of calls, the second where Redis answers.
--   Cache        src/cache/Cache.hpp: set, set_nx, get, del, exists and cached as actions of Remote;
--                parse_redis_url and parse_sentinel_nodes_csv.
--   Security     src/security: RateLimit (kSlidingWindowLua, check, check_protected, client_ip,
--                identity_for), Idempotency (pre_handle, post_handle), Jwt (verify_hs256_jwt,
--                issue_hs256_jwt), Tokens (issue, verify), Sessions (record, is_live, revoke_jti
--                and revoke_all of SessionStore.hpp), Auth (verify_jwt, the guards, with
--                extract_access_token of SessionCookies.hpp), ApiKeys (with Csrf.hpp).
--   Repositories src/repositories/ListQuery.hpp: safe_order_by.
--   Core         src/core/Core.hpp: Lifecycle has Application::initialize and shutdown, Validate
--                validate_config_ and the checks of the database password, Health the health checks.
--   Database     src/database: Migrations (scan_migrations, list_pending and the loop of initialize,
--                with what other instances apply between its steps), Pool (ConnectionPool, its
--                threads as steps), Execute (execute_with_ and the methods over it, with the turns
--                that the driver and the server take; execute_read with its replicas and fallback;
--                TracingTxn).
--   Storage      src/storage/Storage.hpp: key_is_safe and LocalStorage.
--   Webhooks     src/webhooks/Webhooks.hpp: url_host, host_is_blocked, process_job.
--   Observability src/observability/Trace.hpp: parse_traceparent, format_traceparent,
--                extract_or_generate.
--   Api          src/api: RequestUtils (is_valid_uuid, clamp_int, parse_page_params,
--                normalize_path_for_metrics), Validation (the field validators), Middleware (the
--                advices, run_advices for their chain, the headers of responses), Uploads (upload,
--                deleteUpload and serveUpload of UploadController.hpp), Handlers (with_repo_errors of
--                HandlerSupport.hpp and the exceptions of RepoErrors.hpp), Account (the handlers of
--                AccountController.hpp, with consume_once in Account/Nonce), Login (login, refresh,
--                logout and me of AuthController.hpp).
--
-- Bounds and fuel: the retry loop runs on one round for each attempt that its policy allows and one
-- more, since a round ends the loop or uses up an attempt. The loop that expands placeholders runs on one round for
-- each character and one more, since a round takes a character at least. The counter of active connections is a
-- size_t that wraps at 2 ^ 64. The backoff shifts an int64_t and keeps its wrap-around,
-- and base64url keeps that of its uint32_t. Times in seconds are integers without the bounds of an
-- int64_t. All other loops are structural.
--
-- Not modelled: logging, metrics and threads; the metric sink of Retry.hpp and its sleep; in Jobs.hpp
-- the depth counters by type, health_check, the blocking client and the global instance; the
-- reading of the configuration's file, its substitution through the whole tree and the values that a
-- part is started with; the metrics and the health check of the database; registerUser and the audit
-- rows of AuthController.hpp; the ids, access log and tracing of Middleware.hpp; the S3 backend; the
-- other controllers, SQL, mail and messaging. The expiry of a job's blob is recorded
-- and not run; that of the keys of KeyValue and of the rate limiter's windows is.
pub mod Prelude
pub mod External
pub mod Utils
pub mod Jobs
pub mod Security
pub mod Repositories
pub mod Api
pub mod Cache
pub mod Observability
pub mod Core
pub mod Database
pub mod Storage
pub mod Webhooks
