-- ===== src/Lib.antt =====
-- A verification library for mcp-llm-gateway-suite: four services between an AI agent and the
-- systems that it talks to.
--
-- The parts of the program and the files that model them. A billing server (task1_mcp_server)
-- offers tools to an agent; an MCP gateway (task2_mcp_gateway) stands in front of such a server,
-- authenticates the caller, asks the policy for every call of a tool and forwards what it
-- allows; a streaming guardrail (task3_streaming_guardrail) redacts personal data from a model's
-- answer while it streams; a model router (task4_router) limits the tokens of each API key,
-- tries a primary and a secondary provider, and keeps a circuit breaker for the primary.
--
-- Base, with Base/Tests, Base/Lists, Base/Int and Base/Text: numbers, Boolean tests, lists
-- measured by native numbers, Python's integers, and texts as lists of code points, with the
-- printing of numbers (digits_reversed, number_text) and str.split (split_once). Json: values of
-- Python's json, with a dict as its fields in order.
--
-- Billing: BillingStore of task1_mcp_server/store.py. Billing/Defs has the records and
-- create_refund, which is create_keyed on the key, then replay or create_new, then book. A call
-- of create_refund is one step, since the source holds a lock throughout. Billing/Ledger is
-- about money, Billing/Replay about idempotency keys.
--
-- Tools: the tools of task1_mcp_server over that store. Tools/Schemas is schemas.py, as a
-- decision on the arguments of a call with the types, bounds and validators that its Pydantic
-- models declare; Tools/Server is server.py, with handle_get_customer_record,
-- handle_trigger_refund and call_tool (whose steps 3 and 4 are execute). A call gives its result
-- or its McpError and the store after it. Tools/Valid is about the arguments, Tools/Effects
-- about the store.
--
-- Stdio: task1_mcp_server/stdio_guard.py. Stdio/Defs is reserve_stdout_for_protocol over a table
-- of file descriptors, where divert is what it does from os.dup on, Stdio/Writers what may write
-- afterwards; Purity and Reserved are about what reaches the wire. A text stands for the bytes
-- that it is encoded to.
--
-- Gateway: task2_mcp_gateway. Gateway/Auth is auth.py (extract_bearer_token, resolve_principal),
-- Gateway/Policy is policy.py (the character sets, normalize_method, normalize_tool_name,
-- ToolPolicy.evaluate), Gateway/Rpc has rpc_error and looks_like_rpc_request, Gateway/Authorize
-- has authorize and downstream_headers, Gateway/Proxy has filter_tools_response and a single
-- message (handle_single is steps 4 and 5 of proxy), Gateway/Batch has handle_batch and proxy. A
-- handler returns its response, none where an exception escapes it, and the list of its effects:
-- the messages sent downstream and the lines of the audit log. The server downstream is a
-- function of the number of messages sent before, the message and the headers, and may answer,
-- time out or fail. Gateway/Guard, Sends, Sound and Forward are about what is forwarded,
-- Spelling about ways to write a name, Denials and Answers about batches, Credentials about
-- tokens.
--
-- Regex and Redactor: task3_streaming_guardrail/redactor.py. Regex is a backtracking matcher for
-- the part of Python's re that the patterns use; Regex/Local is about how far a match looks,
-- Regex/Starts about what it can start with. Redactor/Patterns has PATTERNS and the tail rules,
-- Redactor/Scan has luhn_ok, _is_card and iter_matches, Redactor/Emit has redact_range,
-- pull_back_behind_straddling_match and holdback, Redactor/Stream has StreamRedactor.
-- Redactor/Matches is about the scan, Redactor/Guard about the cut, Redactor/Bounds about the
-- state over a stream. Redactor/Reference has redacted, which goes through a text from left to
-- right and replaces what is found at each place; Positions, Emitted and Complete compare the
-- scan of redact_complete with it. Local and Tails are about what a match needs of the text
-- around it, Settled and Pieces about a cut that no match straddles, Feeding and Faithful about
-- a stream of chunks against the same text in one pass.
--
-- Guardrail: redact_sse_stream of task3_streaming_guardrail/llm_gateway.py, over Redactor.
-- Guardrail/Frames has _choices_of, _content_of, _finish_reason_of, _with_content and what is
-- rebuilt of a choice, Guardrail/Sse the generator as a function from the lines of the upstream
-- to the events that it yields, where handle_line is the body of its loop. Guardrail/Steps and
-- Guardrail/Total are about how it ends. Guardrail/Texts and Guardrail/Events say which texts a
-- frame, a line and a list of events carry, Spoken, Heard, Keeps and Tells follow what a choice,
-- a frame and a line add to what has been put out, Lines goes through the lines, and Faithful
-- puts the stream together. Guardrail/Endpoint is the handler of POST /v1/chat/completions
-- (chat_completions) with its two paths, posted_response without streaming and stream_events
-- with it; Broken is about streams that break off, Paths about the path without streaming, Alike
-- compares the two, and Replies is about all that a provider may do.
--
-- Limiter: SlidingWindowRateLimiter of task4_router/rate_limiter.py, with a table of rows for
-- the table of SQLite and one step for a transaction. Limiter/Window, Ledger, Budget and Retry
-- are about the window, single transactions, their interleavings and the wait that a refusal
-- reports; Limiter/Refusals is about when a request is refused.
--
-- Errors, Providers, Breaker and Router: task4_router/errors.py, providers.py and router.py.
-- Router/Defs/Records has the data of the router, Router/Defs/Settle how a route ends and what
-- it leaves in the limiter, Router/Defs the attempts and the route. A route is one function from
-- the world (table, breaker, clock) to the answer and the world after it; a provider is a
-- function that answers, fails, raises a timeout of its own, runs into the deadline and then
-- takes a time to end, or is cancelled. LimiterCalls says whether an await of the limiter is cut
-- short by a cancellation or an exception of the database, and whether its transaction takes
-- effect all the same (reserve_trouble, settle_trouble, settle_cut). Router/Billing, Deadline,
-- Failover, Probe and Privacy, with Views, are about what a route charges, how long it takes,
-- whom it asks, the probe slot and what its errors show. Router calls Limiter before and after
-- it tries the providers and the breaker around each attempt at the primary. Router/Ends lists
-- the ways in which a route ends.
--
-- Application: task4_router/app.py over Router and Limiter. Application/Defs, with the data in
-- its Records and the reading of the key and the body in its Reading, answers /v1/completions
-- and /v1/usage, and turns exceptions into responses as the two handlers do. Application/Checks
-- is about what is let through to the router, Envelope about the shape of the answers, Ends and
-- Waits about their statuses and the header Retry-After.
--
-- Bounds and fuel. iter_loop, the scan of the redactor, runs on fuel: every round moves on by a
-- character at least, so that the length of the text and two are enough. digits_reversed, which
-- prints a number, has the number and one as fuel, and a number has no more digits. All other
-- loops are structural recursion. Numbers of Python have no bound; times of the monotonic clock
-- are in milliseconds, those of the limiter in microseconds, amounts of money in cents, which
-- the input schema's two decimal places allow.
--
-- Arguments of the models, since their code is not in the repository or is a table of Unicode:
-- SHA-256, the kernel's choice of a free file descriptor, NFKC and casefold, the classes of
-- characters of re, repr of a text, the errors that Pydantic lists, uuid4 and clocks, the client
-- of httpx with the server behind it, the providers, Pydantic's lax reading of an int, Python's
-- int of a text, the texts of exceptions. KnowsAscii says of the classes of characters that the
-- digits of ASCII are decimal digits. JSON is read and printed by Python's json, and messages
-- are modelled as the values that it gives, or the exceptions that it raises. Json has
-- is_encodable, since JSONResponse raises for a text with half of a surrogate pair: rendered,
-- rendered_answer and rendered_response are an answer or the exception; NaN and infinities,
-- which json admits, are left out.
--
-- Not modelled: a second cancellation of a route, and exceptions of SQLite in a request for the
-- usage; the transport of the MCP server and its logging; the health checks; the texts of log
-- lines; the wiring to frameworks; mock servers, scripts and tests. Of the redactor,
-- holdback_exact and assert_holdback_covers_patterns rest on the third-party package regex.
pub mod Base
pub mod Json
pub mod Limiter
pub mod Errors
pub mod Providers
pub mod Breaker
pub mod Router
pub mod Application
pub mod Stdio
pub mod Regex
pub mod Redactor
pub mod Gateway
pub mod Billing
pub mod Tools
pub mod Guardrail
