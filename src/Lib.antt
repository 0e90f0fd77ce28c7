-- ===== src/Lib.antt =====
-- Verification library of pact-web, the console of the PACT gateway (a Next.js program).
--
-- The parts modelled, and how they meet:
-- * Cookies models src/lib/session_cookie.ts, src/lib/cookie_options.ts and
--   src/framework/auth/pact_auth/cookies.ts. A response's cookie writes are a list by name (`Jar`),
--   in which a later write replaces an earlier one, as in NextResponse.
-- * Proxy models src/lib/proxy/proxy_to_gateway.ts and client_ip.ts: the API calls that go to the
--   gateway. Proxy/Request has the parts of `proxyToGateway` between its awaits; Proxy/System puts
--   them together, as a state machine for each call (`Phase`) over the shared map
--   `inFlightRefresh` with its promises (`Store`). Any interleaving of any number of calls is a
--   list of events (`run`). A request without a session or without a refresh token is `plain`,
--   the first one of a session with both is its `leader`, the others are followers.
-- * Renewal models src/lib/proxy/refresh_session.ts, with the map `inFlightRenewal` and numbered
--   redemptions. Pages models proxy.ts, the gate in front of the pages, which calls it.
-- * Auth models sign-in: Auth/Errors and Auth/Client model errors.ts and client.ts of
--   src/framework/auth/pact_auth, Auth/Routes its route_helpers.ts and mock.ts, and Auth/Login,
--   Auth/Logout, Auth/MfaVerify and Auth/MfaPasskey the routes login, logout, mfa/verify and
--   mfa/passkey/finish of app/api/auth. The gateway is a function from a call to its answer.
--   Auth/Client/Requests has a constructor for each method of `PactAuthClient` and the request that
--   it sends; Auth/Client/Replies has its results. Auth/Settings has one child for each of the
--   nine routes that change an account's ways to sign in, a `SettingsRoute` that names them, and
--   the session gate in front of them. Auth/Account, Auth/ResetPassword and Auth/PasskeyLogin model
--   register, forgot-password, resend-verification, reset-password, passkey/login and
--   mfa/passkey/begin. Auth/OauthStart, Auth/Callback and Auth/VerifyEmail model the routes that
--   answer with a redirect (oauth/start, app/v1/auth/callback/[provider] and verify-email), over
--   Auth/ReturnTo (return_to.ts and src/app/auth/domain/safe_next_path.ts) and Auth/Providers
--   (src/app/auth/domain/enabled_oauth_providers.ts). Auth/Session models session.ts and
--   factors.ts.
-- * Http/RateLimit models src/framework/http/rate_limit_retry.ts.
-- * Benchmark/Csv models the CSV parser of src/app/benchmark/domain/benchmark_corpus_parse.ts,
--   Benchmark/Corpus the rest of that file, Benchmark/Mapping benchmark_corpus_mapping.ts beside it,
--   Benchmark/HubImport benchmark_import.ts and Benchmark/JobPoll benchmark_job_poll.ts. An object's
--   fields are a list, in the order of `Object.keys`.
-- * Gateway models the gateway page: Gateway/Config models gateway_config.ts and Gateway/Enforcement
--   gateway_enforcement_patch.ts of src/app/gateway/domain; Gateway/Panel has the state of
--   src/app/gateway/ui/GatewayEnforcementControls.tsx and its handlers, each with the request that
--   it sends.
-- * TestLab models src/app/test_lab/domain/test_lab_check.ts: TestLab/Parse reads a response,
--   TestLab/Stages attributes a block, TestLab/Reasons and TestLab/Layers make the layers that
--   the page draws, TestLab/Runs shows persisted runs.
-- * Prelude has the shared names: Boolean tests, lists over the native numbers, texts, JSON, and
--   `encodeURIComponent` over the UTF-8 codes of a text (Prelude/Uri).
--
-- Conventions. `undefined`, `null` and a missing cookie are `none`; where the source tests
-- truthiness, the model does too (`truthy`). Thrown errors are values of `Result`. Times, scores
-- and latencies are whole numbers. The environment (mock mode, production, the gateway's base
-- URL) is a parameter. The class `URL` is the record `UrlApi` of the functions that the code uses,
-- with `none` for its TypeError; a route whose URL cannot be built throws, and is `none` too. The
-- bytes of a JSON text are the value that it holds. The fields of a JSON object and of a row are
-- looked up by their own keys only; a look-up of the gateway's error code, or of a label value among
-- the decisions, also finds what `Object.prototype` has (Prelude/Objects).
--
-- Fuel: the retry loop runs on one more than `maxRetries`, which its theorem shows to be enough;
-- printing a number runs on 20 digits, more than any HTTP status or array index has. Every other
-- loop is structural.
--
-- Not modelled: React views (but for the handlers in Gateway/Panel), generated clients, the mock
-- service workers and the browser's side of WebAuthn; the other domains of src/app, which no theorem
-- here is about. Network, clock, `URL`, `Date.parse`, `JSON.parse` of a file and `String` of a number
-- are parameters.
pub mod Prelude
pub mod Cookies
pub mod Proxy
pub mod Renewal
pub mod Pages
pub mod Auth
pub mod Http
pub mod Benchmark
pub mod Gateway
pub mod TestLab
