-- ===== src/Lib.antt =====
-- Tenancit's admin front end and its scripts, modelled from their source.
--
-- Tenancit is a control plane for the resources of multi-tenant applications: a Go server with an
-- admin panel (web/). Modelled is the panel's own logic, in TypeScript: what it checks before it
-- calls the server, what it shows of secrets and for how long, and in which words, how the scale
-- benchmark decides, the check of the end-to-end catalogue, and the store of the panel's prototype.
--
-- Files, and the code that they model:
--   Base, Base/*            shared names: tests, lists, stable sort, integers, and text as the list
--                           of its UTF-16 code units with trim, split, join, startsWith, endsWith
--   Regex, Regex/*          anchored regular expressions: languages, and a matcher by derivatives
--   Validation, Validation/*  web/src/lib/validation.ts. `is_valid_tenant_slug` is
--                           isValidTenantSlug, and so on: names keep their words. The patterns are
--                           values of `Regex`. Date.parse, new URL and toLowerCase are parameters.
--   Reveal, Reveal/*        web/src/lib/use-transient-resource-reveal.ts: `Hook` holds the states
--                           and refs of the hook, `Step` lists the events (user actions, answers,
--                           token events of this tab and of others, renders, mounting) in any
--                           order. `resolve` and `reject` are `show` behind its await.
--   Scale, Scale/*          web/src/lib/scale-gate.ts. Samples are of any type with a total order,
--                           and the floating-point product with the percentile is a parameter.
--   BasePath, BasePath/*    web/src/lib/runtime-base-path.ts: readRuntimeBasePath on the content of
--                           the meta element, buildAdminEndpoint, and buildOIDCLoginURL over the
--                           operations of URL, a record of operations and one of laws. Of a URL
--                           that is built it is asked where it leads once the URL parser has
--                           dropped tabs, line feeds and carriage returns.
--   Api, Api/*              web/src/lib/api.ts: `Client` holds the variables of the module and the
--                           stored token. `req_send` and `req_receive` are req before and behind
--                           its await, and `endpoint_call` the table `api`. What the timer, the
--                           signals and fetch do comes in as the reply and a flag. `Step` lists
--                           what changes the client, in any order. A body is a JSON value, the
--                           serialisers are parameters. Routes holds the routes of the admin API of
--                           server/internal/httpapi/server.go, against which the table is held.
--   Queries, Queries/*      web/src/lib/query-keys.ts, query-invalidation.ts and query-client.ts: the
--                           keys, and the calls made of the query client as a list in their order;
--                           how the client matches a key is a record of operations and laws
--   Panel, Panel/*          web/src/lib/tenant-overview.ts (Summary), idempotency.ts (Attempt),
--                           admin-navigation.ts (Navigation), held against the permissions of the
--                           server's routes (Permitted), and avatarHue of avatar.ts (Avatar)
--   I18n, I18n/*            web/src/lib/i18n.tsx: the dictionaries, in parts (Pt, En, Es), the choice
--                           and the filling of a message, the messages of errors, and the stored
--                           locale. A parameter is a text; toLowerCase is a parameter of the model.
--   Catalogue, Catalogue/*  scripts/check-e2e-catalog.ts: the flows, the calls of flowStep against them
--                           and the rows of the README, from what the patterns find in the files; a
--                           constructor for each message. The text of a number, node:path and the
--                           tags of a spec are parameters.
--   Lint, Lint/*            routeConsumers of web/scripts/lint-colocated-routes.mjs, before its
--                           result is sorted
--   Proto, Proto/*          planning/tenancit/proto/routes: `Store` holds the state of store.js, the
--                           entry of local storage, the count of identifiers and the listeners, and
--                           there is one function per action; Seed is the data of _data.js, and
--                           Page the forms of tenant-detail.js. `Action` and `Visit` list what the
--                           pages do, in any order, with a flag for a storage that takes the write.
--                           A stored JSON value that is no state is an outcome without a page.
--
-- The matcher recurs on the text and the sort on the list, so no fuel is used there; the search of
-- Lint runs on fuel, one turn more than there are files. `Number` of a text
-- of digits is computed exactly: a double holds each integer up to 2^53, and a larger one rounds to
-- a number that is no safe integer either, which is all that the range check reads.
--
-- Not modelled: rendering and the UI kit, which only present; the patterns that the scripts look for
-- in files, and their input and output; the classification of the lint's findings, the bundle budget
-- and the summary of the scale benchmark; the errors of the local storage when the locale is stored;
-- and the Go server, another language, but for the table of its admin routes.
pub mod Base
pub mod Regex
pub mod Validation
pub mod Reveal
pub mod Scale
pub mod BasePath
pub mod Api
pub mod Queries
pub mod Panel
pub mod I18n
pub mod Catalogue
pub mod Lint
pub mod Proto
