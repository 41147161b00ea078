-- ===== src/Lib.antt =====
-- AI-Email is an email platform: an HTTP API accepts messages into a PostgreSQL queue, workers sign
-- them and hand them to a sending engine, and events go to tenants' webhook endpoints. This library
-- models the parts that decide what is accepted, sent, retried and suppressed.
--
-- How the parts interact, with the file of each here and the code it models:
-- - Base has what the others share: Boolean tests, lists, Go strings as lists of bytes, UTF-8,
--   results.
-- - Mail (internal/mail/address.go) checks addresses, subjects and headers; Mail.Build
--   (internal/mail/build.go, qp.go) assembles a message from fields so checked.
-- - Store (internal/store, tables of migrations/) is the database: a record of tables with the time
--   and the failures to come. A method of the Go type Store is a function from a store to a result
--   and a store. Its children are Store.Queue (queue.go; unpackRecipients of recipients.go),
--   Store.Messages (messages.go; packRecipients), Store.Webhooks and Store.Domains (webhooks.go,
--   dkim.go) and Store.Suppressions (suppressions.go). A statement runs alone and completely, which
--   row locks and SKIP LOCKED give in PostgreSQL; a transaction that fails leaves the tables as they
--   were.
-- - Delivery (internal/delivery/engine.go) hands one message to the engine; Bounce
--   (internal/bounce/classify.go) reads its refusal; Unsubscribe (internal/unsubscribe/token.go)
--   makes and checks the tokens of unsubscribe links.
-- - Worker (internal/worker/worker.go) ties these together: tick claims messages from Store.Queue
--   under the hourly ceiling, deliver signs each and settles it by the engine's answer, publish
--   queues webhook deliveries. Worker.Webhooks (internal/worker/webhooks.go) is the dispatcher of
--   those deliveries and the domain checker, which asks Dnsverify (internal/dnsverify/dnsverify.go).
-- - Netguard (internal/netguard/netguard.go) decides which addresses the webhook client may connect
--   to; Webhook (internal/webhook/sender.go) makes one attempt at a delivery through that client,
--   and Webhook.Sign (internal/webhook/sign.go) makes and checks the signature of its request.
-- - Crypto (internal/crypto/envelope.go) encrypts what the store keeps of recipients, and Dkim
--   (internal/dkim/custody.go, sign.go) keeps the signing keys and signs messages for the worker.
-- - Template (internal/template/render.go) fills merge tags in; Keys (internal/keys/keys.go) gives
--   API keys their form and Store.Keys (internal/store/keys.go) their table.
-- - Httpapi (internal/httpapi) holds what the handlers share: Httpapi.Auth (auth.go) lets a request
--   with a key through, Httpapi.Send (send.go) checks a request with Mail, Template and Store and
--   stores its message for the workers, Httpapi.Unsubscribing (unsubscribe.go) puts the reader of a
--   link on the suppression list.
-- - Commands (cmd/aiemail/admin.go) issues keys and registers domains; Config
--   (internal/config/config.go) loads and checks the configuration of a deployment.
-- - Console (internal/console/auth.go, console.go) lets the operator in, and guards the changes made
--   there.
-- - Store.Steps chains steps that can fail over a store, and Store.Reads tells those that only read.
-- Functions have the Go names in snake case; a closure or a switch inside a function has a name of
-- its own, and the comment above it says whose it is.
--
-- Parameters stand for code outside the repository: Unicode (case mapping beyond ASCII),
-- Mail.AddressParser (net/mail), Mail.Build.Mime (MIME encoders), Netguard.Parser (net/url,
-- net/netip), Netguard.Client.Network (resolver and connections), Delivery.Wire (encoding/json,
-- net/http), Dnsverify.Resolver, Unsubscribe.Codec (HMAC, base64), Suppressions.Digest (SHA-256),
-- Store.Keeper (encryption with JSON), the fields of Worker.Worker for the signer, the engine and
-- JSON, Keys.Encoding (base32), Httpapi.Json (encoding/json), the function fields of Httpapi.Server
-- (net/netip, time, the maker of ids), Config.Outside (the environment, net/url, base64), Crypto.Aead
-- (AES-GCM), Webhook.Sign.Signing (SHA-256, HMAC, base64, net/url), and in Dkim the parser of private
-- keys and the signing library; Console.Hashing (argon2, base64). Random bytes and new keys are
-- arguments.
--
-- Bounds: loops are recursions on lists, a text is read a rune at a time by recursion on its bytes.
-- Only the loops of Template are on fuel, one more than the length of the template: each round removes
-- the braces of a tag, so it does not run out. Times are nanoseconds in the natural numbers. Backoff
-- uses float64 in the code, which holds each power of two up to the cap exactly. The integers that the
-- code adds to are row counts, attempts and times far below 2 ^ 63, so no wrap-around is modelled there;
-- the range of ParseInt and the wrap-around of a lifetime in days are.
--
-- Not modelled: the routes, middleware and reads of the HTTP API, the pages of the console, the server
-- command, the loops named Run and all logging. requireKey records the use of a key beside the
-- handler; here that comes before it. Two dispatchers or workers inside one call of tick are not
-- interleaved; that claims do not overlap while their locks are in force is a theorem about sequences of claims.
pub mod Base
pub mod Bounce
pub mod Commands
pub mod Config
pub mod Console
pub mod Crypto
pub mod Delivery
pub mod Dkim
pub mod Dnsverify
pub mod Httpapi
pub mod Keys
pub mod Mail
pub mod Netguard
pub mod Store
pub mod Template
pub mod Unsubscribe
pub mod Webhook
pub mod Worker
