-- ===== src/Lib.antt =====
-- A model of dunning-agent: the service that recovers failed subscription payments. Razorpay's
-- webhooks open and close recovery cases; a worker ticks over the open cases, asks a policy what to
-- do with each, and calls the customer, sends a payment link or charges the mandate again; the end
-- of a call is applied to the case and to the customer.
--
-- The files, and the code that each one models:
--   Model: app/models.py, app/constants.py, and the settings of app/config.py. A datetime is its
--     microseconds since the epoch, so `timedelta` is an addition of natural numbers.
--   Diagnosis: app/diagnosis.py, with texts as lists of character codes, which it lowers and strips.
--   Priority: app/priority.py, with the weights and the boost in hundredths. The scores are floats in
--     the source: they are an abstract type with literals, a logarithm, a product and an order, and
--     what the ordering relies on, that each keeps the order, is a record of laws.
--   Policy: app/policy.py; Policy/Texts the texts of a decision. The local hour of the contact
--     timezone is a parameter of `decide`.
--   World: the state of a run. World/Monad has the tables, exceptions, the environment and
--     `log_action` of app/store.py; World/Entities what Razorpay's API gives and takes
--     (app/razorpay/client.py, app/channels.py); World/Tables the write-back of a changed object.
--     World/Steps, World/Post and World/Returns are the three ways in which runs are reasoned about.
--   Cache: app/cache.py. PaymentLinks: app/payment_links.py. Mandate: app/mandate.py.
--   Orchestrator: app/orchestrator.py, as Queue (the claim), Delivery and Loop.
--   Intents and Outcomes: app/voice/intents.py and app/voice/outcomes.py.
--   Template: Python's `str.format`, for the texts of app/voice/graph.py. Graph: app/voice/graph.py,
--     with the search in Graph/Search and the texts in Graph/Rendering. Walker: app/voice/walker.py.
--     Flow: app/voice/flow.py, its nodes in Flow/Stages and Flow/Endings.
--   Remedies: app/voice/reasons.py and app/voice/routes.py. Spoken: app/voice/spoken.py.
--   CallBody: app/voice/call_body.py, with the parameters of app/voice/telephony.py and the context of
--     app/voice/pipecat_agent.py; CallBody/Livekit the context of app/voice/agent.py, which builds its
--     own.
--   Session: the `DunningSession` of app/voice/pipecat_agent.py, from a transition to the end of the
--     call; the text of the framework's context and Python's `str` of a number are parameters.
--   Calls: app/voice/persistence.py. Amd: app/voice/amd.py and app/webhooks/twilio_router.py.
--   Service: app/webhooks/router.py, app/webhooks/pubsub_router.py, app/events.py and
--     app/razorpay/signature.py.
--   Store: app/store.py. Handlers: app/webhooks/handlers.py, as Events, Failures and Recoveries.
--   Processor: app/webhooks/processor.py. Tests: concrete runs.
--
-- Effects are explicit: an `Exec A` takes the world to a result, which is a value or an exception,
-- and a new world. The environment is a record of functions from the requests made so far to what
-- Razorpay, Redis, the telephony and the clock answer; each answer may be an exception, and none is
-- assumed to be right. Python's mutation of a mapped object is a change of its row, and the changed
-- value is handed on. A nullable column or a missing key is an Option. Rows that other transactions
-- hold are a parameter of the claim, and a rolled back session restores the tables. Every loop is a
-- structural recursion on a list, but for two that run on fuel. `to_decimal` of PaymentLinks/Decimal
-- recurses on a bound for the number of digits, and a number is a bound for its own. The search of
-- Graph pops one identifier in a round and pushes the edges of a node once, so the number of edges
-- and one more is enough. HMAC, SHA-256, the parsing of JSON and the check of Google's token are
-- parameters of the functions that call them.
--
-- Interaction: the handlers write cases through the store; the orchestrator reads them, decides by
-- the policy (which diagnoses), and delivers by the payment links, the mandate or a call; the
-- outcome of the call writes the flags that the policy reads on the next tick. A call walks the
-- conversation graph by the labels that the model names; the node where it ends gives its intent.
-- Calls opens its row and applies its result; Twilio's verdict on who answered comes in through Amd.
--
-- Twilio's SID of a call is written by no part of the code: Amd is modelled for any table of calls, with
-- a SID on a row or none.
--
-- Not modelled: the speech pipeline and its normalizers and guardrails, the channels that place
-- calls, metrics and reports, the worker's process loop, engine set-up,
-- migrations and scripts. Log lines are left out. Concurrency is modelled only where the code
-- handles it: by locked rows, by the shared cache, and by environments that answer differently
-- each time.
mod Prelude
pub mod Model
pub mod Diagnosis
pub mod Priority
pub mod Policy
pub mod Intents
pub mod Mandate
pub mod Orchestrator
pub mod PaymentLinks
pub mod Outcomes
pub mod Calls
pub mod Session
pub mod CallBody
pub mod Amd
pub mod Service
pub mod Store
pub mod Handlers
pub mod Processor
pub mod World
pub mod Cache
pub mod Template
pub mod Graph
pub mod Walker
pub mod Flow
pub mod Remedies
pub mod Spoken
pub mod Tests
