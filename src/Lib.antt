-- ===== src/Lib.antt =====
-- The openGauss service broker: a program that offers openGauss databases through the Open Service
-- Broker API. A platform sends it requests; the broker creates, changes and removes one logical
-- database for each service instance and one login user for each binding, and keeps a record of each
-- in a state database.
--
-- The program's parts, and the files that model them:
--
--   broker.go         Broker.antt (the Broker, what its operations share), Broker/Handlers.antt
--                     (Broker.Provision, Update, Deprovision, Bind, Unbind, GetInstance, GetBinding,
--                     LastOperation, LastBindingOperation as provision, update, deprovision, bind,
--                     unbind, fetch_instance, fetch_binding, last_operation,
--                     last_binding_operation), Broker/Requests.antt (a sequence of requests)
--   state.go          State.antt (Store and its methods); Table.antt is what it relies on, and
--                     State/Credentials.antt is about what it reads back; State/Open.antt
--                     (OpenStore, Close) and State/Rotate.antt (RotateBindings)
--   gaussdb.go        Gaussdb.antt (Admin and its methods)
--   templates.go      Templates.antt (with its children); Templates/Embedded.antt holds templates/opengauss/*/*.sql
--   params.go, validate.go    Params.antt, Params/Schemas.antt; Value.antt is Go's `any`
--   plans.go          Plans.antt
--   names.go          Names.antt, Names/Password.antt
--   encrypt.go        Encrypt.antt; Base64.antt is the library's encoding
--   config.go         Config.antt
--   driver.go         Driver.antt; Url.antt holds the escapes of net/url
--   main.go           Startup.antt (main to the point where it serves, what follows its end, and the
--                     answer of /healthz)
--
-- Prelude.antt (with its children), Result.antt and Exec.antt are shared: bytes and texts, Go's
-- integers, results with errors, and methods that change a state and may fail. A text is the list of
-- its bytes.
--
-- How the parts interact: a handler is a method on a World (World.antt), which holds the state of the
-- two tables, of the database server and of the random source. Its calls of the store, of the admin
-- and of the random source are methods on those parts. Each call may fail, with whatever it has
-- already changed left as it is. The broker's lock makes each handler one step; requests come one
-- after another.
--
-- The specification of the handlers is Broker/Spec.antt: what one of them may do to the two maps from
-- ids to records that Broker/Rows.antt reads from the tables, and the invariant of these maps.
-- Broker/Outcomes.antt says what each handler that writes has done when it returns a result, and what
-- when it returns an error; Broker/InstanceSteps.antt, Broker/RemovalSteps.antt and
-- Broker/BindingSteps.antt hold the handlers to it, by the rules of Broker/Rules.antt.
-- Broker/Lookups.antt and Broker/PlanLookups.antt are about how a handler begins.
-- Broker/Served.antt sees each outcome as a step, and Broker/Invariant.antt is about whole sequences.
-- Broker/Repeats.antt is about a Provision that succeeds and its repetition, Broker/Answers.antt
-- and Broker/Fetches.antt about what a Bind that succeeds has recorded, and answers again,
-- Broker/Uri.antt about the uri of the credentials, Broker/Offer.antt about the catalog that
-- Services publishes, Broker/Refusals.antt about a Deprovision that bindings stand against.
--
-- The start (Startup.antt) puts the parts together: the settings, the catalog, the encryptor, the
-- store and the rotation of the credentials, each of which may end the program; what is left is a
-- Broker whose admin stands on the driver (Driver.antt). State/Rotate has a child for what the keys
-- read (Reading), for one step of the loop (Progress), for the whole of it (Loop) and for its success
-- (Success); Startup/Ready.antt and Startup/Rotation.antt are about the program that serves.
-- Gaussdb/Undo.antt is about what the admin takes back on an error.
--
-- Parameters, with the documented behaviour that is relied on as laws: the hash function (Names.Hash),
-- the random source (Entropy), AES-GCM (Encrypt.Gcm), float64 (Value.Float64), the tables of the state
-- database (Table), the JSON and JSON schema libraries (Params.Json, Params.JsonSchema), the TOML
-- reader (Plans.Toml), the files of the override directory (Templates.FileSystem), the driver of the
-- database server (Driver.Server), GORM, database/sql and os where the state database is opened
-- (State.Open.Host) and the environment (Config.Environment). Table/Memory.antt is a table in memory
-- that meets the laws of one; Tests/Sample.antt and Tests/Program.antt have an instance of each of the
-- others.
--
-- Bounds and fuel: Go's `int` is an integer without bounds where the values come from quotas, ports
-- and lengths; `strconv.Atoi` keeps its 64-bit range. The quotas of a plan are taken to be below 2^53,
-- where float64 is exact. The one loop without a bound is that of `randomPassword`: it is given a
-- number of rounds (Admin.attempts), and Names/Strength.antt shows how many are enough.
--
-- Not modelled: logging and contexts (a call that runs into its deadline is one that fails), and of
-- main.go what net/http and os do while the program serves and when it is told to stop. The endpoints
-- that brokerapi serves are that library's; the handlers are modelled from where it calls them.
pub mod Prelude
pub mod Result
pub mod Exec
pub mod Entropy
pub mod Names
pub mod Base64
pub mod Encrypt
pub mod Value
pub mod Url
pub mod World
pub mod Table
pub mod State
pub mod Templates
pub mod Config
pub mod Plans
pub mod Gaussdb
pub mod Driver
pub mod Broker
pub mod Params
pub mod Startup
pub mod Tests
