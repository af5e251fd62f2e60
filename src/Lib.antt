-- ===== src/Lib.antt =====
-- fire: a verification library for the repository's core: the document manager (package coal), the
-- values with locks (package glut), the job queue (package axe), the file storage (package blaze),
-- the controllers (package fire), the authorization of requests (package ash), and list sets and
-- registries (package stick).
--
-- The parts and how they interact. axe, blaze, glut and the controllers keep their documents through
-- a coal manager, which validates and cleans documents and calls the MongoDB driver; the driver is
-- no part of the repository.
--
--   Base         what all parts share: tests on numbers and texts, list lemmas, results with an
--                error, a monad of state with failure, Go maps as association lists
--   Coal.Model   coal/model.go: the base of a document, GetTag, SetTag, Clean; Coal.Tags has
--                the proofs on tags
--   Coal.Driver  the driver under coal/collection.go as an interface: the record `Driver` of calls
--                and the record `IsDriver` of their documented behaviour, which the theorems on
--                what is stored take as a hypothesis. Coal.Memory is an instance of both.
--   Coal.Triples, Coal.Moves, Coal.Outcomes, Coal.Kept, Coal.Manager.Rules, Coal.Manager.Ids: what a
--                code of such calls does to an invariant of the collection, and what holds where it
--                answers
--   Coal.Transactions  coal/store.go: T and RT; Coal.Retries has their proofs
--   Coal.Manager coal/manager.go: Defs has the flags, the guards and the reads, Mutations the
--                writes, one function for each method
--   Glut         glut/model.go, glut/utils.go (Values), glut/basic.go (Basic), glut/locks.go (Locks);
--                Held, Exclusion, Contention, Unguarded, Placement, Acquisition, Progress, Refusals
--                and History are the proofs on locks
--   Axe          axe/model.go and axe/job.go (Model), axe/basic.go (Basic); Steps and Closure are
--                histories of calls and their invariants, Lifecycle, Labels and Leases the proofs;
--                axe/task.go (Task: the execution of a job), with its proof in Executions
--   Blaze        blaze/models.go, blaze/keys.go and blaze/binding.go (Model), blaze/bucket.go (Files:
--                uploads, claims, releases, downloads and cleanups; Links: links, lists of links and
--                view keys; Migration); History are histories of calls. Steps and LinkSteps say what
--                an operation keeps, Bound is the proof on claimed files, Lifecycle, Evolution,
--                Evolving and Lives the proof on the life of files; Claims, Plans and ViewKeys.
--                LinkLists is Links.Validate of blaze/models.go, with its proof in Ambiguities
--   Controller   controller.go, context.go and handler.go: Model, Callbacks and Resources; Denials,
--                Updates and Defers are the proofs
--   Ash          context.go and handler.go (Context: the parts that the authorization touches and the
--                matchers), ash/strategy.go and ash/authorizer.go (Strategy), ash/enforcer.go
--                (Enforcers), ash/whitelist.go and ash/basic.go (Whitelist), ash/access.go (Access);
--                Grants, Combinations, Restrictions and Whitelisted are the proofs
--   Stick.Lists  stick/lists.go, with Laws, Unique and Seen for the proofs; Stick.Registry is
--                stick/registry.go
--
-- An enforcer narrows the fields of a request with Stick.Lists' intersect. A bucket finds its
-- bindings in a Stick.Registry and compares lists of links with Stick.Lists. A controller runs its
-- operations in the transactions of Coal.Transactions on contexts of Ash, and stores through a
-- manager.
--
-- How the code is read. An operation is a function from the driver's state to a new state and a
-- result. The clock's readings, new IDs and new tokens are its arguments, so a theorem holds for
-- every clock. A time is a number and 0 is Go's zero time; a duration is a number and is not
-- negative; an ID is a number and 0 is the zero ID; a pointer or a nil slice is an option. A filter
-- is the predicate that it denotes and an update the function that it applies; what a translator
-- makes of a document is an argument that may be an error. The type of a manager's documents is
-- fixed, so ErrMetaMismatch cannot arise. Calls of the driver happen one after another: a driver
-- call is done before the next one begins, and where an operation makes several calls the argument
-- `between` stands for what others do to the collection between them. A driver call may fail, and a
-- write that fails may yet have been applied. Nothing is said of calls that overlap: two upserts at
-- once may both insert where no unique index covers their filter. The loops are over lists, except
-- for RT, whose fuel is twice its bound on attempts and 2 more: every round but the last one uses
-- an attempt, and a round is a call and a commit.
--
-- What a storage service, the notary and an upload's callback answer is an argument of blaze's
-- operations, and so is the parsing of media types; a handle is of any type. A controller's model
-- type is fixed; the assignment of the input's attributes to a model is a field of the controller,
-- and a deferred callback is known by its number in a table.
--
-- The transaction of a controller's operation is about the database: an abort takes back what was
-- written and not what the operation did to the context of the request. An upsert's document is the
-- cleaned model with the filter's equations merged into it; the filters of glut, axe and the
-- controllers only name fields that the model's document has, so there the merge changes nothing.
--
-- The authorization's handlers are functions from a context to a context and a result; a context
-- holds what a callback may see, and a getter of fields, which only the controller calls, is of any
-- type. A task's handler and notifier are functions on the collection, and the delay before a retry,
-- which is computed with floating-point numbers, is a function of the attempt.
--
-- Not modelled: of package fire the lists of resources, the relationships, the actions, the
-- assignment of input, the composition of responses, groups and the ready-made callbacks; of blaze
-- the storage services, the HTTP actions, the callbacks that reach link fields by reflection and
-- the scans of the tasks; packages flame, heat, nitro, roast, spark and torch; of ash the matrix of
-- whitelists, policies and identities; of coal the connection of a store, the streams, the indexes,
-- the migrations, the meta information, the translator, the iterators and the projections; of axe
-- the queue, the workers' loops and the awaiting of jobs; of stick all but the lists and the
-- registry; the tracing of every operation; the score of a document, a number that the server
-- writes in a text search.
pub mod Base
pub mod Coal
pub mod Glut
pub mod Axe
pub mod Ash
pub mod Stick
pub mod Blaze
pub mod Controller
