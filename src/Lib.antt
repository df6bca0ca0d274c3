-- ===== src/Lib.antt =====
-- The publishing workspace: a kernel that decides whether each lifecycle stage of a publication may
-- proceed, the protocol that adapters and their callers share, and adapters for three kinds of
-- destination. This library models the kernel, the protocol, the adapter for a local directory with the
-- deployment that the action makes to it, and the exit codes that the action reports.
--
-- How the parts interact. An adapter or a workflow calls one stage evaluation of the kernel at a
-- time (packages/publish-kernel/src/kernel.js). A stage runs the checks of some of the ten duties,
-- gathers their findings and proceeds when none of them blocks. The concurrency fence and staged
-- activation resolve an expected generation through the protocol's fence
-- (packages/adapter-protocol/src/generation-fence.js); the capability decision is digested by the
-- protocol's canonical JSON (packages/adapter-protocol/src/digest.js). The kernel keeps
-- no state between calls: the journal of operations and the history of certified digests are
-- arguments and results. The adapter for a local directory keeps them on the destination, next to
-- the releases and to the link that says which of them is served (packages/adapter-local-directory/src/index.js).
--
-- Which file models what, under packages/publish-kernel/src:
--   Finding.antt                    errors.js
--   Kernel/ArtifactIdentity.antt    artifact-identity.js
--   Kernel/DestinationAuthority.antt destination-authority.js
--   Kernel/BoundedResources.antt    bounded-resources.js (BigInt itself in BoundedResources/BigInt)
--   Kernel/Containment.antt         path-containment.js
--   Kernel/Fencing.antt             operation-fencing.js
--   Kernel/Activation.antt          staged-activation.js
--   Kernel/Outcome.antt             ambiguous-outcome.js
--   Kernel/Retention.antt           retention.js
--   Kernel/Secrets.antt             secret-redaction.js (its patterns run in Secrets/Pattern)
--   Kernel/Marker.antt              generation-marker.js
--   Kernel/DecisionFields.antt, Kernel/CapabilityDecision.antt  capability-decision.js
--   Kernel/Stages.antt              kernel.js
-- and under packages/adapter-protocol/src:
--   Protocol/Errors.antt            errors.js
--   Protocol/StableId.antt, Protocol/Fence.antt  generation-fence.js
--   Protocol/Frame.antt, Protocol/FrameErrors.antt  frame.js
--   Protocol/Lifecycle.antt         lifecycle.js
--   Protocol/Digest.antt            digest.js (canonical JSON and the domain digest)
--   Protocol/ArtifactDigest.antt    digest.js (the artifact digest)
--   Protocol/DigestString.antt      digest.js (the syntax of a digest)
--   Protocol/Limits.antt            limits.js
--   Protocol/Loader.antt            loader.js
--   Protocol/Vocabulary.antt        capability-vocabulary.js
--   Protocol/Capability.antt        capability.js
--   Protocol/Negotiation.antt       negotiation.js
--   Protocol/Uuid.antt              uuid.js
-- and under packages/adapter-local-directory/src:
--   LocalDirectory/FsSafety.antt    fs-safety.js: the root, links below it, what may be removed
--   LocalDirectory/Disk.antt        the destination: releases, the link current, history, journal
--   LocalDirectory/Monad.antt       the run of an operation with every durable change on the way
--   LocalDirectory/History.antt     history.js
--   LocalDirectory/Environment.antt what an operation reads from outside, and the shared parts
--   LocalDirectory/Stage.antt, Activate.antt, Observe.antt  the operations of index.js
-- and under packages/publish-action/src:
--   Action/Outcome.antt             result.js, adapter-select.js, the constants they use
--   Action/DeployLocalDirectory.antt deploy-local-directory.js
-- A function keeps its name in snake case: checkPathContainment is check_path_containment. The child
-- modules of a file hold the proofs about it. Prelude has what all of them share, Json the values of
-- the source language with JSON.stringify, and Examples concrete inputs.
--
-- Conventions. A throw is `err` of a Result, `null` and `undefined` of a typed property are `none`,
-- a loop that pushes findings is a recursive function that returns them, and an object that is only
-- read is a record. Integers are unbounded where the source uses BigInt, and natural numbers where it
-- counts; a finite double is held as its printed text. The four-byte length of a frame keeps its
-- arithmetic modulo 256. Texts are sequences of Unicode scalar values, so a lone surrogate has no
-- model.
--
-- The destination of the local adapter. A directory below releases has its files under the paths that
-- were staged, and its marker apart. An operation is a function on the disk that returns the disks
-- after each durable change (a file written, a directory renamed or removed, the link replaced, the
-- history or the journal written), the last disk, and a result or an error, so that a process that
-- dies in between leaves one of these disks. A durable change happens as a whole: the source writes
-- the files of its control directory in place, and a write that is torn has no model. Links and modes
-- are what lstat says, which stays the same during one operation and may differ between two. A name
-- or a path that is joined to releases is resolved as path.join does, so a stage token or a file's path
-- with dots in it may lead into another directory; what leads out of releases, or below an entry where
-- an entry is wanted, is not held: it is missing to a read, and a write to it ends the run with the
-- error not_held. A generation identity that is promoted is one segment, as the protocol's identities
-- are. A directory's files are a list by their paths, so a file that stands where a directory is
-- wanted is not refused as the file system does.
--
-- Fuel. `decimal` makes n + 1 rounds for n, one for each digit and more. The repetition of a pattern
-- has the size of the text as its fuel and each round takes a character; that this finds
-- every match is shown in Secrets/Pattern/Matches. `decodeFrames` has as many
-- rounds as the buffer has bytes, which is shown to be enough.
--
-- Parameters. toLowerCase and normalize of the path check, the schema validator of
-- @rathnasgala2/schemas, SHA-256, import() of the loader, and for frames the UTF-8 coder and
-- JSON.parse are arguments of the definitions. What is asked of them is a named hypothesis: Explains
-- (a refused document has a diagnostic) and Readable (a message's text is read back); of SHA-256,
-- where a stage is named by it, that its digits hold no slash. For the local adapter lstat, the modes,
-- the clock, SHA-256 of bytes and the reader of a foreign marker are fields of Environment.
--
-- Not modelled: the capability record of the local adapter, its platform tuple, fsync and temporary names; the adapters for GitHub Pages and
-- DigitalOcean Spaces, the rest of the publish action and the workflow scripts, which call these
-- parts around network operations.
mod Prelude
pub mod Json
pub mod Finding
pub mod Protocol
pub mod Kernel
pub mod Action
pub mod LocalDirectory
pub mod Examples
