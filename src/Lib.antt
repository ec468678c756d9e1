-- ===== src/Lib.antt =====
-- CtxAlloc, a deterministic context budgeting and compilation engine.
--
-- The kernel (packages/compiler/src) turns a batch of candidate blocks into a context under a token
-- budget: candidates are deduplicated, scored, filtered, allocated, ordered and rendered, and each
-- stage hands an immutable record to the next. The modules here follow those stages.
--
-- Shared             lists and their weights, texts as UTF-16 code units with the order of
--                    `compareCodeUnits`, stable sorting by a comparator, `Map`s, JSON values
-- Domain             packages/domain/src: records (ContextBlock, Serialized), the UTF-16 scan of
--                    unicode.ts (Unicode) and token-budget.ts (TokenBudget)
-- Canonical          packages/compiler/src/canonical-json.ts
-- Candidates         the records between stages, of candidate-deduplicator.ts and candidate-scorer.ts
-- Deduplication      packages/compiler/src/candidate-deduplicator.ts: Group (`groupByExactContent` and
--                    the normalization of packages/domain/src/block-content-hash.ts) and
--                    Deduplicate (`selectCanonical`, `orderMembers`, `deduplicate`); the other
--                    modules of it are proofs
-- Filter             packages/compiler/src/candidate-filter.ts: Policy, Applicability
--                    (`resolveApplicability`) and Decide (`#decide`, `filter`); Decisions, Guarantees
--                    and Exclusions are proofs
-- Allocation         packages/compiler/src/budget-allocator.ts: Issue and Policy (the policy, its
--                    validation, the constructor), State (`AllocationState`, `#include`, the
--                    comparators), Passes (`#detectCategoryCountFailures`, `#allocateRequired`,
--                    `#allocateCategoryMinimums`, `#allocateOptional`, `#evictionOrder`), Reconcile
--                    (`reconcile`) and Allocate (`allocate`); the other modules of it are proofs
-- Orderer            packages/compiler/src/context-orderer.ts: Compare (`compareLocation`,
--                    `compareBlocks`) and Order (`ContextOrderer`); Lawful and Guarantees are proofs
-- Renderer           packages/compiler/src/context-renderer.ts: Records (`recordOf`,
--                    `renderOrderedCandidates`) and Render (`ContextRenderer`), and
--                    packages/compiler/src/tokenizer-port.ts (Tokenizer); Reader is a reader of what
--                    is rendered, which the code does not have, and the other modules are proofs
-- Compiler           packages/compiler/src/context-compiler.ts, the enumerations of the fallback
--                    search: Budgets (`compareRescueOrder`, `categoryBudgets`), Search
--                    (`subsetsOfSize`) and Enumerate (`combinations`, `cartesian`,
--                    `policyValidOptionalSelections`); the other modules of it are proofs
-- Correction         packages/compiler/src/context-compiler.ts, the render-aware correction: Measure
--                    (`selectionKey`, `sumTokens`, `#measure`, `#visit`), Deficits
--                    (`#categoryDeficits`), Fallback (`#searchFallback`, `#exhaustedFailure`) and
--                    Settle (`#settle`); the other modules of it are proofs
-- Compilation        packages/compiler/src/context-compiler.ts: Compile (`compile`, from the scored
--                    batch to the settlement, and `#stage`); the other modules of it are proofs
-- Assembly           packages/compiler/src/context-compiler.ts: Decisions (`finalDecisions`), Result
--                    (its records), Verify (`verifyResult`) and Assemble (`#assemble`), and of
--                    packages/compiler/src/compilation-trace.ts Trace (`traceGroup`, the maps that
--                    `build` joins) and Totals (`calculateTotals`, `checkTotals`,
--                    `checkRenderPositions`); Numbers has differences and sums that may be `NaN`,
--                    and the other modules are proofs
--
-- How the code is read. A number is a natural number: token counts and budgets are non-negative
-- safe integers, and every subtraction of the code is guarded by the test that makes it exact. A
-- score total is a finite non-negative double, of which the modelled stages use only the order. A
-- string is the list of its code units. An object that the code keys a `Map` or a `Set` by has its
-- identity as a field. An exception is an error result that carries the issues; an issue carries
-- the values that its path and message print. Each loop is structural recursion, so that none
-- needs fuel, save the digits of a decimal, where a number's successor is enough, and the loop of
-- `combinations`, where the number of subsets of the size is. A generator is the list of what it
-- yields; the loops over it stop where the code's do. The tokenizer is a parameter: a call of it may
-- answer anything, or throw, but answers the same for the same text.
--
-- Two lists that are permutations of one another are stated as lists to which every weight of
-- their members gives the same sum (`SameItems`); a weight of 0 or 1 counts.
--
-- Not modelled: which issues the schema library lists for a value it refuses, digests (the digest of
-- the rendered context is a parameter, which may be any function), the coherence checks
-- of the trace, the retrieval, storage, network and command-line adapters, and the stages
-- that the list above leaves out. `compile` is modelled from the scored batch on, without the stage of
-- the trace that is built before the correction; the result takes that trace's groups as built from
-- the run, and the sum of the validated candidates' tokens as any number or `NaN`.
pub mod Shared
pub mod Domain
pub mod Canonical
pub mod Candidates
pub mod Deduplication
pub mod Filter
pub mod Allocation
pub mod Orderer
pub mod Renderer
pub mod Compiler
pub mod Correction
pub mod Compilation
pub mod Assembly
