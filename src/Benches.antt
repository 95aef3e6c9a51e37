-- ===== src/Benches.antt =====
-- The test benches of the repository, as programs over the models of what they test.
pub mod Sdram
pub mod Routing
pub mod Multiport
pub mod Or1k
pub mod Flash
pub mod Clock
pub mod Tests
use deltamodels.Base.{Run, done, raised, undefined, Handler, error, report, ◌>>=◌}

-- `catch (const std::exception& ex)` of the benches: a failure of their own is reported.
abbrev pub or_failure : {S : Type 0} → Handler → Run S S → Run S S
or_failure throws (done t) = done t
or_failure throws (raised e t) = report throws error "TEST_FAILURE" t >>= λ _. done t
or_failure throws undefined = undefined
