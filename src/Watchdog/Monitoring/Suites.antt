-- ===== src/Watchdog/Monitoring/Suites.antt =====
-- Which results the alerting of a suite's endpoints is given (watchdog/suite.go), with the execution
-- of config/suite/suite.go.
use gatus.Endpoint.{Endpoint}
use gatus.Suite.{Suite}
use gatus.Suite.Execution.{Runner, execute}
use gatus.Watchdog.Monitoring.{Site}

-- The site where suites are executed by Execute.
abbrev pub executing : {W P Window : Type 0} → Site W P Window → Runner W → Site W P Window
executing site r = record site { execute = execute r }
