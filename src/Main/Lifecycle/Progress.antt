-- ===== src/Main/Lifecycle/Progress.antt =====
-- The process of main.go comes to its end once one of its actors has exited.
use opa_openshift.Base.{ℕ, Bool, ◌+◌, if◌then◌else◌}
use opa_openshift.Main.{Host, Process}
use opa_openshift.Main.Lifecycle.{
  Listener, http, internal, RunGroup, SignalPhase, unstarted, receiving, caught, MainPhase, grouped,
  shutting, ended, panicked, killed, ServerPhase, idle, serving, stopped, HttpServer, Life,
}
use opa_openshift.Main.Lifecycle.Steps.{Onward}

-- How many steps each part of the process still makes at most.
abbrev waiter_rank : SignalPhase → ℕ
waiter_rank unstarted = 2
waiter_rank receiving = 1
waiter_rank caught = 0

abbrev closing_rank : Bool → ℕ
closing_rank closed = if closed then 0 else 1

abbrev main_rank : MainPhase → ℕ
main_rank grouped = 1
main_rank (shutting k) = 2
main_rank (ended res) = 0
main_rank panicked = 0
main_rank killed = 0

module _ (host : Host) where
  abbrev phase_rank : ServerPhase host → ℕ
  phase_rank idle = 2
  phase_rank (serving call) = 1
  phase_rank (stopped shut e) = 0

  abbrev server_rank : HttpServer host → ℕ
  server_rank s = phase_rank s.phase + (if s.in_shutdown then 0 else 2)

  abbrev servers_rank : (Listener → HttpServer host) → ℕ
  servers_rank f = server_rank (f http) + server_rank (f internal)

  abbrev rank : Life host → ℕ
  rank y =
      waiter_rank y.waiter
      + closing_rank y.channel.closed
      + servers_rank y.servers
      + main_rank y.main

  module _ (p : Process host) (group : RunGroup) where
    abbrev IsMovable : Life host → Type 0
    IsMovable y = (z : Life host) × Onward host p group y z
