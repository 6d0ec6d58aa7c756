-- ===== src/Main/Lifecycle/Signals.antt =====
-- What a signal does to the process of main.go.
use opa_openshift.Base.{ℕ, true, ◌≡◌, ◌≢◌, refl, if◌then◌else◌}
use opa_openshift.Main.{Host, Process}
use opa_openshift.Main.Lifecycle.{
  Listener, signals, RunGroup, unstarted, panicked, Life, running_group, notify, receive,
  stop_server, deliver, close_signals, begin_shutdown, set_in_flight,
}
use opa_openshift.Main.Lifecycle.Steps.{
  Act, start_waiting, catch_signal, serve, fail, close_server, interrupt_signals, interrupt_server,
  end_shutdown, end_group, Event, signal, request, finish, Run, begin, act, event,
}
use opa_openshift.Main.Lifecycle.Interrupted.{Run-IsInterrupted}

module _ (host : Host) where
  abbrev IsNotified : Life host → Type 0
  IsNotified y = y.waiter ≢ unstarted → y.channel.notified ≡ true

  module _ (p : Process host) (group : RunGroup) where
    Act-IsNotified : {y z : Life host} → Act host p group y z → IsNotified y → IsNotified z
    unfolding notify receive stop_server close_signals begin_shutdown
    Act-IsNotified (start_waiting u) h = λ w. refl
    Act-IsNotified (catch_signal u c) h = λ w. h (λ e. cc)
    Act-IsNotified (serve k s n) h = h
    Act-IsNotified (close_server k r n) h = h
    Act-IsNotified (interrupt_signals m c) h = h
    Act-IsNotified (interrupt_server k m c) h = h
    Act-IsNotified (end_shutdown k m none_left) h = h
    Act-IsNotified (end_group res m c) h = h

    Event-IsNotified : {y z : Life host} → Event host p group y z → IsNotified y → IsNotified z
    unfolding deliver set_in_flight stop_server
    Event-IsNotified signal h = h
    Event-IsNotified (request k r n) h = h
    Event-IsNotified (fail k e r n) h = h
    Event-IsNotified (finish k n some_left) h = h

    Run-IsNotified :
        {n : ℕ} {y : Life host} → Run host p group (running_group host) n y → IsNotified y
    Run-IsNotified begin = λ w. absurd (w refl)
    Run-IsNotified (act run live move) = Act-IsNotified move (Run-IsNotified run)
    Run-IsNotified (event run live move) = Event-IsNotified move (Run-IsNotified run)

    -- Once the actor that waits for a signal has started, a signal leaves the process running as
    -- long as this actor has not been interrupted; after that it makes the process panic, whatever
    -- is still in flight.
    pub Run-deliver :
        {n : ℕ} {y : Life host}
        → Run host p group (running_group host) n y
        → y.waiter ≢ unstarted
        → ((deliver host y).main ≡ (if y.interrupted signals then panicked else y.main))
          × ((k : Listener) → ((deliver host y).servers k).in_flight ≡ (y.servers k).in_flight)
    unfolding deliver
    Run-deliver run w =
        let closed = (Run-IsInterrupted host p group run).closed in
        (rw (Run-IsNotified run w, closed), λ k. refl)
