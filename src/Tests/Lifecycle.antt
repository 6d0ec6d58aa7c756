-- ===== src/Tests/Lifecycle.antt =====
-- A process that serves, is sent a signal while a request is in flight, and ends.
use opa_openshift.Base.{
  ℕ, Bool, true, false, Option, none, some, ◌≡◌, inl, inr, refl, arith, ◌&&◌, not, ◌+◌, Result, ok,
  Bool-cases, if◌then◌else◌,
}
use opa_openshift.Config.{Config}
use opa_openshift.Main.Lifecycle.{
  Listener, http, internal, Actor, signals, server, GroupCall, wait, interrupt, give, RunGroup,
  grouped, ended, panicked, server_closed, ListenCall, listen_and_serve_tls, listen_call, listener,
  serving, Life, running_group, set_server, notify, receive, stop_server, deliver, close_signals,
  begin_shutdown, set_in_flight,
}
use opa_openshift.Main.Lifecycle.Steps.{
  start_waiting, catch_signal, serve, close_server, interrupt_signals, interrupt_server,
  end_shutdown, end_group, signal, request, finish, Run, begin, act, event,
}
use opa_openshift.Main.Lifecycle.Graceful.{IsGraceful, Run-IsGraceful}
use opa_openshift.Main.Lifecycle.Signals.{Run-deliver}
use opa_openshift.Tests.Startup.{host, server_tls, process}

-- A group that interrupts all its actors in their order, the first to exit too.
abbrev next : Option (Actor × Result (Unit {0})) → (Actor → Bool) → (Actor → Bool) → GroupCall
next none exited interrupted = wait
next (some f) exited interrupted =
    if not (interrupted signals)
    then interrupt signals
    else if not (interrupted (server http))
    then interrupt (server http)
    else if not (interrupted (server internal))
    then interrupt (server internal)
    else if exited signals && (exited (server http) && exited (server internal))
    then give f.1
    else wait

next_interrupts_once :
    (first : Option (Actor × Result (Unit {0}))) (exited interrupted : Actor → Bool) (a : Actor)
    → next first exited interrupted ≡ interrupt a
    → interrupted a ≡ false
next_interrupts_once none exited interrupted a e = absurd (cc)
next_interrupts_once (some f) exited interrupted signals e = ground arith
next_interrupts_once (some f) exited interrupted (server http) e = ground arith
next_interrupts_once (some f) exited interrupted (server internal) e = ground arith

next_waits :
    (f : Actor × Result (Unit {0})) (exited interrupted : Actor → Bool)
    → next (some f) exited interrupted ≡ wait
    → (a : Actor) × (exited a ≡ false) × (interrupted a ≡ true)
next_waits f exited interrupted e = elim (Bool-cases (exited signals)) [
  | inr out ↦ (signals, out, ground arith)
  | inl in_it ↦ elim (Bool-cases (exited (server http))) [
    | inr out ↦ (server http, out, ground arith)
    | inl in_too ↦ (server internal, ground arith, ground arith)
  ]
]

next_all_exited :
    (f : Actor × Result (Unit {0})) (exited interrupted : Actor → Bool) (res : Result (Unit {0}))
    → next (some f) exited interrupted ≡ give res
    → (a : Actor) → exited a ≡ true
next_all_exited f exited interrupted res e signals = ground arith
next_all_exited f exited interrupted res e (server http) = ground arith
next_all_exited f exited interrupted res e (server internal) = ground arith

next_first :
    (f : Actor × Result (Unit {0})) (exited interrupted : Actor → Bool) (res : Result (Unit {0}))
    → next (some f) exited interrupted ≡ give res
    → res ≡ f.1
next_first f exited interrupted res e = ground arith

abbrev group : RunGroup
group = record {
  next = next;
  waits_for_first = λ exited interrupted. refl;
  interrupts_once = next_interrupts_once;
  waits_for_interrupted = next_waits;
  returns_first = λ f exited interrupted res e.
      (next_first f exited interrupted res e, next_all_exited f exited interrupted res e);
}

abbrev Reached : ℕ → Life host → Type 0
Reached = Run host process group (running_group host)

abbrev call : ListenCall host
call = listen_and_serve_tls ":8080" server_tls "" ""

abbrev notified : Life host
notified = notify host (running_group host)

abbrev served : Life host
served = set_server host notified http (record (notified.servers http) {
  phase = serving (listen_call host (listener host process http));
})

abbrev requested : Life host
requested = set_in_flight host served http ((served.servers http).in_flight + 1)

abbrev told : Life host
told = deliver host requested

abbrev caught_it : Life host
caught_it = receive host told

abbrev closed : Life host
closed = close_signals host caught_it

abbrev shutting_http : Life host
shutting_http = begin_shutdown host closed http

abbrev answered : Life host
answered = set_in_flight host shutting_http http 0

abbrev http_shut : Life host
http_shut = record answered { main = grouped }

abbrev http_stopped : Life host
http_stopped = stop_server host http_shut http server_closed

abbrev shutting_internal : Life host
shutting_internal = begin_shutdown host http_stopped internal

abbrev internal_shut : Life host
internal_shut = record shutting_internal { main = grouped }

abbrev internal_stopped : Life host
internal_stopped = stop_server host internal_shut internal server_closed

abbrev over : Life host
over = record internal_stopped { main = ended (ok tt) }

-- It listens with TLS.
served-Reached : Reached 2 served
unfolding notify
served-Reached = act (act begin refl (start_waiting refl)) refl (serve http refl refl)

-- A request is in flight at the first server, which is shut down.
shutting-Reached : Reached 5 shutting_http
unfolding notify set_in_flight deliver receive close_signals
shutting-Reached =
    act
      (act
        (act (event (event served-Reached refl (request http (λ e. cc) refl)) refl signal) refl
          (catch_signal refl refl))
        refl (interrupt_signals refl refl))
      refl (interrupt_server http refl refl)

Run-deliver_example :
    ((deliver host shutting_http).main ≡ panicked)
    × ((k : Listener)
        → ((deliver host shutting_http).servers k).in_flight ≡ (shutting_http.servers k).in_flight)
unfolding notify set_in_flight deliver receive close_signals begin_shutdown
Run-deliver_example = Run-deliver host process group shutting-Reached (λ e. cc)

over-Reached : Reached 11 over
unfolding notify set_in_flight deliver receive close_signals begin_shutdown stop_server
over-Reached =
    act
      (act
        (act
          (act
            (act
              (act (event shutting-Reached refl (finish http 0 refl)) refl
                (end_shutdown http refl refl))
              refl (close_server http refl refl))
            refl (interrupt_server internal refl refl))
          refl (end_shutdown internal refl refl))
        refl (close_server internal refl refl))
      refl (end_group (ok tt) refl refl)

over_ended : over.main ≡ ended (ok tt)
over_ended = refl

Run-IsGraceful_example : IsGraceful host over (ok tt)
Run-IsGraceful_example = Run-IsGraceful host process group over-Reached (ok tt) over_ended
