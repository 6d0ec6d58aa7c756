-- ===== src/Main/Lifecycle/Steps.antt =====
-- The steps of main.go's process: those that it makes itself, those that come from outside, and how
-- they make up a run.
use opa_openshift.Base.{ℕ, true, false, ◌||◌, ◌≡◌, ◌≢◌, ◌+◌, Error, Result}
use opa_openshift.Main.{Host, Process}
use opa_openshift.Main.Lifecycle.{
  GroupCall, Life, Listener, RunGroup, begin_shutdown, close_signals, deliver, ended, exited, give,
  grouped, idle, interrupt, is_running, listen_call, listener, notify, receive, receiving, server,
  server_closed, server_exited, serving, set_in_flight, set_server, shutting, signals, stop_server,
  unstarted,
}

module _ (host : Host) (p : Process host) (group : RunGroup) where
  abbrev pub next_call : Life host → GroupCall
  next_call y = group.next y.first (exited host y) y.interrupted

  -- A step of the process itself, which nothing from outside has to bring about.
  pub data Act (y : Life host) : Life host → Type 0 where
    start_waiting : y.waiter ≡ unstarted → Act y (notify host y)
    catch_signal :
        y.waiter ≡ receiving
        → (y.channel.pending || y.channel.closed) ≡ true
        → Act y (receive host y)
    serve :
        (k : Listener)
        → (y.servers k).phase ≡ idle
        → (y.servers k).in_shutdown ≡ false
        → Act y (
            set_server host y k
              (record (y.servers k) { phase = serving (listen_call host (listener host p k)) }))
    -- `ListenAndServe` returns once `Shutdown` was called
    close_server :
        (k : Listener)
        → server_exited host (y.servers k).phase ≡ false
        → (y.servers k).in_shutdown ≡ true
        → Act y (stop_server host y k server_closed)
    interrupt_signals :
        y.main ≡ grouped → next_call y ≡ interrupt signals → Act y (close_signals host y)
    interrupt_server :
        (k : Listener)
        → y.main ≡ grouped
        → next_call y ≡ interrupt (server k)
        → Act y (begin_shutdown host y k)
    end_shutdown :
        (k : Listener)
        → y.main ≡ shutting k
        → (y.servers k).in_flight ≡ 0
        → Act y (record y { main = grouped })
    end_group :
        (res : Result (Unit {0}))
        → y.main ≡ grouped
        → next_call y ≡ give res
        → Act y (record y { main = ended res })

  -- What comes from outside: a signal, a request, the end of one, and the failure of a server.
  pub data Event (y : Life host) : Life host → Type 0 where
    signal : Event y (deliver host y)
    request :
        (k : Listener)
        → (y.servers k).phase ≢ idle
        → (y.servers k).in_shutdown ≡ false
        → Event y (set_in_flight host y k ((y.servers k).in_flight + 1))
    finish :
        (k : Listener) (n : ℕ)
        → (y.servers k).in_flight ≡ n + 1
        → Event y (set_in_flight host y k n)
    -- a server cannot listen, or cannot accept connections any more
    fail :
        (k : Listener) (e : Error)
        → server_exited host (y.servers k).phase ≡ false
        → (y.servers k).in_shutdown ≡ false
        → Event y (stop_server host y k e)

  -- A run in which the process makes n steps of its own.
  pub data Run (y : Life host) : ℕ → Life host → Type 0 where
    begin : Run y 0 y
    act :
        {n : ℕ} {z z' : Life host}
        → Run y n z
        → is_running z.main ≡ true
        → Act z z'
        → Run y (n + 1) z'
    event :
        {n : ℕ} {z z' : Life host} → Run y n z → is_running z.main ≡ true → Event z z' → Run y n z'

  -- The next step of the process, after some requests in flight are answered.
  pub data Onward : Life host → Life host → Type 0 where
    step : {y z : Life host} → is_running y.main ≡ true → Act y z → Onward y z
    answer :
        (k : Listener) (n : ℕ) {y z : Life host}
        → is_running y.main ≡ true
        → (y.servers k).in_flight ≡ n + 1
        → Onward (set_in_flight host y k n) z
        → Onward y z
