-- ===== src/Main/Lifecycle.antt =====
-- main.go once the process serves: the run group with its three actors, which wait for a signal and
-- run the two servers, up to the end of the process. The actors run at the same time, so a run is a
-- sequence of steps in any order. oklog/run's group is a parameter; channels, signals and servers
-- are those of Go's library.
pub mod Steps
pub mod Interrupted
pub mod Exits
pub mod Signals
pub mod Serving
pub mod Graceful
pub mod Progress
use opa_openshift.Base.{
  ℕ, String, Bool, true, false, Option, none, some, ◌&&◌, ◌||◌, not, ◌≡◌, ◌≢◌, ◌⊎◌, ◌+◌, plain,
  Error, Result, ok, err, if◌then◌else◌,
}
use opa_openshift.Config.Tls.{ServerTls}
use opa_openshift.Main.{Host, Server, Process}

-- The two servers, and the three actors of the group.
pub data Listener : Type 0 where
  http : Listener
  internal : Listener

pub data Actor : Type 0 where
  signals : Actor
  server : Listener → Actor

-- What a table has at a listener, after it is set at one.
abbrev pub at_listener {ℓ} : {A : Type ℓ} → (Listener → A) → Listener → A → Listener → A
at_listener f http a http = a
at_listener f http a internal = f internal
at_listener f internal a http = f http
at_listener f internal a internal = a

abbrev pub mark : (Actor → Bool) → Actor → Actor → Bool
mark f signals signals = true
mark f signals (server k) = f (server k)
mark f (server j) signals = f signals
mark f (server http) (server http) = true
mark f (server http) (server internal) = f (server internal)
mark f (server internal) (server http) = f (server http)
mark f (server internal) (server internal) = true

-- What `Run` of a group does next.
pub data GroupCall : Type 0 where
  wait : GroupCall
  interrupt : Actor → GroupCall
  give : Result (Unit {0}) → GroupCall

-- `run.Group`, as its documentation has it. What `Run` does next depends on who has exited first,
-- with which error, on who has exited, and on who has been interrupted.
pub record RunGroup : Type 0 where
  pub next : Option (Actor × Result (Unit {0})) → (Actor → Bool) → (Actor → Bool) → GroupCall
  -- It waits for a first actor to exit.
  pub waits_for_first : (exited interrupted : Actor → Bool) → next none exited interrupted ≡ wait
  -- No actor is interrupted twice.
  pub interrupts_once :
      (first : Option (Actor × Result (Unit {0}))) (exited interrupted : Actor → Bool) (a : Actor)
      → next first exited interrupted ≡ interrupt a
      → interrupted a ≡ false
  -- After the first exit, it waits only for actors that it has interrupted.
  pub waits_for_interrupted :
      (f : Actor × Result (Unit {0})) (exited interrupted : Actor → Bool)
      → next (some f) exited interrupted ≡ wait
      → (a : Actor) × (exited a ≡ false) × (interrupted a ≡ true)
  -- It returns when all have exited, with the error of the first.
  pub returns_first :
      (f : Actor × Result (Unit {0})) (exited interrupted : Actor → Bool) (res : Result (Unit {0}))
      → next (some f) exited interrupted ≡ give res
      → (res ≡ f.1) × ((a : Actor) → exited a ≡ true)

-- The channel `sig`, which has room for one signal; whether `signal.Notify` has it.
pub record SignalChannel : Type 0 where
  pub notified : Bool
  pub pending : Bool
  pub closed : Bool

-- The actor that waits for a signal.
pub data SignalPhase : Type 0 where
  unstarted : SignalPhase
  receiving : SignalPhase
  caught : SignalPhase

abbrev pub waiter_exited : SignalPhase → Bool
waiter_exited unstarted = false
waiter_exited receiving = false
waiter_exited caught = true

-- the first exit, once there is one
abbrev pub or_first :
    Option (Actor × Result (Unit {0}))
    → Actor
    → Result (Unit {0})
    → Option (Actor × Result (Unit {0}))
or_first none a res = some (a, res)
or_first (some f) a res = some f

-- The main goroutine: in `g.Run`; in the interrupt function of a server, which is `Shutdown`; after
-- `g.Run`, which is the end, by `stdlog.Fatal` if there is an error. A process can also panic, or
-- be killed by a signal that it does not handle.
pub data MainPhase : Type 0 where
  grouped : MainPhase
  shutting : Listener → MainPhase
  ended : Result (Unit {0}) → MainPhase
  panicked : MainPhase
  killed : MainPhase

abbrev pub is_running : MainPhase → Bool
is_running grouped = true
is_running (shutting k) = true
is_running (ended res) = false
is_running panicked = false
is_running killed = false

-- `http.ErrServerClosed`
abbrev pub server_closed : Error
server_closed = plain "http: Server closed"

module _ (host : Host) where
  -- The call that a server's actor makes.
  pub data ListenCall : Type 0 where
    listen_and_serve : String → ListenCall
    listen_and_serve_tls : String → ServerTls host.tls → String → String → ListenCall

  unfoldable pub listen_call : Server host → ListenCall
  listen_call s = elim s.tls_config [
    | none ↦ listen_and_serve s.addr
    | some c ↦ listen_and_serve_tls s.addr c "" ""
  ]

  abbrev pub listener : Process host → Listener → Server host
  listener p http = p.server
  listener p internal = p.internal_server

  -- A server's actor: not started; in its call; returned, with whether `Shutdown` had been called
  -- by then, and the error.
  pub data ServerPhase : Type 0 where
    idle : ServerPhase
    serving : ListenCall → ServerPhase
    stopped : Bool → Error → ServerPhase

  -- An `http.Server`: its actor, its requests in flight, and whether `Shutdown` was called.
  pub record HttpServer : Type 0 where
    pub phase : ServerPhase
    pub in_flight : ℕ
    pub in_shutdown : Bool

  pub record Life : Type 0 where
    pub channel : SignalChannel
    pub waiter : SignalPhase
    pub servers : Listener → HttpServer
    -- how many signals the process was sent
    pub sent : ℕ
    pub first : Option (Actor × Result (Unit {0}))
    pub interrupted : Actor → Bool
    pub main : MainPhase

  abbrev pub server_exited : ServerPhase → Bool
  server_exited idle = false
  server_exited (serving call) = false
  server_exited (stopped shut e) = true

  abbrev pub exited : Life → Actor → Bool
  exited y signals = waiter_exited y.waiter
  exited y (server k) = server_exited (y.servers k).phase

  abbrev pub fresh_server : HttpServer
  fresh_server = record { phase = idle; in_flight = 0; in_shutdown = false }

  -- the process when `g.Run` is called
  abbrev pub running_group : Life
  running_group = record {
    channel = record { notified = false; pending = false; closed = false };
    waiter = unstarted;
    servers = λ k. fresh_server;
    sent = 0;
    first = none;
    interrupted = λ a. false;
    main = grouped;
  }

  abbrev pub set_server : Life → Listener → HttpServer → Life
  set_server y k s = record y { servers = at_listener y.servers k s }

  -- `signal.Notify(sig, os.Interrupt, syscall.SIGTERM)`
  unfoldable pub notify : Life → Life
  notify y = record y { waiter = receiving; channel = record y.channel { notified = true } }

  -- `<-sig`, after which the signal's actor returns nil
  unfoldable pub receive : Life → Life
  receive y = record y {
    waiter = caught;
    channel = record y.channel { pending = false };
    first = or_first y.first signals (ok tt);
  }

  -- A server's actor returns.
  unfoldable pub stop_server : Life → Listener → Error → Life
  stop_server y k e = record y {
    servers =
        at_listener y.servers k
          (record (y.servers k) { phase = stopped (y.servers k).in_shutdown e });
    first = or_first y.first (server k) (err e);
  }

  -- A signal arrives. Without `Notify` it ends the process; a send on a closed channel panics; a
  -- full channel drops it.
  unfoldable pub deliver : Life → Life
  deliver y = record y {
    sent = y.sent + 1;
    channel = record y.channel {
      pending = y.channel.notified && not y.channel.closed || y.channel.pending;
    };
    main = if not y.channel.notified then killed else if y.channel.closed then panicked else y.main;
  }

  -- `close(sig)`
  unfoldable pub close_signals : Life → Life
  close_signals y = record y {
    channel = record y.channel { closed = true };
    interrupted = mark y.interrupted signals;
    main = if y.channel.closed then panicked else y.main;
  }

  -- `s.Shutdown(context.Background())` takes no more requests, and waits for those in flight.
  unfoldable pub begin_shutdown : Life → Listener → Life
  begin_shutdown y k = record y {
    servers = at_listener y.servers k (record (y.servers k) { in_shutdown = true });
    interrupted = mark y.interrupted (server k);
    main = shutting k;
  }

  -- A request comes in at a server, or is answered.
  unfoldable pub set_in_flight : Life → Listener → ℕ → Life
  set_in_flight y k n = set_server y k (record (y.servers k) { in_flight = n })
