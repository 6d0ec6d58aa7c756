-- ===== src/Main/Lifecycle/Exits.antt =====
-- Who exits first in a run of main.go, and why.
use opa_openshift.Base.{
  ℕ, ◌∙◌, Bool, true, false, Option, none, some, ◌≡◌, ◌≢◌, ◌⊎◌, inl, inr, Bool-cases, refl, ◌≤◌,
  arith, Error, Result, ok, err, ◌||◌,
}
use opa_openshift.Main.{Host, Process}
use opa_openshift.Main.Lifecycle.{
  Listener, http, internal, Actor, signals, server, at_listener, stopped, HttpServer, server_exited,
  serving, listen_call, listener, wait, interrupt, RunGroup, server_closed, Life, running_group,
  or_first, notify, receive, stop_server, deliver, close_signals, begin_shutdown, set_in_flight,
}
use opa_openshift.Main.Lifecycle.Steps.{
  next_call, Act, start_waiting, catch_signal, serve, fail, close_server, interrupt_signals,
  interrupt_server, end_shutdown, end_group, Event, signal, request, finish, Run, begin, act, event,
}
use opa_openshift.Main.Lifecycle.Interrupted.{at_listener-all, IsInterrupted, Run-IsInterrupted}

or_first_some :
    (first : Option (Actor × Result (Unit {0}))) (a : Actor) (res : Result (Unit {0}))
    → or_first first a res ≢ none
or_first_some none a res e = cc
or_first_some (some f) a res e = cc

module _ (host : Host) where
  -- Why an actor exits first: a signal was sent; or a server has failed, with this error, before
  -- `Shutdown` was called on it.
  abbrev pub IsOwnExit : Life host → Actor → Result (Unit {0}) → Type 0
  IsOwnExit y signals res = (res ≡ ok tt) × (1 ≤ y.sent)
  IsOwnExit y (server k) res = (e : Error) × (res ≡ err e) × ((y.servers k).phase ≡ stopped false e)

  abbrev pub IsFirst : Life host → Option (Actor × Result (Unit {0})) → Type 0
  IsFirst y none = Unit
  IsFirst y (some f) = IsOwnExit y f.0 f.1

  -- A server that has stopped stays so.
  abbrev StaysStopped : (Listener → HttpServer host) → Listener → HttpServer host → Type 0
  StaysStopped f k s =
      (shut : Bool) (e : Error) → (f k).phase ≡ stopped shut e → s.phase ≡ stopped shut e

  IsFirst-later :
      (y z : Life host) (first : Option (Actor × Result (Unit {0})))
      → y.sent ≤ z.sent
      → ((k : Listener) → StaysStopped y.servers k (z.servers k))
      → IsFirst y first
      → IsFirst z first
  IsFirst-later y z none less stays h = tt
  IsFirst-later y z (some (signals, res)) less stays (e, some_sent) = (e, omega arith)
  IsFirst-later y z (some (server k, res)) less stays (x, e, s) = (x, e, stays k false x s)

  or_first-IsFirst :
      (y : Life host) (first : Option (Actor × Result (Unit {0}))) (a : Actor)
      (res : Result (Unit {0}))
      → IsFirst y first
      → (first ≡ none → IsOwnExit y a res)
      → IsFirst y (or_first first a res)
  or_first-IsFirst y none a res h new = new refl
  or_first-IsFirst y (some f) a res h new = h

  set-StaysStopped :
      (f : Listener → HttpServer host) (k : Listener) (s : HttpServer host)
      → StaysStopped f k s
      → (j : Listener) → StaysStopped f j (at_listener f k s j)
  set-StaysStopped f k s h = at_listener-all (StaysStopped f) f k s (λ j shut e same. same) h

  running-StaysStopped :
      (f : Listener → HttpServer host) (k : Listener) (s : HttpServer host)
      → server_exited host (f k).phase ≡ false
      → StaysStopped f k s
  running-StaysStopped f k s r shut e same =
      let over : server_exited host (f k).phase ≡ true = rw same refl in absurd (cc)

  -- A server whose actor has returned was shut down, or has failed by itself.
  abbrev pub IsStopped : HttpServer host → Type 0
  IsStopped s =
      server_exited host s.phase ≡ true
      → (s.in_shutdown ≡ true) ⊎ ((e : Error) × (s.phase ≡ stopped false e))

  set-IsStopped :
      (y : Life host) (k : Listener) (s : HttpServer host)
      → ((j : Listener) → IsStopped (y.servers j))
      → IsStopped s
      → (j : Listener) → IsStopped (at_listener y.servers k s j)
  set-IsStopped y k s = at_listener-all (λ j. IsStopped) y.servers k s

  stopped-IsStopped :
      (s : HttpServer host) (e : Error) → IsStopped (record s { phase = stopped s.in_shutdown e })
  stopped-IsStopped s e out = elim (Bool-cases s.in_shutdown) [
    | inl shut ↦ inl shut
    | inr n ↦ inr (e, rw n refl)
  ]

  -- Before the first exit nobody has exited, nobody is interrupted.
  pub record IsOrdered (y : Life host) : Type 0 where
    pub pending : y.channel.pending ≡ true → 1 ≤ y.sent
    pub uninterrupted : y.first ≡ none → (a : Actor) → y.interrupted a ≡ false
    pub first : IsFirst y y.first
    pub stops : (k : Listener) → IsStopped (y.servers k)

  module _ (p : Process host) (group : RunGroup) where
    abbrev stopped_now : Life host → Listener → Error → HttpServer host
    stopped_now y k e = record (y.servers k) { phase = stopped (y.servers k).in_shutdown e }

    stopped_at :
        (y : Life host) (k : Listener) (e : Error)
        → (y.servers k).in_shutdown ≡ false
        → ((stop_server host y k e).servers k).phase ≡ stopped false e
    unfolding stop_server
    stopped_at y http e n = rw n refl
    stopped_at y internal e n = rw n refl

    -- A server that returns first has not been shut down.
    stop_server-IsOrdered :
        (y : Life host) (k : Listener) (e : Error)
        → server_exited host (y.servers k).phase ≡ false
        → IsInterrupted host y
        → IsOrdered y
        → IsOrdered (stop_server host y k e)
    unfolding stop_server
    stop_server-IsOrdered y k e r i h = record {
      pending = h.pending;
      uninterrupted = λ none_yet. absurd (or_first_some y.first _ _ none_yet);
      first =
          or_first-IsFirst (stop_server host y k e) y.first (server k) (err e)
            (IsFirst-later y (stop_server host y k e) y.first (omega arith)
              (set-StaysStopped y.servers k (stopped_now y k e)
                (running-StaysStopped y.servers k (stopped_now y k e) r))
              h.first)
            (λ none_yet.
              (e, refl, stopped_at y k e (i.shut k ∙ h.uninterrupted none_yet (server k))));
      stops = set-IsStopped y k (stopped_now y k e) h.stops (stopped-IsStopped (y.servers k) e);
    }

    -- The first signal is caught before the channel is closed.
    receive-IsOrdered :
        (y : Life host)
        → (y.channel.pending || y.channel.closed) ≡ true
        → IsInterrupted host y
        → IsOrdered y
        → IsOrdered (receive host y)
    unfolding receive
    receive-IsOrdered y c i h = record {
      pending = λ e. absurd (cc);
      uninterrupted = λ e. absurd (or_first_some y.first _ _ e);
      first =
          or_first-IsFirst (receive host y) y.first signals (ok tt)
            (IsFirst-later y (receive host y) y.first (omega arith) (λ k shut x same. same) h.first)
            (λ e.
              let quiet = h.uninterrupted e signals in (refl, ground (arith, h.pending, i.closed)));
      stops = h.stops;
    }

    uninterrupted_still :
        (y : Life host) (a : Actor) (interrupted : Actor → Bool)
        → next_call host p group y ≡ interrupt a
        → y.first ≡ none
        → (b : Actor) → interrupted b ≡ false
    uninterrupted_still y a interrupted c e =
        let waits : next_call host p group y ≡ wait = rw e (group.waits_for_first _ _) in
        absurd (cc)

    Act-IsOrdered :
        {y z : Life host} → Act host p group y z → IsInterrupted host y → IsOrdered y → IsOrdered z
    unfolding notify close_signals begin_shutdown
    Act-IsOrdered {y} (start_waiting u) i h = record {
      pending = h.pending;
      uninterrupted = h.uninterrupted;
      first = IsFirst-later y (notify host y) y.first (omega arith) (λ k shut x same. same) h.first;
      stops = h.stops;
    }
    Act-IsOrdered {y} (catch_signal u c) i h = receive-IsOrdered y c i h
    Act-IsOrdered {y} {z} (serve k idle_still n) i h = record {
      pending = h.pending;
      uninterrupted = h.uninterrupted;
      first =
          IsFirst-later y z y.first (omega arith)
            (set-StaysStopped y.servers k
              (record (y.servers k) { phase = serving (listen_call host (listener host p k)) })
              (running-StaysStopped y.servers k
                (record (y.servers k) { phase = serving (listen_call host (listener host p k)) })
                (rw idle_still refl)))
            h.first;
      stops =
          set-IsStopped y k
            (record (y.servers k) { phase = serving (listen_call host (listener host p k)) })
            h.stops (λ out. absurd (cc));
    }
    Act-IsOrdered {y} (close_server k r n) i h = stop_server-IsOrdered y k server_closed r i h
    Act-IsOrdered {y} (interrupt_signals m c) i h = record {
      pending = h.pending;
      uninterrupted = uninterrupted_still y signals _ c;
      first =
          IsFirst-later y (close_signals host y) y.first (omega arith) (λ k shut x same. same)
            h.first;
      stops = h.stops;
    }
    Act-IsOrdered {y} (interrupt_server k m c) i h = record {
      pending = h.pending;
      uninterrupted = uninterrupted_still y (server k) _ c;
      first =
          IsFirst-later y (begin_shutdown host y k) y.first (omega arith)
            (set-StaysStopped y.servers k (record (y.servers k) { in_shutdown = true })
              (λ shut x same. same))
            h.first;
      stops =
          set-IsStopped y k (record (y.servers k) { in_shutdown = true }) h.stops (λ out. inl refl);
    }
    Act-IsOrdered {y} {z} (end_shutdown k m none_left) i h = record {
      pending = h.pending;
      uninterrupted = h.uninterrupted;
      first = IsFirst-later y z y.first (omega arith) (λ k shut x same. same) h.first;
      stops = h.stops;
    }
    Act-IsOrdered {y} {z} (end_group res m c) i h = record {
      pending = h.pending;
      uninterrupted = h.uninterrupted;
      first = IsFirst-later y z y.first (omega arith) (λ k shut x same. same) h.first;
      stops = h.stops;
    }

    set_in_flight-IsOrdered :
        (y : Life host) (k : Listener) (n : ℕ) → IsOrdered y → IsOrdered (set_in_flight host y k n)
    unfolding set_in_flight
    set_in_flight-IsOrdered y k n h = record {
      pending = h.pending;
      uninterrupted = h.uninterrupted;
      first =
          IsFirst-later y (set_in_flight host y k n) y.first (omega arith)
            (set-StaysStopped y.servers k (record (y.servers k) { in_flight = n })
              (λ shut x same. same))
            h.first;
      stops = set-IsStopped y k (record (y.servers k) { in_flight = n }) h.stops (h.stops k);
    }

    Event-IsOrdered :
        {y z : Life host}
        → Event host p group y z
        → IsInterrupted host y
        → IsOrdered y
        → IsOrdered z
    unfolding deliver
    Event-IsOrdered {y} signal i h = record {
      pending = λ e. omega arith;
      uninterrupted = h.uninterrupted;
      first =
          IsFirst-later y (deliver host y) y.first (omega arith) (λ k shut x same. same) h.first;
      stops = h.stops;
    }
    Event-IsOrdered {y} (request k r n) i h = set_in_flight-IsOrdered y k _ h
    Event-IsOrdered {y} (finish k n some_left) i h = set_in_flight-IsOrdered y k n h
    Event-IsOrdered {y} (fail k e r n) i h = stop_server-IsOrdered y k e r i h

    pub Run-IsOrdered :
        {n : ℕ} {y : Life host} → Run host p group (running_group host) n y → IsOrdered y
    Run-IsOrdered begin = record {
      pending = λ e. absurd (cc);
      uninterrupted = λ e a. refl;
      first = tt;
      stops = λ k out. absurd (cc);
    }
    Run-IsOrdered (act run live move) =
        Act-IsOrdered move (Run-IsInterrupted host p group run) (Run-IsOrdered run)
    Run-IsOrdered (event run live move) =
        Event-IsOrdered move (Run-IsInterrupted host p group run) (Run-IsOrdered run)
