-- ===== src/Main/Lifecycle/Interrupted.antt =====
-- The interrupt functions of main.go in every run: what they have closed and shut down, and what is
-- in flight then.
use opa_openshift.Base.{
  ℕ, Bool, true, false, ◌≡◌, ◌⊎◌, inl, inr, refl, arith, Error, ◌∙◌, subst, not, if◌then◌else◌,
}
use opa_openshift.Main.{Host, Process}
use opa_openshift.Main.Lifecycle.{
  Listener, http, internal, signals, server, at_listener, mark, RunGroup, MainPhase, grouped,
  shutting, panicked, killed, server_closed, listen_call, listener, serving, stopped, HttpServer,
  Life, running_group, notify, receive, stop_server, deliver, close_signals, begin_shutdown,
  set_in_flight,
}
use opa_openshift.Main.Lifecycle.Steps.{
  Act, start_waiting, catch_signal, serve, fail, close_server, interrupt_signals, interrupt_server,
  end_shutdown, end_group, Event, signal, request, finish, Run, begin, act, event,
}

pub at_listener-all {ℓ κ} :
    {A : Type ℓ} (P : Listener → A → Type κ) (f : Listener → A) (k : Listener) (a : A)
    → ((j : Listener) → P j (f j))
    → P k a
    → (j : Listener) → P j (at_listener f k a j)
at_listener-all P f http a h ha http = ha
at_listener-all P f http a h ha internal = h internal
at_listener-all P f internal a h ha http = h http
at_listener-all P f internal a h ha internal = ha

abbrev pub IsAborted : MainPhase → Type 0
IsAborted main = (main ≡ panicked) ⊎ (main ≡ killed)

module _ (host : Host) where
  -- A server that is shut down has nothing in flight, unless it is still waited for.
  abbrev IsDrained : MainPhase → Listener → HttpServer host → Type 0
  IsDrained main k s =
      s.in_shutdown ≡ true → (main ≡ shutting k) ⊎ ((s.in_flight ≡ 0) ⊎ IsAborted main)

  -- What was closed and shut down is what was interrupted.
  pub record IsInterrupted (y : Life host) : Type 0 where
    pub closed : y.channel.closed ≡ y.interrupted signals
    pub shut : (k : Listener) → (y.servers k).in_shutdown ≡ y.interrupted (server k)
    pub drained : (k : Listener) → IsDrained y.main k (y.servers k)

  shut_at :
      (y : Life host) (k : Listener) (s : HttpServer host)
      → IsInterrupted y
      → s.in_shutdown ≡ (y.servers k).in_shutdown
      → (j : Listener) → (at_listener y.servers k s j).in_shutdown ≡ y.interrupted (server j)
  shut_at y k s h e =
      at_listener-all (λ j s. s.in_shutdown ≡ y.interrupted (server j)) y.servers k s h.shut
        (e ∙ h.shut k)

  shut_marked :
      (y : Life host) (k : Listener)
      → IsInterrupted y
      → (j : Listener)
      → (at_listener y.servers k (record (y.servers k) { in_shutdown = true }) j).in_shutdown
        ≡ mark y.interrupted (server k) (server j)
  shut_marked y http h http = refl
  shut_marked y http h internal = h.shut internal
  shut_marked y internal h http = h.shut http
  shut_marked y internal h internal = refl

  pub drained_now :
      {main : MainPhase} (k : Listener) (s : HttpServer host)
      → main ≡ grouped
      → IsDrained main k s
      → s.in_shutdown ≡ true
      → s.in_flight ≡ 0
  drained_now k s m h e = elim (h e) [
    | inl w ↦ absurd (cc)
    | inr (inl none_left) ↦ none_left
    | inr (inr (inl x)) ↦ absurd (cc)
    | inr (inr (inr x)) ↦ absurd (cc)
  ]

  drained_shutting :
      {main : MainPhase} (k j : Listener) (s : Listener → HttpServer host)
      → main ≡ shutting k
      → (s k).in_flight ≡ 0
      → IsDrained main j (s j)
      → (s j).in_shutdown ≡ true
      → (s j).in_flight ≡ 0
  drained_shutting k j s m none_left h e = elim (h e) [
    | inl w ↦ let same : k ≡ j = cc in subst (λ j. (s j).in_flight ≡ 0) same none_left
    | inr (inl nothing) ↦ nothing
    | inr (inr (inl x)) ↦ absurd (cc)
    | inr (inr (inr x)) ↦ absurd (cc)
  ]

  module _ (p : Process host) (group : RunGroup) where
    stop_server-IsInterrupted :
        (y : Life host) (k : Listener) (e : Error)
        → IsInterrupted y
        → IsInterrupted (stop_server host y k e)
    unfolding stop_server
    stop_server-IsInterrupted y k e h = record {
      closed = h.closed;
      shut =
          shut_at y k (record (y.servers k) { phase = stopped (y.servers k).in_shutdown e }) h refl;
      drained =
          at_listener-all (IsDrained y.main) y.servers k
            (record (y.servers k) { phase = stopped (y.servers k).in_shutdown e }) h.drained
            (h.drained k);
    }

    begin_shutdown-IsInterrupted :
        (y : Life host) (k : Listener)
        → y.main ≡ grouped
        → IsInterrupted y
        → IsInterrupted (begin_shutdown host y k)
    unfolding begin_shutdown
    begin_shutdown-IsInterrupted y k m h = record {
      closed = h.closed;
      shut = shut_marked y k h;
      drained =
          at_listener-all (IsDrained (shutting k)) y.servers k
            (record (y.servers k) { in_shutdown = true })
            (λ j e. inr (inl (drained_now j (y.servers j) m (h.drained j) e))) (λ e. inl refl);
    }

    Act-IsInterrupted : {y z : Life host} → Act host p group y z → IsInterrupted y → IsInterrupted z
    unfolding notify receive close_signals
    Act-IsInterrupted (start_waiting u) h = record {
      closed = h.closed;
      shut = h.shut;
      drained = h.drained;
    }
    Act-IsInterrupted (catch_signal u c) h = record {
      closed = h.closed;
      shut = h.shut;
      drained = h.drained;
    }
    Act-IsInterrupted {y} (serve k i n) h =
        let s = record (y.servers k) { phase = serving (listen_call host (listener host p k)) } in
        record {
          closed = h.closed;
          shut = shut_at y k s h refl;
          drained = at_listener-all (IsDrained y.main) y.servers k s h.drained (h.drained k);
        }
    Act-IsInterrupted {y} (close_server k r n) h = stop_server-IsInterrupted y k server_closed h
    Act-IsInterrupted {y} (interrupt_signals m c) h = record {
      closed = refl;
      shut = h.shut;
      drained = λ j e. inr (inl (drained_now j (y.servers j) m (h.drained j) e));
    }
    Act-IsInterrupted {y} (interrupt_server k m c) h = begin_shutdown-IsInterrupted y k m h
    Act-IsInterrupted {y} (end_shutdown k m none_left) h = record {
      closed = h.closed;
      shut = h.shut;
      drained = λ j e. inr (inl (drained_shutting k j y.servers m none_left (h.drained j) e));
    }
    Act-IsInterrupted {y} (end_group res m c) h = record {
      closed = h.closed;
      shut = h.shut;
      drained = λ j e. inr (inl (drained_now j (y.servers j) m (h.drained j) e));
    }

    set_in_flight-IsInterrupted :
        (y : Life host) (k : Listener) (n : ℕ)
        → IsInterrupted y
        → IsDrained y.main k (record (y.servers k) { in_flight = n })
        → IsInterrupted (set_in_flight host y k n)
    unfolding set_in_flight
    set_in_flight-IsInterrupted y k n h d =
        let s = record (y.servers k) { in_flight = n } in
        record {
          closed = h.closed;
          shut = shut_at y k s h refl;
          drained = at_listener-all (IsDrained y.main) y.servers k s h.drained d;
        }

    delivered-IsDrained :
        (notified closed : Bool) (main : MainPhase) (k : Listener) (s : HttpServer host)
        → IsDrained main k s
        → IsDrained (if not notified then killed else if closed then panicked else main) k s
    delivered-IsDrained false closed main k s h e = inr (inr (inr refl))
    delivered-IsDrained true true main k s h e = inr (inr (inl refl))
    delivered-IsDrained true false main k s h e = h e

    Event-IsInterrupted :
        {y z : Life host} → Event host p group y z → IsInterrupted y → IsInterrupted z
    unfolding deliver
    Event-IsInterrupted {y} signal h = record {
      closed = h.closed;
      shut = h.shut;
      drained = λ k. delivered-IsDrained _ _ y.main k (y.servers k) (h.drained k);
    }
    Event-IsInterrupted {y} (request k r n) h =
        set_in_flight-IsInterrupted y k _ h (λ e. absurd (cc))
    Event-IsInterrupted {y} (fail k e r n) h = stop_server-IsInterrupted y k e h
    Event-IsInterrupted {y} (finish k n some_left) h =
        set_in_flight-IsInterrupted y k n h (λ e. ground (arith, h.drained k e))

    pub Run-IsInterrupted :
        {n : ℕ} {y : Life host} → Run host p group (running_group host) n y → IsInterrupted y
    Run-IsInterrupted begin = record {
      closed = refl;
      shut = λ k. refl;
      drained = λ k e. absurd (cc);
    }
    Run-IsInterrupted (act run live move) = Act-IsInterrupted move (Run-IsInterrupted run)
    Run-IsInterrupted (event run live move) = Event-IsInterrupted move (Run-IsInterrupted run)
