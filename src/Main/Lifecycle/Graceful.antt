-- ===== src/Main/Lifecycle/Graceful.antt =====
-- The end of main.go's process, if it ends by itself.
use opa_openshift.Base.{
  ℕ, Bool, true, false, some, ◌≡◌, ◌⊎◌, inl, inr, Error, Result, Option-cases, ◌≢◌, subst, not,
  if◌then◌else◌,
}
use opa_openshift.Main.{Host, Process}
use opa_openshift.Main.Lifecycle.{
  Listener, Actor, server, give, wait, RunGroup, MainPhase, grouped, ended, panicked, killed,
  is_running, stopped, Life, exited, running_group, notify, receive, stop_server, deliver,
  close_signals, begin_shutdown, set_in_flight,
}
use opa_openshift.Main.Lifecycle.Steps.{
  next_call, Act, start_waiting, catch_signal, serve, fail, close_server, interrupt_signals,
  interrupt_server, end_shutdown, end_group, Event, signal, request, finish, Run, begin, act, event,
}
use opa_openshift.Main.Lifecycle.Interrupted.{IsInterrupted, Run-IsInterrupted, drained_now}
use opa_openshift.Main.Lifecycle.Exits.{IsOwnExit, IsFirst, IsStopped, IsOrdered, Run-IsOrdered}

running-ne-ended : (m : MainPhase) {res : Result (Unit {0})} → is_running m ≡ true → m ≢ ended res
running-ne-ended m live e = cc

aborted-ne-ended :
    (abort : MainPhase) (b : Bool) (m : MainPhase) {res : Result (Unit {0})}
    → (m ≢ ended res)
    → (abort ≢ ended res)
    → (if b then abort else m) ≢ ended res
aborted-ne-ended abort true m live h e = h e
aborted-ne-ended abort false m live h e = live e

module _ (host : Host) where
  -- A server was shut down and has nothing in flight; or it has failed by itself.
  abbrev pub IsAnswered : Life host → Listener → Type 0
  IsAnswered y k =
      (((y.servers k).in_shutdown ≡ true) × ((y.servers k).in_flight ≡ 0))
      ⊎ ((e : Error) × ((y.servers k).phase ≡ stopped false e))

  -- The process has ended with what its first actor has returned, which has exited for a reason
  -- of its own; all actors have exited.
  pub record IsGraceful (y : Life host) (res : Result (Unit {0})) : Type 0 where
    pub actor : Actor
    pub first : y.first ≡ some (actor, res)
    pub own : IsOwnExit host y actor res
    pub all_exited : (a : Actor) → exited host y a ≡ true
    pub answered : (k : Listener) → IsAnswered y k

  module _ (p : Process host) (group : RunGroup) where
    given_first :
        (y : Life host) (res : Result (Unit {0}))
        → next_call host p group y ≡ give res
        → (a : Actor) × (y.first ≡ some (a, res)) × ((b : Actor) → exited host y b ≡ true)
    given_first y res c = elim (Option-cases y.first) [
      | inl e ↦
          let waits : next_call host p group y ≡ wait = rw e (group.waits_for_first _ _) in
          absurd (cc)
      | inr ((a, r), e) ↦
          let (same, all) = group.returns_first (a, r) _ _ res (rw e at c) in (a, rw same e, all)
    ]

    given_answered :
        (y : Life host) (k : Listener)
        → y.main ≡ grouped
        → IsInterrupted host y
        → IsStopped host (y.servers k)
        → exited host y (server k) ≡ true
        → IsAnswered y k
    given_answered y k m i stops out = elim (stops out) [
      | inl shut ↦ inl (shut, drained_now host k (y.servers k) m (i.drained k) shut)
      | inr (e, failed) ↦ inr (e, failed)
    ]

    own_of_first :
        (y : Life host) (a : Actor) (res : Result (Unit {0}))
        → IsFirst host y y.first
        → y.first ≡ some (a, res)
        → IsOwnExit host y a res
    own_of_first y a res h e = subst (IsFirst host y) e h

    given-IsGraceful :
        (y : Life host) (res : Result (Unit {0}))
        → y.main ≡ grouped
        → next_call host p group y ≡ give res
        → IsInterrupted host y
        → IsOrdered host y
        → IsGraceful (record y { main = ended res }) res
    given-IsGraceful y res m c i o =
        let (a, e, all) = given_first y res c in
        record {
          actor = a;
          first = e;
          own = own_of_first y a res o.first e;
          all_exited = all;
          answered = λ k. given_answered y k m i (o.stops k) (all (server k));
        }

    Act-IsGraceful :
        {y z : Life host} {res : Result (Unit {0})}
        → is_running y.main ≡ true
        → Act host p group y z
        → IsInterrupted host y
        → IsOrdered host y
        → z.main ≡ ended res
        → IsGraceful z res
    unfolding notify receive stop_server close_signals begin_shutdown
    Act-IsGraceful live (start_waiting u) i o e = absurd (running-ne-ended _ live e)
    Act-IsGraceful live (catch_signal u c) i o e = absurd (running-ne-ended _ live e)
    Act-IsGraceful live (serve k s n) i o e = absurd (running-ne-ended _ live e)
    Act-IsGraceful live (close_server k r n) i o e = absurd (running-ne-ended _ live e)
    Act-IsGraceful {y} live (interrupt_signals m c) i o e =
        absurd
          (aborted-ne-ended panicked y.channel.closed y.main (running-ne-ended _ live) (λ e. cc) e)
    Act-IsGraceful live (interrupt_server k m c) i o e = absurd (cc)
    Act-IsGraceful live (end_shutdown k m none_left) i o e = absurd (cc)
    Act-IsGraceful {y} {z} {res} live (end_group r m c) i o e =
        subst (IsGraceful z) (cc) (given-IsGraceful y r m c i o)

    Event-ne-ended :
        {y z : Life host} {res : Result (Unit {0})}
        → is_running y.main ≡ true
        → Event host p group y z
        → z.main ≢ ended res
    unfolding deliver set_in_flight stop_server
    Event-ne-ended {y} live signal e =
        aborted-ne-ended killed (not y.channel.notified) _
          (aborted-ne-ended panicked y.channel.closed y.main (running-ne-ended _ live) (λ e. cc))
          (λ e. cc) e
    Event-ne-ended live (request k r n) e = running-ne-ended _ live e
    Event-ne-ended live (fail k x r n) e = running-ne-ended _ live e
    Event-ne-ended live (finish k n some_left) e = running-ne-ended _ live e

    -- If the process ends by itself, it ends with the result of the actor that has exited first: nil
    -- if that is the actor which waits for a signal, and then a signal was sent; otherwise the error
    -- with which a server has failed before `Shutdown` was called on it. By then all actors have
    -- exited, and each server was shut down and has no request in flight, unless it has failed by
    -- itself.
    pub Run-IsGraceful :
        {n : ℕ} {y : Life host}
        → Run host p group (running_group host) n y
        → (res : Result (Unit {0})) → y.main ≡ ended res
        → IsGraceful y res
    Run-IsGraceful begin res e = absurd (cc)
    Run-IsGraceful (act run live move) res e =
        Act-IsGraceful live move (Run-IsInterrupted host p group run)
          (Run-IsOrdered host p group run) e
    Run-IsGraceful (event run live move) res e = absurd (Event-ne-ended live move e)
