-- ===== src/Ice/Agent/Requests.antt =====
-- sdk/crates/p2p-core/src/ice/agent.rs: how many requests an agent sends.
use p2psdk.Prelude.{
  ℕ, ◌+◌, ◌*◌, ◌≤◌, ◌≡◌, List, [], ◌∷◌, ◌++◌, arith, length, All, length-append, Outcome, ret,
  ◌>>=◌, Returns, Returns-eq, Returns-bind,
}
use p2psdk.Crypto.{Crypto}
use p2psdk.Ice.Agent.{IceAgent, IceAction}
use p2psdk.Ice.Agent.Events.{Event, FreshIds, Parses, run, run-Returns}
use p2psdk.Ice.Agent.Invariant.{AgentOk}
use p2psdk.Ice.Agent.Pairs.{requests, requests-bounded}
use p2psdk.Ice.Agent.Tick.{tick}
use p2psdk.Ice.Agent.Total.{Ticked, tick-Returns}

-- A series of `tick`s, with what each draws and its time; the actions are the requests that they send.
unfoldable pub tick_all :
    Crypto → IceAgent → List (FreshIds × ℕ) → Outcome (IceAgent × List IceAction)
tick_all crypto a [] = ret (a, [])
tick_all crypto a ((fresh, now_ms) ∷ ts) = do
  one ← tick crypto fresh.id a now_ms
  rest ← tick_all crypto one.0 ts
  ret (rest.0, one.1 ++ rest.1)

-- Any calls, and then a series of `tick`s.
unfoldable pub run_and_tick :
    Crypto → IceAgent → List Event → List (FreshIds × ℕ) → Outcome (IceAgent × List IceAction)
run_and_tick crypto a es ts = do b ← run crypto a es; tick_all crypto b ts

abbrev Counted : IceAgent → IceAgent × List IceAction → Type 0
Counted a done =
    AgentOk done.0 × (requests done.0.check_list ≡ length done.1 + requests a.check_list)

tick_all-Counted :
    (crypto : Crypto) (a : IceAgent) (ts : List (FreshIds × ℕ))
    → AgentOk a
    → Returns (Counted a) (tick_all crypto a ts)
unfolding tick_all
tick_all-Counted crypto a [] h = (h, omega arith)
tick_all-Counted crypto a ((fresh, now_ms) ∷ ts) h =
    Returns-bind (Ticked crypto fresh.id fresh.twelve a now_ms) (Counted a) _ _
      (tick-Returns crypto fresh.id fresh.twelve a now_ms)
      (λ one k.
        Returns-bind (Counted one.0) (Counted a) _ _ (tick_all-Counted crypto one.0 ts (k.0 h))
          (λ rest l. (l.0, omega (arith, length-append one.1 rest.1, l.1, k.3 h))))

-- The agent is sound, and at most seven requests for each pair were sent.
abbrev pub Bounded : IceAgent × List IceAction → Type 0
Bounded done = AgentOk done.0 × (length done.1 ≤ 7 * length done.0.check_list)

-- Any sequence of calls whose datagrams the parser returns from, and then any series of `tick`s, at any
-- times, takes a sound agent, without a panic, to a sound one. The series sends at most seven times as
-- many requests as there are pairs. Sound is: no pair counts more than seven requests, and one that may
-- be sent again fewer; each timer is 500 ms doubled per request counted and at most 16 s; the nominated
-- pair is in the check list; the list is no longer than the candidates allow; a completed agent has a
-- confirmed pair; and a closed agent has no pairs.
pub run_and_tick-Bounded :
    (crypto : Crypto) (a : IceAgent) (es : List Event) (ts : List (FreshIds × ℕ))
    → All Parses es
    → AgentOk a
    → Returns Bounded (run_and_tick crypto a es ts)
unfolding run_and_tick
run_and_tick-Bounded crypto a es ts ps h =
    Returns-bind AgentOk Bounded _ _ (run-Returns crypto a es ps h) (λ b k.
      let (done, e, l) = Returns-eq (tick_all crypto b ts) (tick_all-Counted crypto b ts k) in
      rw e (l.0, omega (arith, l.1, requests-bounded done.0.check_list l.0.pairs_ok)))
