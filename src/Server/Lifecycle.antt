-- ===== src/Server/Lifecycle.antt =====
-- server/gateway_ws/internal/svc/servicecontext.go: `Start` and `Stop`, with the parts of `Start` and
-- `Stop` of internal/manager/server.go that make and shut the HTTP server.
--
-- `Start` of the service runs `Start` of the server in a goroutine, which in turn runs
-- `ListenAndServe` in another; `Stop` runs beside them. Of net/http it is taken, as documented, that
-- `ListenAndServe` returns at once on a server that was shut down, and that `Shutdown` closes the
-- listener.
use zerogame.Shared.{◌≡◌, refl, Bool, true, false, if◌then◌else◌, arith, ◌∙◌}

-- The goroutine of `ServiceContext.Start`: before `s.server` is set, before its `go` statement, and
-- after `wg.Done()`.
pub data Starter : Type 0 where
  starting made started : Starter

-- The goroutine of `ListenAndServe`.
pub data Listener : Type 0 where
  none_yet spawned listening closed : Listener

-- `ServiceContext.Stop`: not called, after the cancel, after `WsServer.Stop`, and returned.
pub data Stopper : Type 0 where
  running cancelled waiting stopped : Stopper

-- `has_server` is `s.server != nil`; `shut` says that `Shutdown` was called on it.
pub record Life : Type 0 where
  pub starter : Starter
  pub listener : Listener
  pub stopper : Stopper
  pub has_server : Bool
  pub shut : Bool

-- After `Start` of the service has returned.
abbrev just_started : Life
just_started = record {
  starter = starting;
  listener = none_yet;
  stopper = running;
  has_server = false;
  shut = false;
}

-- `Shutdown` closes a listener.
abbrev after_shutdown : Listener → Listener
after_shutdown listening = closed
after_shutdown l = l

-- The `if s.server != nil` of the server's `Stop`.
unfoldable pub shut_server : Life → Life
shut_server l =
    if l.has_server then record l { shut = true; listener = after_shutdown l.listener } else l

-- One step of one of the goroutines.
pub data Step (l : Life) : Life → Type 0 where
  makes : l.starter ≡ starting → Step l (record l { starter = made; has_server = true })
  spawns : l.starter ≡ made → Step l (record l { starter = started; listener = spawned })
  listens :
      l.listener ≡ spawned → Step l (record l { listener = if l.shut then closed else listening })
  cancels : l.stopper ≡ running → Step l (record l { stopper = cancelled })
  stops : l.stopper ≡ cancelled → Step l (record (shut_server l) { stopper = waiting })
  returns : l.stopper ≡ waiting → l.starter ≡ started → Step l (record l { stopper = stopped })

pub data Later (from : Life) : Life → Type 0 where
  now : Later from from
  goes : {l l' : Life} → Later from l → Step l l' → Later from l'

abbrev Run : Life → Type 0
Run = Later just_started

abbrev is_listening : Listener → Bool
is_listening listening = true
is_listening l = false

abbrev has_begun : Starter → Bool
has_begun starting = false
has_begun s = true

-- Between two steps: the server is there from when it was made, a listener only after that, and no
-- listener on a server that was shut.
record WellFormed (l : Life) : Type 0 where
  made_server : l.has_server ≡ has_begun l.starter
  shut_closed : l.shut ≡ true → is_listening l.listener ≡ false

start-WellFormed : WellFormed just_started
start-WellFormed = record { made_server = refl; shut_closed = λ e. refl }

not_after_shutdown : (x : Listener) → is_listening (after_shutdown x) ≡ false
not_after_shutdown none_yet = refl
not_after_shutdown spawned = refl
not_after_shutdown listening = refl
not_after_shutdown closed = refl

stops_closed :
    (l : Life)
    → WellFormed l
    → (shut_server l).shut ≡ true
    → is_listening (shut_server l).listener ≡ false
unfolding shut_server
stops_closed l wf s = ground (arith, wf.shut_closed, not_after_shutdown l.listener)

Step-WellFormed : {l l' : Life} → Step l l' → WellFormed l → WellFormed l'
unfolding shut_server
Step-WellFormed {l} (makes e) wf = record { made_server = refl; shut_closed = wf.shut_closed }
Step-WellFormed {l} (spawns e) wf = record {
  made_server = ground (arith, wf.made_server);
  shut_closed = λ s. refl;
}
Step-WellFormed {l} (listens e) wf = record {
  made_server = wf.made_server;
  shut_closed = λ s. ground arith;
}
Step-WellFormed {l} (cancels e) wf = record {
  made_server = wf.made_server;
  shut_closed = wf.shut_closed;
}
Step-WellFormed {l} (stops e) wf = record {
  made_server = ground (arith, wf.made_server);
  shut_closed = λ s. stops_closed l wf s;
}
Step-WellFormed {l} (returns e d) wf = record {
  made_server = wf.made_server;
  shut_closed = wf.shut_closed;
}

Run-WellFormed : {l : Life} → Run l → WellFormed l
Run-WellFormed now = start-WellFormed
Run-WellFormed (goes r s) = Step-WellFormed s (Run-WellFormed r)

Later-Run : {l l' : Life} → Run l → Later l l' → Run l'
Later-Run r now = r
Later-Run r (goes q s) = goes (Later-Run r q) s

-- `WsServer.Stop` has run.
abbrev is_past : Stopper → Bool
is_past waiting = true
is_past stopped = true
is_past s = false

-- A server that is there stays, and is shut once `WsServer.Stop` has run.
record Shuts (l : Life) : Type 0 where
  stays : l.has_server ≡ true
  shuts : is_past l.stopper ≡ true → l.shut ≡ true

Step-Shuts : {l l' : Life} → Step l l' → Shuts l → Shuts l'
unfolding shut_server
Step-Shuts {l} (makes e) w = record { stays = refl; shuts = w.shuts }
Step-Shuts {l} (spawns e) w = record { stays = w.stays; shuts = w.shuts }
Step-Shuts {l} (listens e) w = record { stays = w.stays; shuts = w.shuts }
Step-Shuts {l} (cancels e) w = record { stays = w.stays; shuts = λ p. absurd (cc p) }
Step-Shuts {l} (stops e) w = record {
  stays = ground (arith, w.stays);
  shuts = λ p. ground (arith, w.stays);
}
Step-Shuts {l} (returns e d) w = record { stays = w.stays; shuts = λ p. ground (arith, w.shuts) }

Later-Shuts : {l l' : Life} → Later l l' → Shuts l → Shuts l'
Later-Shuts now w = w
Later-Shuts (goes q s) w = Step-Shuts s (Later-Shuts q w)

stop_closes_listener :
    (l l' : Life)
    → Run l
    → has_begun l.starter ≡ true
    → is_past l.stopper ≡ false
    → Later l l'
    → is_past l'.stopper ≡ true
    → is_listening l'.listener ≡ false
stop_closes_listener l l' r begun before later past =
    let w : Shuts l = record {
      stays = (Run-WellFormed r).made_server ∙ begun;
      shuts = λ p. absurd (cc (p, before));
    } in
    (Run-WellFormed (Later-Run r later)).shut_closed ((Later-Shuts later w).shuts past)

-- `Stop` runs to its wait before the server is made.
early_stop : Later just_started (record {
  starter = started;
  listener = listening;
  stopper = stopped;
  has_server = true;
  shut = false;
})
unfolding shut_server
early_stop =
    goes
      (goes (goes (goes (goes (goes now (cancels refl)) (stops refl)) (makes refl)) (spawns refl))
        (listens refl))
      (returns refl refl)

-- However the goroutines are scheduled: if the server was made before `WsServer.Stop` runs, nothing
-- listens once it has run, whatever comes after. If it was not, `Stop` may return and leave a server
-- that listens.
stop_races :
    ((l l' : Life)
      → Run l
      → has_begun l.starter ≡ true
      → is_past l.stopper ≡ false
      → Later l l'
      → is_past l'.stopper ≡ true
      → is_listening l'.listener ≡ false)
    × ((l : Life) × Run l × (l.stopper ≡ stopped) × (l.listener ≡ listening))
stop_races = (stop_closes_listener, (_, early_stop, refl, refl))
