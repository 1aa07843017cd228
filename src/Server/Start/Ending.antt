-- ===== src/Server/Start/Ending.antt =====
-- How the program of src/main.rs runs and ends.
use opencode_rustquitto.Base.{ℕ, ◌≡◌, refl, ap, ◌∙◌, ◌⊎◌, inl, inr, true, false, Option, none, some}
use opencode_rustquitto.Error.{Result, ok, err, io, config, failed_to_bind_tcp}
use opencode_rustquitto.Extern.Buffer.{BytesMut}
use opencode_rustquitto.Extern.Channel.{Mpsc}
use opencode_rustquitto.Extern.DashMap.{DashMap}
use opencode_rustquitto.Broker.Handlers.{Address}
use opencode_rustquitto.Server.System.{
  System, Task, idle, tcp, web, place, Step, Reach, accept_tcp, accept_ws, tcp_runs, tcp_returns,
  ws_runs, ws_closes,
}
use opencode_rustquitto.Server.System.Invariant.{IsSystem, Reach-IsSystem}
use opencode_rustquitto.Server.Start.{
  Config, Server, starting, listening, ended, bind_tcp, bind_ws, accept_failed, serve_returned,
  main_result, Process, IsServed, Run, tcp_binds, ws_binds, tcp_fails, ws_ends, serves, returns,
  IsStarted, Runs, start, later,
}
use opencode_rustquitto.Server.System
use opencode_rustquitto.Server.Start.Listening.{
  never_listened, is_tcp, is_web, served_no_tcp, served_no_web,
}

module _ (B : BytesMut) (M : Mpsc) (D : DashMap Address) (without_receiver : M.Sender) where
  open B use {Buffer}

  -- The TCP server ends by an error only: of `bind`, at the configured address, or of `accept`.
  abbrev pub TcpEnds : Config → Result (Unit {0}) → Type 0
  TcpEnds c r =
      ((e : ℕ) × (r ≡ err (config (failed_to_bind_tcp c.bind_addr c.tcp_port e))))
      ⊎ ((e : ℕ) × (r ≡ err (io e)))

  pub record IsProcess (c : Config) (p : Process M D Buffer) : Type 0 where
    pub reached : Reach B M D without_receiver p.system
    pub tcp_ends : (r : Result (Unit {0})) → p.tcp ≡ ended r → TcpEnds c r
    pub no_tcp : never_listened p.tcp ≡ true → (i : ℕ) → is_tcp (p.system.tasks i) ≡ false
    pub no_web : never_listened p.ws ≡ true → (i : ℕ) → is_web (p.system.tasks i) ≡ false
    pub result :
        (r : Result (Unit {0}))
        → p.result ≡ some r
        → (r ≡ ok tt) × (main_result p.tcp p.ws ≡ some (ok tt))

  main_result-ok : (a b : Server) (r : Result (Unit {0})) → main_result a b ≡ some r → r ≡ ok tt
  unfolding main_result
  main_result-ok (ended x) b r e = cc
  main_result-ok starting (ended x) r e = cc
  main_result-ok listening (ended x) r e = cc
  main_result-ok starting starting r e = absurd (cc)
  main_result-ok starting listening r e = absurd (cc)
  main_result-ok listening starting r e = absurd (cc)
  main_result-ok listening listening r e = absurd (cc)

  IsStarted-IsProcess :
      (c : Config) (p : Process M D Buffer) → IsStarted B M D without_receiver p → IsProcess c p
  unfolding is_tcp is_web
  IsStarted-IsProcess c p h = record {
    reached = System.start h.system;
    tcp_ends = λ r e. let x = h.tcp in absurd (cc);
    no_tcp = λ u i. ap is_tcp (h.system.tasks i);
    no_web = λ u i. ap is_web (h.system.tasks i);
    result = λ r e. let x = h.result in absurd (cc);
  }

  served-IsProcess :
      (c : Config) (p : Process M D Buffer) (s : System M D Buffer)
      (step : Step B M D without_receiver p.system s)
      → p.result ≡ none
      → IsServed B M D without_receiver p s step
      → IsProcess c p
      → IsProcess c (record p { system = s })
  served-IsProcess c p s step none_yet served h = record {
    reached = System.later h.reached step;
    tcp_ends = h.tcp_ends;
    no_tcp = served_no_tcp B M D without_receiver p s step served h.no_tcp;
    no_web = served_no_web B M D without_receiver p s step served h.no_web;
    result = λ r e. absurd (cc);
  }

  bind_tcp-TcpEnds :
      (c : Config) (failure : Option ℕ) (r : Result (Unit {0}))
      → bind_tcp c failure ≡ ended r
      → TcpEnds c r
  unfolding bind_tcp
  bind_tcp-TcpEnds c none r e = absurd (cc)
  bind_tcp-TcpEnds c (some x) r e = inl (x, cc)

  Run-IsProcess :
      (c : Config) (p q : Process M D Buffer)
      → Run B M D without_receiver c p q
      → IsProcess c p
      → IsProcess c q
  unfolding never_listened bind_tcp bind_ws serve_returned
  Run-IsProcess c p _ (tcp_binds failure e at) h = record {
    reached = h.reached;
    tcp_ends = λ r x. bind_tcp-TcpEnds c failure r x;
    no_tcp = λ u i. h.no_tcp (ap never_listened at) i;
    no_web = h.no_web;
    result = λ r x. absurd (cc);
  }
  Run-IsProcess c p _ (ws_binds failure e at) h = record {
    reached = h.reached;
    tcp_ends = h.tcp_ends;
    no_tcp = h.no_tcp;
    no_web = λ u i. h.no_web (ap never_listened at) i;
    result = λ r x. absurd (cc);
  }
  Run-IsProcess c p _ (tcp_fails code e at) h = record {
    reached = h.reached;
    tcp_ends = λ r x. inr (code, cc);
    no_tcp = λ u i. absurd (cc);
    no_web = h.no_web;
    result = λ r x. absurd (cc);
  }
  Run-IsProcess c p _ (ws_ends none e at) h = record {
    reached = h.reached;
    tcp_ends = h.tcp_ends;
    no_tcp = h.no_tcp;
    no_web = λ u i. absurd (cc);
    result = λ r x. absurd (cc);
  }
  Run-IsProcess c p _ (ws_ends (some code) e at) h = record {
    reached = h.reached;
    tcp_ends = h.tcp_ends;
    no_tcp = h.no_tcp;
    no_web = λ u i. absurd (cc);
    result = λ r x. absurd (cc);
  }
  Run-IsProcess c p _ (serves s step e served) h = served-IsProcess c p s step e served h
  Run-IsProcess c p _ (returns r e main) h = record {
    reached = h.reached;
    tcp_ends = h.tcp_ends;
    no_tcp = h.no_tcp;
    no_web = h.no_web;
    result = λ x at. let fine = main_result-ok p.tcp p.ws r main in (cc, main ∙ ap some fine);
  }

  held : (c : Config) (p : Process M D Buffer) → Runs B M D without_receiver c p → IsProcess c p
  held c p (start h) = IsStarted-IsProcess c p h
  held c _ (later {p = p} {q = q} before run) = Run-IsProcess c p q run (held c p before)

  -- From its start on, at every moment: the connections have come to what their steps allow, so the
  -- invariant of the broker and its connections holds; a server that never came to its loop has no
  -- connection; the TCP server has ended by no more than an error of `bind` or `accept`; and `main` has
  -- returned only once a server has ended, and then `Ok(())`, whatever the reason.
  pub Runs-IsProcess :
      (c : Config) (p : Process M D Buffer)
      → Runs B M D without_receiver c p
      → IsProcess c p × IsSystem B M D without_receiver p.system
  Runs-IsProcess c p runs =
      let h = held c p runs in (h, Reach-IsSystem B M D without_receiver p.system h.reached)

  returned_stays :
      (c : Config) (p q : Process M D Buffer) (r : Result (Unit {0}))
      → p.result ≡ some r
      → Run B M D without_receiver c p q
      → ⊥
  returned_stays c p _ r e (tcp_binds _ at _) = absurd (cc)
  returned_stays c p _ r e (ws_binds _ at _) = absurd (cc)
  returned_stays c p _ r e (tcp_fails _ at _) = absurd (cc)
  returned_stays c p _ r e (ws_ends _ at _) = absurd (cc)
  returned_stays c p _ r e (serves _ _ at _) = absurd (cc)
  returned_stays c p _ r e (returns _ at _) = absurd (cc)

  -- While the TCP server is in its loop, one call of `accept` that fails can end the program: `main`
  -- returns `Ok(())` with the connections as they are, and none of them runs any more.
  pub accept_failure_ends :
      (c : Config) (p : Process M D Buffer) (e : ℕ)
      → Runs B M D without_receiver c p
      → p.result ≡ none
      → p.tcp ≡ listening
      → let q = record p { tcp = accept_failed e; result = some (ok tt) } in
        Runs B M D without_receiver c q
        × ((r : Process M D Buffer) → ¬ Run B M D without_receiver c q r)
  unfolding main_result
  accept_failure_ends c p e runs running up = (
    later (later runs (tcp_fails e running up)) (returns (ok tt) running refl),
    λ r run.
        returned_stays c (record p { tcp = accept_failed e; result = some (ok tt) }) r (ok tt) refl
          run,
  )
