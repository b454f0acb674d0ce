-- ===== src/Programs/Aborted.antt =====
-- How the main functions of the servers end where the port cannot be opened
-- (examples/chatserver/main.cpp, examples/echoserver/main.cpp).
use rioring.Prelude.{
  ℕ, ◌≡◌, inl, inr, refl, sym, ap, Bool, Bool-cases, true, false, List, ltb, ◌==◌, if◌then◌else◌,
  Outcome, ◌>>=◌, Returns, arith, ltb→lt, ltb→le, ne→eqb,
}
use rioring.IoService.{TcpServer, Uring}
use rioring.Sockets.{World}
use rioring.TcpServer.{Listening, error_occur}
use rioring.TcpServer.Accepting.{fails, run-fails, with_socket}
use rioring.Programs.{
  Io, Ending, Exit, returned, terminated, Meanwhile, Program, with_io, io_run, end_main,
  server_main,
}

-- The exit of a server whose port cannot be opened.
pub exit_unopened : (concurrency : ℕ) → Exit
exit_unopened concurrency = if ltb concurrency 1 then returned 1 else terminated

module _ (u : Uring) (rings : List ℕ) (ending : Ending) {M : Type 0} (os : Listening)
    (meanwhile : Meanwhile (Program M)) (events : TcpServer → TcpServer)
    (leaves : M → World → Outcome World) (waits : M → Bool) where
  -- Where the port of a server cannot be opened, `main` returns 1 exactly if it asked for no thread; it
  -- ends by `std::terminate` if threads of its service run, none of which has been joined.
  pub unopened_lem :
      (concurrency : ℕ) (p : Program M)
      → p.threads ≡ 0
      → fails os ≡ true
      → Returns
          (server_main u rings ending os meanwhile events leaves waits concurrency p)
          (λ r. (r.0 ≡ exit_unopened concurrency) × (r.1.threads ≡ concurrency))
  unfolding server_main io_run end_main exit_unopened
  unopened_lem concurrency p idle bad = elim (Bool-cases (ltb concurrency 1)) [
    | inl none_asked ↦ (
      (returned 1, p),
      rw (none_asked, io_run, idle, server_main) refl,
      (
        ap (λ b. if b then returned 1 else terminated) (sym none_asked),
        omega (arith, ltb→lt concurrency 1 none_asked, idle),
      ),
    )
    | inr some_asked ↦
        let io : Io = record {
          service = record p.acceptor.service { io_array = rings };
          threads = concurrency;
        } in
        let p₁ = with_io p io in
        let s = record p₁.acceptor { server_object = events p₁.acceptor.server_object } in
        let some_threads : (concurrency == 0) ≡ false =
          ne→eqb concurrency 0 (λ e. omega (arith, e, ltb→le concurrency 1 some_asked)) in
        (
          (terminated, record p₁ { acceptor = error_occur os.errno (with_socket os s) }),
          rw (some_asked, io_run, run-fails u os s bad, ◌>>=◌, some_threads) refl,
          (ap (λ b. if b then returned 1 else terminated) (sym some_asked), refl),
        )
  ]
