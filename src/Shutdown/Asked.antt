-- ===== src/Shutdown/Asked.antt =====
-- The loop of io_service::stop (src/io_service.cpp), run at once.
use rioring.Prelude.{ℕ, ◌<◌, List, All}
use rioring.IoContext.{IoContext}

-- Every number is that of one of `n` threads.
abbrev pub InRange : ℕ → List ℕ → Type 0
InRange n is = All (λ i. i < n) is
