-- ===== src/Hub/Profiler.antt =====
-- StartProfiler of embedded_hub.go, up to its server.
use lachain_communication_hu.Base.{
  ℕ, ◌≡◌, refl, ap, Bool, true, false, Option, none, some, List, [], ◌∷◌, if◌then◌else◌, nat_eq,
  text_keys,
}

-- The variable profilerPort, which is -1 for `none`; `port` is that of the listener that the call
-- opens, and the last result says whether it opened one.
unfoldable pub start_profiler : ℕ → Option ℕ → ℕ × Option ℕ × Bool
start_profiler port none = (port, none, true)
start_profiler port (some p) = (p, some p, false)

-- A call after the other; the ports of the listeners that they open.
unfoldable pub start_profilers : List ℕ → Option ℕ → List ℕ
unfolding start_profiler
start_profilers [] profiler_port = []
start_profilers (port ∷ ports) profiler_port =
    let (result, after, opened) = start_profiler port profiler_port in
    let rest = start_profilers ports after in if opened then port ∷ rest else rest

-- StartProfiler does not keep the port: every call opens another listener.
pub start_profilers_lem : (ports : List ℕ) → start_profilers ports none ≡ ports
unfolding start_profilers
start_profilers_lem [] = refl
start_profilers_lem (port ∷ ports) = ap (◌∷◌ port) (start_profilers_lem ports)
