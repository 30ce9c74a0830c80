-- ===== src/Tracing/Limits.antt =====
-- What the tests of the parameters let through, and that the module takes it.
use standalone_linux_io_trac.Base.{ℕ, ◌*◌, ◌/◌, ◌≡◌, ◌≤◌, ◌<◌, ◌↔◌, arith, none}
use standalone_linux_io_trac.Kernel.{ok}
use standalone_linux_io_trac.Context.{Context}
use standalone_linux_io_trac.IoTrace.Buffers.{set_buffer_size}
use standalone_linux_io_trac.Tracing.{Request, check_integer_parameters, refused_parameter}

-- The parameters lie between the limits of the fields' options.
abbrev pub InLimits : Request → Type 0
InLimits r =
    (1 ≤ r.max_duration)
    × (r.max_duration ≤ 4294967295)
    × (1 ≤ r.max_size)
    × (r.max_size ≤ 100000000)
    × (1 ≤ r.circ_buffer_size)
    × (r.circ_buffer_size ≤ 1024)

-- The request is refused for none of its parameters exactly if they lie between the limits of the
-- fields' options, so that every name that is asked for is found.
pub refused_parameter-none : (r : Request) → (refused_parameter r ≡ none) ↔ InLimits r
unfolding refused_parameter check_integer_parameters
refused_parameter-none r = ground arith

-- The ring size of a request that is not refused for a parameter is taken by the module, on up to
-- 2 ^ 20 CPUs: it sets the size of each ring to the CPU's share of its bytes.
pub accepted-set_buffer_size :
    {T : Type 0} (r : Request) (cpus : ℕ) (ctx : Context T)
    → refused_parameter r ≡ none
    → 0 < cpus
    → cpus ≤ 1048576
    → set_buffer_size cpus ctx r.circ_buffer_size
      ≡ (record ctx { size = r.circ_buffer_size * 1024 * 1024 / cpus }, ok tt)
unfolding set_buffer_size
accepted-set_buffer_size r cpus ctx a p q = let l = (refused_parameter-none r).0 a in ground arith
