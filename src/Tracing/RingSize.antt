-- ===== src/Tracing/RingSize.antt =====
-- From the ring size of a request to the rings of the module: the executor writes it to the file
-- `size`, whose handler allocates the ring of every CPU.
use standalone_linux_io_trac.Base.{ℕ, Bool, true, List}
use standalone_linux_io_trac.Kernel.{Result, ◌>>=◌}
use standalone_linux_io_trac.Context.{Context}
use standalone_linux_io_trac.Procfs.Entries.{size_write}
use standalone_linux_io_trac.Procfs.SizeFile.{Decimal}
use standalone_linux_io_trac.Executor.{File, Procfs}
use standalone_linux_io_trac.Executor.Kernel.{answered, willing}

module _ {T : Type 0} (kstrtou64 : List ℕ → Result ℕ) (show : ℕ → List ℕ)
    (decimal : Decimal kstrtou64 show) (hdr_size : ℕ) (vzalloc : ℕ → ℕ → Bool) (cpus : List ℕ) where
  -- The file `size` as the executor meets it.
  abbrev pub size_file : File (Context T)
  size_file = record {
    opens = λ s. true;
    write = λ text s. size_write kstrtou64 hdr_size vzalloc cpus willing text 0 s >>= answered;
  }
