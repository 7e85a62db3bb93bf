-- ===== src/Fs/Tests.antt =====
-- The theorems on files and pipes, each applied to a small one.
use hobby_os.Prelude.{
  ℕ, ◌≡◌, sym, true, none, some, List, [], ◌∷◌, replicate, length-replicate, arith,
}
use hobby_os.Fs.Pipe.{Pipe, init, pipe_buf_size}
use hobby_os.Fs.Pipe.Queue.{IsValid, contents, init-IsValid}
use hobby_os.Fs.Pipe.Rounds.{Event, reads, writes, closes, Log, run, Flows, run-Flows}
use hobby_os.Fs.File.{File}
use hobby_os.Fs.PathUtils.{path_combine}
use hobby_os.Fs.PathUtils.Bounds.{Within, path_combine-Within}
use hobby_os.Fs.FdTable.{FdTable}

abbrev file : ℕ → File
file i = record { inode = some i; mount = none; flags = 2; offset = 5 }

-- Descriptors 0 and 2 are open.
abbrev table : FdTable
table = record { fds = some (file 50) ∷ none ∷ some (file 52) ∷ replicate 13 none; ref_count = 1 }

-- A new pipe, and one with a byte in it.
abbrev new_pipe : Pipe
new_pipe = init (replicate pipe_buf_size 0)

new_pipe-IsValid : IsValid new_pipe × (contents new_pipe ≡ [])
new_pipe-IsValid =
    init-IsValid (replicate pipe_buf_size 0)
      (omega (arith, length-replicate {A = ℕ} pipe_buf_size 0))

abbrev two_bytes : Pipe
two_bytes = record new_pipe { head = 2; count = 2 }

two_bytes-IsValid : IsValid two_bytes
unfolding init
two_bytes-IsValid = record {
  storage = omega (arith, length-replicate {A = ℕ} pipe_buf_size 0);
  head_in = omega arith;
  tail_in = omega arith;
  count_in = omega arith;
  behind = omega arith;
}

-- Three bytes go in, two come out, and the reader closes.
abbrev events : List Event
events = writes (7 ∷ 8 ∷ 9 ∷ []) ∷ reads 2 ∷ closes 0 ∷ []

abbrev new_log : Log
new_log = record { pipe = new_pipe; got = []; put = [] }

new_log-Flows : Flows new_log
new_log-Flows = record { valid = new_pipe-IsValid.0; order = sym new_pipe-IsValid.1 }

run-Flows_example : Flows (run new_log events)
run-Flows_example = run-Flows events new_log (omega arith, (tt, (tt, tt))) new_log-Flows

path_combine-Within_example : Within 8 (path_combine true 8 (some (47 ∷ 97 ∷ [])) (some (98 ∷ [])))
path_combine-Within_example = path_combine-Within true 8 (some (47 ∷ 97 ∷ [])) (some (98 ∷ []))
