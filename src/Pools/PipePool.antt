-- ===== src/Pools/PipePool.antt =====
-- include/common.hpp, `PipePool`. `pipe(2)` and `close(2)` are not part of the program: the
-- results of the pipe calls are an argument of the constructor, and closed descriptors are listed.
pub mod Laws
use uring_sync.Base.{
  ℕ, zero, suc, List, [], ◌∷◌, ◌++◌, Bool, true, false, Option, none, some, set, get_or, replicate,
  if◌then◌else◌,
}
use uring_sync.Base.Int.{ℤ, pos, negsuc}
use uring_sync.Pools.Slots.{first_free, free_slot, count_free}

pub record Pipe : Type 0 where
  pub read_fd : ℤ
  pub write_fd : ℤ

pub record PipePool : Type 0 where
  pub pipes : List Pipe
  pub available : List Bool
  pub count : ℕ

pub record PipeHandle : Type 0 where
  pub read_fd : ℤ
  pub write_fd : ℤ
  pub index : ℤ

abbrev pub no_pipe : Pipe
no_pipe = record { read_fd = negsuc 0; write_fd = negsuc 0 }

-- `throw std::runtime_error("Failed to create pipe")`, with the descriptors closed before it.
pub data Built : Type 0 where
  built : PipePool → Built
  thrown : List ℤ → Built

-- `for (size_t j = 0; j < i; j++) { close(read_fd); close(write_fd); }`
unfoldable pub close_pipes : List Pipe → List ℤ
close_pipes [] = []
close_pipes (p ∷ pipes) = p.read_fd ∷ p.write_fd ∷ close_pipes pipes

-- The rounds of the constructor: `sys i` is what `pipe(fds)` gives in round `i`, `none` for a
-- negative result; `made` holds the pipes of the rounds before.
make_from : (ℕ → Option Pipe) → ℕ → List Pipe → ℕ → ℕ → Built
unfolding close_pipes
make_from sys count made i zero =
    built (record { pipes = made; available = replicate count true; count = count })
make_from sys count made i (suc n) = elim (sys i) [
  | none ↦ thrown (close_pipes made)
  | some p ↦ make_from sys count (made ++ p ∷ []) (suc i) n
]

unfoldable pub new : (ℕ → Option Pipe) → ℕ → Built
unfolding make_from
new sys count = make_from sys count [] 0 count

-- `if (fd >= 0) close(fd);`
abbrev pub close_open : ℤ → List ℤ
close_open (pos fd) = pos fd ∷ []
close_open (negsuc n) = []

-- The destructor: the descriptors that it closes.
unfoldable pub destroy : List Pipe → List ℤ
destroy [] = []
destroy (p ∷ pipes) = close_open p.read_fd ++ (close_open p.write_fd ++ destroy pipes)

-- {read_fd, write_fd, index}, or {-1, -1, -1} if none is available.
abbrev handed : PipePool → Option ℕ → PipeHandle × PipePool
handed p none = (record { read_fd = negsuc 0; write_fd = negsuc 0; index = negsuc 0 }, p)
handed p (some i) =
    let pipe = get_or p.pipes i no_pipe in
    (
      record { read_fd = pipe.read_fd; write_fd = pipe.write_fd; index = pos i },
      record p { available = set p.available i false },
    )

unfoldable pub acquire : PipePool → PipeHandle × PipePool
unfolding first_free
acquire p = handed p (first_free p.count 0 p.available)

unfoldable pub release : PipePool → ℤ → PipePool
unfolding free_slot
release p index = record p { available = free_slot p.count index p.available }

unfoldable pub available_count : PipePool → ℕ
unfolding count_free
available_count p = count_free p.available 0
