-- ===== src/Server/Stream.antt =====
-- servers/python/server.py: the loop of `handle`, over the bytes of one connection up to their end.
pub mod Framing
use game_bench.Common.{
  ℕ, zero, suc, ◌^◌, Bool, ◌||◌, Option, none, some, List, [], ◌∷◌, ◌==◌, ltb, if◌then◌else◌,
  length, take, drop,
}
use game_bench.Py.Result.{Result, ok, raise}
use game_bench.Py.Struct.{Bytes, unpack_u32}
use game_bench.Server.Room.{Writer}
use game_bench.Server.World.{World, Session, handle_payload, finish, fresh}

-- What two calls of `readexactly` make of the bytes that are left.
pub data Read : Type 0 where
  incomplete : Read
  bad_length : Read
  payload : Bytes → Bytes → Read

abbrev pub max_frame : ℕ
max_frame = 2 ^ 20

read_payload : ℕ → Bytes → Read
read_payload n rest =
    if (n == 0) || ltb max_frame n
    then bad_length
    else if ltb (length rest) n
    then incomplete
    else payload (take n rest) (drop n rest)

read_length : Result ℕ → Bytes → Read
unfolding read_payload
read_length (ok n) rest = read_payload n rest
read_length (raise e) rest = incomplete

-- `reader.readexactly(4)` raises IncompleteReadError where fewer bytes are left, as unpacking does.
unfoldable pub read_frame : Bytes → Read
unfolding read_length
read_frame bs = read_length (unpack_u32 bs 0) (drop 4 bs)

-- One round of the loop per fuel; `none` means that the fuel ran out. An incomplete read is caught, a
-- bad length breaks, and an exception of the message leaves: each runs the `finally`.
unfoldable pub handle : ℕ → ℕ → Writer → Session → Bytes → World → Option World
handle zero period c s bs w = none
handle (suc fuel) period c s bs w = elim (read_frame bs) [
  | incomplete ↦ some (finish c s w)
  | bad_length ↦ some (finish c s w)
  | payload p rest ↦ elim (handle_payload period c s p w) [
    | ok (s', w') ↦ handle fuel period c s' rest w'
    | raise e ↦ some (finish c s w)
  ]
]
