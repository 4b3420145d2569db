-- ===== src/Server/Room/Protocol.antt =====
-- PROTOCOL.md: a client's reading of a SNAPSHOT, written from the layout in the document, and what
-- servers/python/server.py sends to it.
use game_bench.Common.{
  ℕ, zero, suc, ◌^◌, ◌<◌, ◌≡◌, refl, List, [], ◌∷◌, ◌++◌, map, length, drop, All, ◌==◌,
}
use game_bench.Py.Int.{ℤ}
use game_bench.Py.Result.{Result, ok, raise, value_error, ◌>>=◌, ◌>>◌, require}
use game_bench.Py.Struct.{
  Bytes, bits32, unpack_u16, unpack_u32, unpack_i32, signed32-bits32, bits32-lt, be32_value,
  be16_value,
}
use game_bench.Server.Room.{Player, msg_snapshot, snapshot}
use game_bench.Server.Room.Snapshot.{InRange, entry, entries, layout, snapshot_lem}

pub record Entry : Type 0 where
  pub player_id : ℕ
  pub x : ℤ
  pub y : ℤ
  pub last_seq : ℕ

abbrev pub seen : Player → Entry
seen p = record { player_id = p.id; x = p.x; y = p.y; last_seq = p.last_seq }

decode_entry : Bytes → Result Entry
unfolding unpack_u32 unpack_i32
decode_entry bs = do
  id ← unpack_u32 bs 0
  x ← unpack_i32 bs 4
  y ← unpack_i32 bs 8
  seq ← unpack_u32 bs 12
  ok (record { player_id = id; x = x; y = y; last_seq = seq })

-- The entries fill the payload to its end.
decode_entries : ℕ → Bytes → Result (List Entry)
decode_entries zero [] = ok []
decode_entries zero (b ∷ bs) = raise value_error
decode_entries (suc n) bs =
    decode_entry bs >>= λ e. decode_entries n (drop 16 bs) >>= λ es. ok (e ∷ es)

tagged : Bytes → Result (Unit {0})
tagged [] = raise value_error
tagged (t ∷ bs) = require value_error (t == msg_snapshot)

pub decode_snapshot : Bytes → Result (ℕ × List Entry)
unfolding tagged unpack_u32 unpack_u16
decode_snapshot bs = do
  tagged bs
  tick ← unpack_u32 bs 1
  count ← unpack_u16 bs 5
  es ← decode_entries count (drop 7 bs)
  ok (tick, es)

decode_entry-entry :
    (p : Player) (rest : Bytes) → InRange p → decode_entry (entry p ++ rest) ≡ ok (seen p)
unfolding decode_entry
decode_entry-entry p rest h = rw (
  be32_value p.id h.id,
  be32_value (bits32 p.x) (bits32-lt p.x h.x),
  be32_value (bits32 p.y) (bits32-lt p.y h.y),
  be32_value p.last_seq h.last_seq,
  signed32-bits32 p.x h.x,
  signed32-bits32 p.y h.y,
)

decode_entries-entries :
    (ps : List Player) → All InRange ps → decode_entries (length ps) (entries ps) ≡ ok (map seen ps)
unfolding decode_entries entries
decode_entries-entries [] h = refl
decode_entries-entries (p ∷ ps) h =
    rw (decode_entry-entry p (entries ps) h.0, decode_entries-entries ps h.1)

pub decode_snapshot-layout :
    (t : ℕ) (ps : List Player)
    → t < 2 ^ 32
    → length ps < 2 ^ 16
    → All InRange ps
    → decode_snapshot (layout t ps) ≡ ok (t, map seen ps)
unfolding decode_snapshot
decode_snapshot-layout t ps ht hn h =
    rw (be32_value t ht, be16_value (length ps) hn, decode_entries-entries ps h)

-- Any tick and any players whose fields fit their widths, fewer than 65536 of them, are packed into
-- a payload from which a client reads the tick and, in the order of the dict, every player's id,
-- position and last sequence number.
pub decode_snapshot-snapshot :
    (t : ℕ) (ps : List Player)
    → t < 2 ^ 32
    → length ps < 2 ^ 16
    → All InRange ps
    → (buf : Bytes) × (snapshot t ps ≡ ok buf) × (decode_snapshot buf ≡ ok (t, map seen ps))
decode_snapshot-snapshot t ps ht hn h =
    (layout t ps, snapshot_lem t ps ht hn h, decode_snapshot-layout t ps ht hn h)
