-- ===== src/Server/Room/Snapshot.antt =====
-- servers/python/server.py: what Room.step packs, against the layout of PROTOCOL.md.
use game_bench.Common.{
  ℕ, ◌+◌, ◌*◌, ◌^◌, ◌<◌, ◌≡◌, refl, List, [], ◌∷◌, ◌++◌, length, replicate, drop, All, arith,
  append_assoc, length-append, length-drop, length-replicate,
}
use game_bench.Py.Int.{ℤ, pos, negsuc}
use game_bench.Py.Result.{ok, bind-ok}
use game_bench.Py.Struct.{
  Bytes, be16, be32, bits32, InI32, pack_u16, pack_u32, pack_i32, pack_into, pack_into-append,
  pack_i32_in_range,
}
use game_bench.Server.Room.{
  Player, msg_snapshot, pack_player, pack_players, pack_header, snapshot, frame,
}

-- The fields that an entry holds fit their widths.
pub record InRange (p : Player) : Type 0 where
  pub id : p.id < 2 ^ 32
  pub x : InI32 p.x
  pub y : InI32 p.y
  pub last_seq : p.last_seq < 2 ^ 32

-- entry = player_id: u32 | x: i32 | y: i32 | last_seq: u32
abbrev pub entry : Player → Bytes
entry p = be32 p.id ++ (be32 (bits32 p.x) ++ (be32 (bits32 p.y) ++ be32 p.last_seq))

unfoldable pub entries : List Player → Bytes
entries [] = []
entries (p ∷ ps) = entry p ++ entries ps

-- 0x82 | tick: u32 | count: u16 | entry[count]
abbrev pub layout : ℕ → List Player → Bytes
layout tick_no ps = msg_snapshot ∷ be32 tick_no ++ (be16 (length ps) ++ entries ps)

pub length-entries : (ps : List Player) → length (entries ps) ≡ length ps * 16
unfolding entries
length-entries [] = refl
length-entries (p ∷ ps) = omega (arith, length-entries ps)

pub pack_u32_in_range : (n : ℕ) → n < 2 ^ 32 → pack_u32 n ≡ ok (be32 n)
unfolding pack_u32
pack_u32_in_range n h = ground arith

pub pack_player_lem : (p : Player) → InRange p → pack_player p ≡ ok (entry p)
unfolding pack_player
pack_player_lem p h = rw (
  pack_u32_in_range p.id h.id,
  pack_i32_in_range p.x h.x,
  pack_i32_in_range p.y h.y,
  pack_u32_in_range p.last_seq h.last_seq,
)

-- The loop fills the rest of the buffer with the entries, and stays inside it.
pub pack_players_lem :
    (ps : List Player) (done rest : Bytes) (off : ℕ)
    → All InRange ps
    → off ≡ length done
    → length rest ≡ length ps * 16
    → pack_players (done ++ rest) off ps ≡ ok (done ++ entries ps)
unfolding pack_players entries
pack_players_lem [] done [] off h e l = refl
pack_players_lem [] done (b ∷ rest) off h e l = absurd (omega arith)
pack_players_lem (p ∷ ps) done rest off h e l = rw (
  pack_player_lem p h.0,
  e,
  pack_into-append done (entry p) rest (omega arith),
  ← append_assoc done (entry p) (drop 16 rest),
  pack_players_lem ps (done ++ entry p) (drop 16 rest) (length done + 16) h.1
      (omega (arith, length-append done (entry p))) (omega (arith, length-drop 16 rest)),
  append_assoc,
)

pub pack_header_lem : (t n : ℕ) → t < 2 ^ 32 → n < 2 ^ 16 → pack_header t n ≡ ok (be32 t ++ be16 n)
unfolding pack_header pack_u16
pack_header_lem t n ht hn = rw (pack_u32_in_range t ht) (ground arith)

abbrev head : ℕ → ℕ → Bytes
head t n = msg_snapshot ∷ be32 t ++ be16 n

-- In range, the payload is the layout that the protocol gives.
pub snapshot_lem :
    (t : ℕ) (ps : List Player)
    → t < 2 ^ 32
    → length ps < 2 ^ 16
    → All InRange ps
    → snapshot t ps ≡ ok (layout t ps)
unfolding snapshot
snapshot_lem t ps ht hn h =
    let zeros : Bytes = replicate (7 + length ps * 16) 0 in
    let size : length zeros ≡ 7 + length ps * 16 = length-replicate (7 + length ps * 16) 0 in
    rw
      (
        pack_into-append [] (msg_snapshot ∷ []) zeros (omega arith),
        pack_header_lem t _ ht hn,
        pack_into-append (msg_snapshot ∷ []) (be32 t ++ be16 (length ps)) (drop 1 zeros)
            (omega (arith, length-drop 1 zeros)),
      )
      (pack_players_lem ps (head t (length ps)) (drop 6 (drop 1 zeros)) 7 h refl
        (omega (arith, length-drop 6 (drop 1 zeros), length-drop 1 zeros)))

-- A payload of a snapshot is framed by its length.
pub frame-layout :
    (t : ℕ) (ps : List Player)
    → length ps < 2 ^ 16
    → frame (layout t ps) ≡ ok (be32 (length (layout t ps)) ++ layout t ps)
unfolding frame
frame-layout t ps h =
    rw (pack_u32_in_range (length (layout t ps)) (omega (arith, length-entries ps)))

-- The converse: what is packed was in range.
pack_u32_fits : (n : ℕ) {bs : Bytes} → pack_u32 n ≡ ok bs → n < 2 ^ 32
unfolding pack_u32
pack_u32_fits n h = ground arith

pack_i32_fits : (x : ℤ) {bs : Bytes} → pack_i32 x ≡ ok bs → InI32 x
unfolding pack_i32
pack_i32_fits (pos n) h = ground arith
pack_i32_fits (negsuc n) h = ground arith

pub pack_player_fits : (p : Player) {bs : Bytes} → pack_player p ≡ ok bs → InRange p
unfolding pack_player
pack_player_fits p h =
    let (a, ea, ha) = bind-ok (pack_u32 p.id) _ h in
    let (b, eb, hb) = bind-ok (pack_i32 p.x) _ ha in
    let (c, ec, hc) = bind-ok (pack_i32 p.y) _ hb in
    let (d, ed, hd) = bind-ok (pack_u32 p.last_seq) _ hc in
    record {
      id = pack_u32_fits p.id ea;
      x = pack_i32_fits p.x eb;
      y = pack_i32_fits p.y ec;
      last_seq = pack_u32_fits p.last_seq ed;
    }

pub pack_players_fits :
    (ps : List Player) (buf : Bytes) (off : ℕ) {bs : Bytes}
    → pack_players buf off ps ≡ ok bs
    → All InRange ps
unfolding pack_players
pack_players_fits [] buf off h = tt
pack_players_fits (p ∷ ps) buf off h =
    let (entry, packed, more) = bind-ok (pack_player p) _ h in
    let (buf', written, rest) = bind-ok (pack_into buf off entry) _ more in
    (pack_player_fits p packed, pack_players_fits ps buf' (off + 16) rest)

-- A snapshot is packed only where every field of every entry fits.
pub snapshot_fits : (t : ℕ) (ps : List Player) {bs : Bytes} → snapshot t ps ≡ ok bs → All InRange ps
unfolding snapshot
snapshot_fits t ps h =
    let (buf, _, more) = bind-ok (pack_into _ 0 _) _ h in
    let (header, _, rest) = bind-ok (pack_header t (length ps)) _ more in
    let (buf', _, last) = bind-ok (pack_into buf 1 header) _ rest in
    pack_players_fits ps buf' 7 last

pub snapshot_count :
    (t : ℕ) (ps : List Player) {bs : Bytes} → snapshot t ps ≡ ok bs → length ps < 2 ^ 16
unfolding snapshot pack_header pack_u16
snapshot_count t ps h =
    let (buf, _, more) = bind-ok (pack_into _ 0 _) _ h in
    let (header, packed, _) = bind-ok (pack_header t (length ps)) _ more in
    let (tick, _, count) = bind-ok (pack_u32 t) _ packed in ground arith
