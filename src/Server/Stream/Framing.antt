-- ===== src/Server/Stream/Framing.antt =====
-- servers/python/server.py: `handle` reads exactly the frames of PROTOCOL.md, and ends.
use game_bench.Common.{
  ℕ, zero, suc, ◌+◌, ◌*◌, ◌^◌, ◌<◌, ◌≤◌, ◌≡◌, refl, sym, ap, ◌∙◌, ◌⊎◌, some, List, [], ◌∷◌, ◌++◌,
  arith, length, All, length-append, length-drop, take-append, drop-append, append_assoc,
}
use game_bench.Py.Result.{Result, ok, raise}
use game_bench.Py.Struct.{Bytes, IsBytes, be32, be32_value, unpack_u32}
use game_bench.Server.Room.{Writer}
use game_bench.Server.World.{World, Session, handle_payload, finish}
use game_bench.Server.World.Effects.{handle_payload-Returns}
use game_bench.Server.Stream.{
  Read, incomplete, bad_length, payload, max_frame, read_payload, read_frame, handle,
}

-- A payload that the protocol allows.
abbrev pub IsPayload : Bytes → Type 0
IsPayload p = (1 ≤ length p) × (length p ≤ max_frame)

-- Frames as a client sends them.
pub wire : List Bytes → Bytes
wire [] = []
wire (p ∷ ps) = be32 (length p) ++ (p ++ wire ps)

read_payload-append :
    (p rest : Bytes) → IsPayload p → read_payload (length p) (p ++ rest) ≡ payload p rest
unfolding read_payload
read_payload-append p rest h =
    rw (take-append p rest, drop-append p rest) (ground (arith, length-append p rest))

-- A frame is read back, with what follows it.
pub read_frame-frame :
    (p rest : Bytes) → IsPayload p → read_frame (be32 (length p) ++ (p ++ rest)) ≡ payload p rest
unfolding read_frame unpack_u32
read_frame-frame p rest h = rw (be32_value (length p) (omega arith)) (read_payload-append p rest h)

-- A frame that is read takes five bytes at least.
read_payload-shorter :
    (n : ℕ) (bs p rest : Bytes) → read_payload n bs ≡ payload p rest → length rest < length bs
unfolding read_payload
read_payload-shorter n bs p rest h = ground (arith, length-drop n bs)

pub read_frame-shorter :
    (bs p rest : Bytes) → read_frame bs ≡ payload p rest → length rest < length bs
unfolding read_frame unpack_u32
read_frame-shorter (a ∷ b ∷ c ∷ d ∷ bs) p rest h =
    omega (arith, read_payload-shorter (a * 2 ^ 24 + b * 2 ^ 16 + c * 2 ^ 8 + d) bs p rest h)
read_frame-shorter (a ∷ b ∷ c ∷ []) p rest h = cc
read_frame-shorter (a ∷ b ∷ []) p rest h = cc
read_frame-shorter (a ∷ []) p rest h = cc
read_frame-shorter [] p rest h = cc

-- The loop ends: fuel for every byte and one round more is enough, whatever the bytes.
pub handle_total :
    (fuel period : ℕ) (c : Writer) (s : Session) (bs : Bytes) (w : World)
    → length bs < fuel
    → (w' : World) × (handle fuel period c s bs w ≡ some w')
unfolding handle
handle_total zero period c s bs w h = absurd (omega arith)
handle_total (suc fuel) period c s bs w h =
    by_read (handle_total fuel period c) (read_frame bs) refl
  where
    by_result :
        (p rest : Bytes)
        → read_frame bs ≡ payload p rest
        → (x : Result (Session × World)) → handle_payload period c s p w ≡ x
        → ((s' : Session) (rest' : Bytes) (u : World)
            → length rest' < fuel
            → (w' : World) × (handle fuel period c s' rest' u ≡ some w'))
        → (w' : World) × (handle (suc fuel) period c s bs w ≡ some w')
    by_result p rest e (ok (s', u)) e' again =
        rw (e, handle, e') (again s' rest u (omega (arith, read_frame-shorter bs p rest e)))
    by_result p rest e (raise x) e' again = (finish c s w, rw (e, handle, e'))

    by_read :
        ((s' : Session) (rest' : Bytes) (u : World)
          → length rest' < fuel
          → (w' : World) × (handle fuel period c s' rest' u ≡ some w'))
        → (r : Read) → read_frame bs ≡ r
        → (w' : World) × (handle (suc fuel) period c s bs w ≡ some w')
    by_read again incomplete e = (finish c s w, rw (e, handle))
    by_read again bad_length e = (finish c s w, rw (e, handle))
    by_read again (payload p rest) e = by_result p rest e (handle_payload period c s p w) refl again

-- The messages of a list, one after the other.
pub messages : ℕ → Writer → Session → List Bytes → World → Session × World
messages period c s [] w = (s, w)
messages period c s (p ∷ ps) w = elim (handle_payload period c s p w) [
  | ok (s', w') ↦ messages period c s' ps w'
  | raise e ↦ (s, w)
]

messages-cons :
    (p : Bytes) (ps : List Bytes) (period : ℕ) (c : Writer) (s : Session) (w : World)
    (r : Session × World)
    → handle_payload period c s p w ≡ ok r
    → messages period c s (p ∷ ps) w ≡ messages period c r.0 ps r.1
unfolding messages
messages-cons p ps period c s w r e = rw (e, messages)

handle_frame :
    (p rest : Bytes) (fuel period : ℕ) (c : Writer) (s : Session) (w : World) (r : Session × World)
    → IsPayload p
    → handle_payload period c s p w ≡ ok r
    → handle (suc fuel) period c s (be32 (length p) ++ (p ++ rest)) w
      ≡ handle fuel period c r.0 rest r.1
unfolding handle
handle_frame p rest fuel period c s w r h e = rw (read_frame-frame p rest h, handle, e)

-- Frames of payloads of 1 to 2 ^ 20 bytes are handled one by one and in order, with nothing lost at
-- their borders; the loop then stands at the bytes that follow.
pub handle-wire :
    (ps : List Bytes) (rest : Bytes) (fuel period : ℕ) (c : Writer) (s : Session) (w : World)
    → All (λ p. IsBytes p × IsPayload p) ps
    → handle (length ps + fuel) period c s (wire ps ++ rest) w
      ≡ handle fuel period c (messages period c s ps w).0 rest (messages period c s ps w).1
unfolding wire messages
handle-wire [] rest fuel period c s w h = ap (λ n. handle n period c s rest w) (omega arith)
handle-wire (p ∷ ps) rest fuel period c s w h =
    let (r, e, effect) = handle_payload-Returns period c s p w h.0.0 h.0.1.0 in
    let more : suc (length ps) + fuel ≡ suc (length ps + fuel) = omega arith in
    ap (λ n. handle n period c s (wire (p ∷ ps) ++ rest) w) more
    ∙ ap (λ bs. handle (suc (length ps + fuel)) period c s (be32 (length p) ++ bs) w)
        (append_assoc p (wire ps) rest)
    ∙ handle_frame p (wire ps ++ rest) (length ps + fuel) period c s w r h.0.1 e
    ∙ handle-wire ps rest fuel period c r.0 r.1 h.1
    ∙ ap (λ (x : Session × World). handle fuel period c x.0 rest x.1)
        (sym (messages-cons p ps period c s w r e))

bad_header :
    (n : ℕ) (junk : Bytes)
    → n < 2 ^ 32
    → (n ≡ 0) ⊎ (max_frame < n)
    → read_frame (be32 n ++ junk) ≡ bad_length
unfolding read_frame read_payload unpack_u32
bad_header n junk small h = rw (be32_value n small) (ground arith)

-- After any such frames, a header of length 0 or above 1 MiB ends the connection: the `finally` runs,
-- and nothing behind the header is read.
pub handle-bad_header :
    (ps : List Bytes) (n : ℕ) (junk : Bytes) (fuel period : ℕ) (c : Writer) (s : Session)
    (w : World)
    → All (λ p. IsBytes p × IsPayload p) ps
    → n < 2 ^ 32
    → (n ≡ 0) ⊎ (max_frame < n)
    → handle (length ps + suc fuel) period c s (wire ps ++ (be32 n ++ junk)) w
      ≡ some (finish c (messages period c s ps w).0 (messages period c s ps w).1)
unfolding handle
handle-bad_header ps n junk fuel period c s w h small bad =
    handle-wire ps (be32 n ++ junk) (suc fuel) period c s w h
    ∙ rw (bad_header n junk small bad, handle)
