-- ===== src/Sha1/Blocks.antt =====
-- src/sha1.c: what a context holds of the message that was fed into it.
use ps5torrent.Base.{
  ℕ, zero, suc, ◌+◌, ◌*◌, ◌%◌, ◌^◌, ◌<◌, ◌≤◌, ◌≡◌, refl, ap, sym, ◌∙◌, ◌++◌, List, [], ◌∷◌, Bytes,
  length, length-append, append_assoc, set, take, drop, leb, leb→le, All, arith, Bool-cases, inl,
  inr, take-append-drop, length-take, length-drop,
}
use ps5torrent.Sha1.Transform.{Words, sha1_transform}
use ps5torrent.Sha1.Context.{Sha1Ctx, copy_at, sha1_init, whole_blocks}

abbrev pub IsBlock : Bytes → Type 0
IsBlock b = length b ≡ 64

abbrev pub joined : List Bytes → Bytes
joined [] = []
joined (b ∷ bs) = b ++ joined bs

-- The state after whole blocks.
abbrev pub absorb : Words → List Bytes → Words
absorb s [] = s
absorb s (b ∷ bs) = absorb (sha1_transform s b) bs

pub absorb-append : (s : Words) (bs cs : List Bytes) → absorb s (bs ++ cs) ≡ absorb (absorb s bs) cs
absorb-append s [] cs = refl
absorb-append s (b ∷ bs) cs = absorb-append (sha1_transform s b) bs cs

pub joined-append : (bs cs : List Bytes) → joined (bs ++ cs) ≡ joined bs ++ joined cs
joined-append [] cs = refl
joined-append (b ∷ bs) cs = rw (joined-append bs cs) (sym (append_assoc b (joined bs) (joined cs)))

pub length-joined : (bs : List Bytes) → All IsBlock bs → length (joined bs) ≡ 64 * length bs
length-joined [] h = omega arith
length-joined (b ∷ bs) (e, h) = omega (arith, e, length-append b (joined bs), length-joined bs h)

pub set_append : (pre mid : Bytes) (m c : ℕ) → set (pre ++ m ∷ mid) (length pre) c ≡ pre ++ c ∷ mid
set_append [] mid m c = refl
set_append (p ∷ pre) mid m c = ap (λ t. p ∷ t) (set_append pre mid m c)

pub copy_at_lem :
    (pre mid bytes : Bytes) (idx : ℕ)
    → idx ≡ length pre
    → length bytes ≤ length mid
    → copy_at (pre ++ mid) idx bytes ≡ pre ++ (bytes ++ drop (length bytes) mid)
unfolding copy_at
copy_at_lem pre mid [] idx e h = refl
copy_at_lem pre [] (c ∷ r) idx e h = absurd (omega arith)
copy_at_lem pre (m ∷ mid) (c ∷ r) idx e h =
    rw (e, set_append pre mid m c)
      (rw (sym (append_assoc pre (c ∷ []) mid)) (
        copy_at_lem (pre ++ c ∷ []) mid r (length pre + 1)
          (omega (arith, length-append pre (c ∷ []))) (omega arith)
        ∙ append_assoc pre (c ∷ []) (r ++ drop (length r) mid)))

take_block : (bytes : Bytes) → 64 ≤ length bytes → length (take 64 bytes) ≡ 64
take_block bytes h = omega (arith, length-take 64 bytes)

-- The loop over whole blocks takes off all of them.
pub whole_blocks_lem :
    (n : ℕ) (s : Words) (bytes : Bytes)
    → length bytes ≤ n
    → (bs : List Bytes) × All IsBlock bs
      × (bytes ≡ joined bs ++ (whole_blocks n s bytes).1)
      × (length (whole_blocks n s bytes).1 < 64)
      × ((whole_blocks n s bytes).0 ≡ absorb s bs)
unfolding whole_blocks
whole_blocks_lem zero s bytes h = ([], tt, refl, omega arith, refl)
whole_blocks_lem (suc n) s bytes h = elim (Bool-cases (leb 64 (length bytes))) [
  | inl e ↦
      let (bs, full, j, l, a) =
        whole_blocks_lem n (sha1_transform s (take 64 bytes)) (drop 64 bytes)
          (omega (arith, length-drop 64 bytes)) in
      let f : length (take 64 bytes) ≡ 64 = take_block bytes (leb→le 64 _ e) in
      rw e (
        take 64 bytes ∷ bs,
        (f, full),
        sym (take-append-drop 64 bytes)
            ∙ (ap (λ t. take 64 bytes ++ t) j ∙ sym (append_assoc (take 64 bytes) (joined bs) _)),
        l,
        a,
      )
  | inr e ↦ rw e ([], tt, refl, ground arith, refl)
]

-- The state of a context that nothing was fed into.
abbrev pub initial : Words
unfolding sha1_init
initial = (sha1_init []).state

-- The context has the message: its whole blocks are in the state, the rest is in front of the
-- buffer, and the count is the message's length in bits.
abbrev pub Absorbed : Sha1Ctx → Bytes → Type 0
Absorbed ctx message =
    (bs : List Bytes) × (rest : Bytes) × (tail : Bytes) × All IsBlock bs
    × (message ≡ joined bs ++ rest)
    × (length rest < 64)
    × (ctx.state ≡ absorb initial bs)
    × (ctx.count ≡ length message * 8 % 2 ^ 64)
    × (ctx.buffer ≡ rest ++ tail)
    × (length rest + length tail ≡ 64)
